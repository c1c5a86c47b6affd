-- ===== src/Life/Release.antt =====
-- src/data.cc, free_sub_loop and ~ReqData: what is true of a thread behind each statement of them.
use threadjs_lib.Base.{ℕ, ◌≡◌, refl, subst, ◌∙◌, Bool, false, Option, none, some, arith}
use threadjs_lib.IdContainer.{freeid}
use threadjs_lib.IdContainer.Lifetime.{contains-erase}
use threadjs_lib.Life.{
  Phase, freeing_id, freeing_event, signalling, closing, leaving, ended, ReqData, Thread, goes_on,
  closes, dispatch, sub_step,
}
use threadjs_lib.Life.Inv.{id_live, is_early, stage, ReqOk, PostedOk, WorldOk, Inv}
use threadjs_lib.Life.Table.{free-TableOk}
use threadjs_lib.Life.Worlds.{free-alone}
use threadjs_lib.Life.Keep.{Keeps, not_deleted}

module _ (hm hs m : ℕ) where
  -- The id goes out of the pool.
  Inv-frees :
      (p p' : Phase) (r r' : Option ReqData) (s : Thread) (f : Phase)
      → id_live p' ≡ false
      → stage p ≡ stage p'
      → is_early p ≡ is_early p'
      → (PostedOk p s.posted → PostedOk p' s.posted)
      → ReqOk p' r'
      → Inv hm hs m p r s
      → Inv hm hs m p' r' (record s { phase = f; req = r'; ids = freeid s.thread_id s.ids })
  unfolding freeid
  Inv-frees p p' r r' s f dead same early posted req h = record {
    queue = h.queue;
    req_ok = req;
    object_ok = h.object_ok;
    id_ok = ground (arith, dead, contains-erase s.thread_id s.thread_id s.ids.thread_id_pool);
    loop_ok = λ d. dead;
    sub_ok = λ d. dead;
    early_ok = λ e. h.early_ok (early ∙ e);
    late_ok = λ e. h.late_ok (early ∙ e);
    main_ok = h.main_ok;
    named = h.named;
    table = h.table;
    world_ok = λ e. subst (λ st. WorldOk hm hs m st s.sub_end h.queue s.world) same (h.world_ok e);
    delivered = h.delivered;
    posted_ok = posted h.posted_ok;
  }

  pub freeing_id-Keeps :
      (r : ReqData) (s : Thread)
      → Inv hm hs m freeing_id (some r) s
      → Keeps hm hs m (sub_step hm hs goes_on (record s { phase = freeing_id; req = some r }))
  unfolding sub_step dispatch freeid
  freeing_id-Keeps r s h =
      Inv-frees freeing_id freeing_event (some r) (some r) s freeing_event refl refl refl (λ q. q)
        h.req_ok h

  pub freeing_event-Keeps :
      (r : ReqData) (s : Thread)
      → Inv hm hs m freeing_event (some r) s
      → Keeps hm hs m (sub_step hm hs goes_on (record s { phase = freeing_event; req = some r }))
  unfolding sub_step dispatch
  freeing_event-Keeps r s h =
      let (there, open') = not_deleted hm hs m freeing_event (some r) s refl h in
      record {
        queue = h.queue;
        req_ok = h.req_ok;
        object_ok = h.object_ok;
        id_ok = h.id_ok;
        loop_ok = h.loop_ok;
        sub_ok = h.sub_ok;
        early_ok = h.early_ok;
        late_ok = h.late_ok;
        main_ok = h.main_ok;
        named = h.named;
        table = free-TableOk hs s.world h.table;
        world_ok = λ d. free-alone hm hs m s.sub_end h.queue s.world (h.world_ok open');
        delivered = h.delivered;
        posted_ok = h.posted_ok;
      }

  pub signalling-Keeps :
      (r : ReqData) (s : Thread)
      → Inv hm hs m signalling (some r) s
      → Keeps hm hs m (sub_step hm hs goes_on (record s { phase = signalling; req = some r }))
  unfolding sub_step dispatch
  signalling-Keeps r s h =
      let (there, open') = not_deleted hm hs m signalling (some r) s refl h in
      rw open' (record {
        queue = h.queue;
        req_ok = h.req_ok;
        object_ok = h.object_ok;
        id_ok = h.id_ok;
        loop_ok = h.loop_ok;
        sub_ok = h.sub_ok;
        early_ok = λ e. cc;
        late_ok = λ e e'. cc;
        main_ok = there;
        named = h.named;
        table = h.table;
        world_ok = λ d. h.world_ok open';
        delivered = h.delivered;
        posted_ok = h.posted_ok;
      })

  pub closing-Keeps :
      (busy : Bool) (r : ReqData) (s : Thread)
      → Inv hm hs m closing (some r) s
      → Keeps hm hs m (sub_step hm hs (closes busy) (record s { phase = closing; req = some r }))
  unfolding sub_step dispatch
  closing-Keeps busy r s h = record {
    queue = h.queue;
    req_ok = h.req_ok;
    object_ok = h.object_ok;
    id_ok = h.id_ok;
    loop_ok = λ d. refl;
    sub_ok = λ d. refl;
    early_ok = h.early_ok;
    late_ok = h.late_ok;
    main_ok = h.main_ok;
    named = h.named;
    table = h.table;
    world_ok = h.world_ok;
    delivered = h.delivered;
    posted_ok = h.posted_ok;
  }

  pub leaving-Keeps :
      (code : Option ℕ) (r : ReqData) (s : Thread)
      → Inv hm hs m (leaving code) (some r) s
      → Keeps hm hs m (sub_step hm hs goes_on (record s { phase = leaving code; req = some r }))
  unfolding sub_step dispatch freeid
  leaving-Keeps none r s h =
      Inv-frees (leaving none) (ended none) (some r) none s (ended none) refl refl refl (λ q. q)
        refl h
  leaving-Keeps (some n) r s h =
      Inv-frees (leaving (some n)) (ended (some n)) (some r) none s (ended (some n)) refl refl refl
        (λ q. q) refl h
