-- ===== src/Life/Keep.antt =====
-- src/main.cc, do_script: what each statement makes of what is true before it.
use threadjs_lib.Base.{
  ℕ, ◌≡◌, refl, sym, subst, ap, ◌∙◌, Bool, true, false, List, [], ◌∷◌, ◌++◌, Option, some,
  Bool-cases, inl, inr, append_assoc,
}
use threadjs_lib.IdContainer.{notfree_object}
use threadjs_lib.Events.{EventData, World, send_event}
use threadjs_lib.ObjectMap.Handles
use threadjs_lib.Errors.Texts.{str_event_total}
use threadjs_lib.Life.{
  Phase, Memory, ReqData, Thread, Outcome, next, fault, overflow, refused, Choice, sends, posts,
  is_deleted, is_closed, post, post_str, push, script,
}
use threadjs_lib.Life.Inv.{
  id_live, is_early, stage, paired, ReqOk, PostedOk, EndsIn, WorldOk, Inv, IsValid,
}
use threadjs_lib.Life.Table.{send_event-TableOk, push_event-TableOk}
use threadjs_lib.Life.Worlds.{send_event-WorldOk, push_event-paired}

module _ (hm hs m : ℕ) where
  -- Not a fault, and what comes next is valid.
  abbrev pub Keeps : Outcome → Type 0
  Keeps (next s) = IsValid hm hs m s
  Keeps fault = ⊥
  Keeps overflow = Unit {0}
  Keeps refused = Unit {0}

  -- Another world in which the same waits.
  pub Inv-world :
      (p : Phase) (r : Option ReqData) (s : Thread) (w : World) (h : Inv hm hs m p r s)
      → Handles.IsValid w.objects
      → (is_closed s.del_event ≡ false → WorldOk hm hs m (stage p) s.sub_end h.queue w)
      → Inv hm hs m p r (record s { world = w })
  Inv-world p r s w h table ok = record {
    queue = h.queue;
    req_ok = h.req_ok;
    object_ok = h.object_ok;
    id_ok = h.id_ok;
    loop_ok = h.loop_ok;
    sub_ok = h.sub_ok;
    early_ok = h.early_ok;
    late_ok = h.late_ok;
    main_ok = h.main_ok;
    named = h.named;
    table = table;
    world_ok = ok;
    delivered = h.delivered;
    posted_ok = h.posted_ok;
  }

  -- A statement that moves on in the same stage.
  pub Inv-moves :
      (p p' : Phase) (r r' : Option ReqData) (s : Thread) (f : Phase) (b : Bool) (l : Memory)
      → id_live p ≡ id_live p'
      → stage p ≡ stage p'
      → is_early p ≡ is_early p'
      → (is_deleted l ≡ true → id_live p' ≡ false)
      → (PostedOk p s.posted → PostedOk p' s.posted)
      → ReqOk p' r'
      → Inv hm hs m p r s
      → Inv hm hs m p' r' (record s { phase = f; req = r'; sub_ref = b; loop = l })
  Inv-moves p p' r r' s f b l lives same early freed posted req h = record {
    queue = h.queue;
    req_ok = req;
    object_ok = h.object_ok;
    id_ok = h.id_ok ∙ lives;
    loop_ok = freed;
    sub_ok = λ e. sym lives ∙ h.sub_ok e;
    early_ok = λ e. h.early_ok (early ∙ e);
    late_ok = λ e. h.late_ok (early ∙ e);
    main_ok = h.main_ok;
    named = h.named;
    table = h.table;
    world_ok = λ e. subst (λ st. WorldOk hm hs m st s.sub_end h.queue s.world) same (h.world_ok e);
    delivered = h.delivered;
    posted_ok = posted h.posted_ok;
  }

  -- The same with nothing else to it.
  pub moves-Keeps :
      (p p' : Phase) (r r' : ReqData) (s : Thread) (b : Bool)
      → id_live p ≡ id_live p'
      → stage p ≡ stage p'
      → is_early p ≡ is_early p'
      → (PostedOk p s.posted → PostedOk p' s.posted)
      → ReqOk p' (some r')
      → Inv hm hs m p (some r) s
      → Keeps (next (record s { phase = p'; req = some r'; sub_ref = b }))
  moves-Keeps p p' r r' s b lives same early posted req h =
      Inv-moves p p' (some r) (some r') s p' b s.loop lives same early
        (λ d. sym lives ∙ h.loop_ok d) posted req h

  -- A statement that sends.
  Inv-posts :
      (p p' : Phase) (r : Option ReqData) (s : Thread) (f : Phase) (e : EventData) (w : World)
      (h : Inv hm hs m p r s)
      → id_live p ≡ id_live p'
      → is_early p ≡ is_early p'
      → Handles.IsValid w.objects
      → (is_closed s.del_event ≡ false → WorldOk hm hs m (stage p') s.sub_end (h.queue ++ e ∷ []) w)
      → PostedOk p' (s.posted ++ e ∷ [])
      → ReqOk p' r
      → Inv hm hs m p' r (record s { phase = f; world = w; posted = s.posted ++ e ∷ []; req = r })
  Inv-posts p p' r s f e w h lives early table world posted req = record {
    queue = h.queue ++ e ∷ [];
    req_ok = req;
    object_ok = h.object_ok;
    id_ok = h.id_ok ∙ lives;
    loop_ok = λ d. sym lives ∙ h.loop_ok d;
    sub_ok = λ d. sym lives ∙ h.sub_ok d;
    early_ok = λ d. h.early_ok (early ∙ d);
    late_ok = λ d. h.late_ok (early ∙ d);
    main_ok = h.main_ok;
    named = h.named;
    table = table;
    world_ok = world;
    delivered =
        sym (append_assoc s.received h.queue (e ∷ [])) ∙ ap (λ es. es ++ e ∷ []) h.delivered;
    posted_ok = posted;
  }

  -- Until it signals del_event the thread may use main_event.
  pub not_deleted :
      (p : Phase) (r : Option ReqData) (s : Thread)
      → is_early p ≡ true
      → Inv hm hs m p r s
      → (is_deleted s.main_handle ≡ false) × (is_closed s.del_event ≡ false)
  not_deleted p r s early h =
      let open' : is_closed s.del_event ≡ false = ap is_closed (h.early_ok early) in
      (h.main_ok ∙ open', open')

  post-Keeps :
      (p p' : Phase) (r : ReqData) (s : Thread) (f : Phase) (e : EventData)
      → id_live p ≡ id_live p'
      → is_early p ≡ true
      → is_early p' ≡ true
      → stage p ≡ stage p'
      → PostedOk p' (s.posted ++ e ∷ [])
      → ReqOk p' (some r)
      → Inv hm hs m p (some r) s
      → Keeps (post hm hs e p' (record s { phase = f; req = some r }))
  unfolding post
  post-Keeps p p' r s f e lives early early' same posted req h =
      let (there, open') = not_deleted p (some r) s early h in
      rw there (
        Inv-posts p p' (some r) s p' e _ h lives (early ∙ sym early')
          (send_event-TableOk hm e s.world h.table)
          (λ d.
            subst (λ st. WorldOk hm hs m st s.sub_end (h.queue ++ e ∷ []) (send_event hm e s.world))
              same
              (send_event-WorldOk hm hs m (stage p) s.sub_end e h.queue s.world (h.world_ok open')))
          posted req)

  -- A message that ends what the thread sends.
  pub post_str-Keeps :
      (p p' : Phase) (r : ReqData) (s : Thread) (f : Phase) (t : List ℕ)
      → id_live p ≡ id_live p'
      → is_early p ≡ true
      → is_early p' ≡ true
      → stage p ≡ stage p'
      → ((es : List EventData) → EndsIn t es → PostedOk p' es)
      → ReqOk p' (some r)
      → Inv hm hs m p (some r) s
      → Keeps (post_str hm hs t p' (record s { phase = f; req = some r }))
  unfolding post_str
  post_str-Keeps p p' r s f t lives early early' same posted req h =
      let (e, made) = str_event_total t in
      rw (post_str, made)
        (post-Keeps p p' r s f e lives early early' same
          (posted (s.posted ++ e ∷ []) (s.posted, e, made, refl)) req h)

  -- While the thread's JavaScript runs.
  pub script-Keeps :
      (p : Phase) (r : ReqData) (c : Choice) (s : Thread)
      → is_early p ≡ true
      → stage p ≡ paired
      → ((es : List EventData) → PostedOk p es)
      → Inv hm hs m p (some r) s
      → Keeps (script hm hs c (record s { phase = p; req = some r }))
  unfolding script push
  script-Keeps p r (sends e) s early same posted h =
      let (there, open') = not_deleted p (some r) s early h in
      let (w, pushed, ok) =
        push_event-paired hm hs m s.sub_end e h.queue s.world
          (subst (λ st. WorldOk hm hs m st s.sub_end h.queue s.world) same (h.world_ok open')) in
      elim (Bool-cases (notfree_object s.object s.ids)) [
        | inr free ↦ rw free (
            Inv-moves p p (some r) (some r) s p s.sub_ref s.loop refl refl refl h.loop_ok (λ q. q)
              h.req_ok h)
        | inl taken ↦ rw taken (
            rw there (
              rw pushed (
                Inv-posts p p (some r) s p e w h refl refl
                  (push_event-TableOk s.sub_end e s.world w pushed h.table)
                  (λ d.
                    subst (λ st. WorldOk hm hs m st s.sub_end (h.queue ++ e ∷ []) w) (sym same) ok)
                  (posted _) h.req_ok)))
      ]
  script-Keeps p r (posts e) s early same posted h =
      post-Keeps p p r s p e refl early early refl (posted _) h.req_ok h
  script-Keeps p r c s early same posted h = tt
