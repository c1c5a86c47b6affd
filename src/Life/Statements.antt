-- ===== src/Life/Statements.antt =====
-- src/main.cc, do_script: what each statement makes of what is true before it.
use threadjs_lib.Base.{
  ℕ, ◌≡◌, ◌≢◌, refl, sym, subst, ◌∙◌, Bool, true, false, List, [], ◌∷◌, ◌++◌, Option, some,
  Option-cases, Bool-cases, inl, inr, if◌then◌else◌,
}
use threadjs_lib.ObjectMap.Handles
use threadjs_lib.Errors.{Caught, call_ret_bool}
use threadjs_lib.Events.{EventData, World, uv_async_send, has_event, create_uv_async}
use threadjs_lib.Events.Channel.{wake}
use threadjs_lib.Life.{
  booting, binding, asking, heading, polling, polled, turning, draining, uninstalling, failing,
  ReqData, Thread, Outcome, goes_on, throws, answers, drained, to, time_begin, time_end, bind,
  after_poll, dispatch, sub_step,
}
use threadjs_lib.Life.Inv.{Stage, single, paired, alone, WorldOk, Inv}
use threadjs_lib.Life.Table.{bind_peer_event-TableOk}
use threadjs_lib.Life.Endpoints.{create_uv_async-paired}
use threadjs_lib.Life.Keep.{Keeps, Inv-world, not_deleted, moves-Keeps}

nothing_left : (xs ys : List EventData) → xs ++ ys ≡ [] → ys ≡ []
nothing_left [] ys e = e
nothing_left (x ∷ xs) ys e = cc

-- Waking a side changes nothing that the two sides promise.
pub wake-WorldOk :
    (hm hs m : ℕ) (st : Stage) (s : ℕ) (q : List EventData) (k : ℕ) (w : World)
    → WorldOk hm hs m st s q w
    → WorldOk hm hs m st s q (uv_async_send k w)
unfolding uv_async_send
wake-WorldOk hm hs m single s q k w h = h
wake-WorldOk hm hs m paired s q k w (a, u, h) = (a, u, wake m s hm hs h k)
wake-WorldOk hm hs m alone s q k w h = h

module _ (hm hs m : ℕ) where
  pub if-Keeps :
      (b : Bool) (o o' : Outcome)
      → Keeps hm hs m o
      → Keeps hm hs m o'
      → Keeps hm hs m (if b then o else o')
  if-Keeps true o o' h h' = h
  if-Keeps false o o' h h' = h'

  pub booting-Keeps :
      (r : ReqData) (s : Thread)
      → Inv hm hs m booting (some r) s
      → Keeps hm hs m (sub_step hm hs throws (record s { phase = booting; req = some r }))
  unfolding sub_step dispatch
  booting-Keeps r s h =
      if-Keeps r.node _ _
        (moves-Keeps hm hs m booting (failing 10) r r s s.sub_ref refl refl refl (λ q. tt) h.req_ok
          h)
        tt

  pub binding-Keeps :
      hm ≢ hs
      → (r : ReqData) (s : Thread) → Inv hm hs m binding (some r) s
      → Keeps hm hs m (sub_step hm hs goes_on (record s { phase = binding; req = some r }))
  unfolding sub_step dispatch bind
  binding-Keeps other r s h = elim (Option-cases (create_uv_async hs s.world)) [
    | inl full ↦ rw (bind, full) tt
    | inr ((id, w₁), made) ↦
        let (there, open') = not_deleted hm hs m binding (some r) s refl h in
        let none_yet : h.queue ≡ [] = nothing_left s.received h.queue (h.delivered ∙ h.posted_ok) in
        let (table, w', bound', ok) =
          create_uv_async-paired hm hs m s.world other h.table
            (subst (λ q. WorldOk hm hs m single 0 q s.world) none_yet (h.world_ok open')) w₁ id
            made in
        rw (bind, made)
          (rw bound' (record {
            queue = h.queue;
            req_ok = (h.req_ok.0, refl);
            object_ok = h.object_ok;
            id_ok = h.id_ok;
            loop_ok = h.loop_ok;
            sub_ok = sym;
            early_ok = h.early_ok;
            late_ok = h.late_ok;
            main_ok = h.main_ok;
            named = h.named;
            table = bind_peer_event-TableOk hm hs w₁ w' bound' table;
            world_ok = λ d. subst (λ q. WorldOk hm hs m paired id q w') (sym none_yet) ok;
            delivered = h.delivered;
            posted_ok = tt;
          }))
  ]

  pub asking-Keeps :
      (caught : Option Caught) (b : Bool) (r : ReqData) (s : Thread)
      → Inv hm hs m asking (some r) s
      → Keeps hm hs m
          (sub_step hm hs (answers caught b) (record s { phase = asking; req = some r }))
  unfolding sub_step dispatch
  asking-Keeps caught b r s h = asked (call_ret_bool caught b)
    where
      asked :
          (b : Bool)
          → Keeps hm hs m
              (to (if b then uninstalling else heading) (record s { phase = asking; req = some r }))
      asked true =
          moves-Keeps hm hs m asking uninstalling r r s s.sub_ref refl refl refl (λ q. q) h.req_ok h
      asked false =
          moves-Keeps hm hs m asking heading r r s s.sub_ref refl refl refl (λ q. q) h.req_ok h

  pub heading-Keeps :
      (r : ReqData) (s : Thread)
      → Inv hm hs m heading (some r) s
      → Keeps hm hs m (sub_step hm hs goes_on (record s { phase = heading; req = some r }))
  unfolding sub_step dispatch time_begin
  heading-Keeps r s h =
      if-Keeps r.running _ _
        (moves-Keeps hm hs m heading polling r _ s s.sub_ref refl refl refl (λ q. q) h.req_ok h)
        (moves-Keeps hm hs m heading uninstalling r r s s.sub_ref refl refl refl (λ q. q) h.req_ok
          h)

  pub polled-Keeps :
      (r : ReqData) (s : Thread)
      → Inv hm hs m polled (some r) s
      → Keeps hm hs m (sub_step hm hs goes_on (record s { phase = polled; req = some r }))
  unfolding sub_step dispatch after_poll time_end
  polled-Keeps r s h =
      let (there, open') = not_deleted hm hs m polled (some r) s refl h in
      elim (Bool-cases (has_event hm s.world)) [
        | inl waits ↦ rw waits (
            rw there (
              broken _ (unfold uv_async_send in h.table)
                (wake-WorldOk hm hs m paired s.sub_end h.queue hm s.world (h.world_ok open'))))
        | inr quiet' ↦ rw quiet' (rw there (broken s.world h.table (h.world_ok open')))
      ]
    where
      broken :
          (w : World)
          → Handles.IsValid w.objects
          → WorldOk hm hs m paired s.sub_end h.queue w
          → Keeps hm hs m (
              if r.terminated
              then to uninstalling
                  (time_end r (record s { phase = polled; req = some r; world = w }))
              else to turning (record s { phase = polled; req = some r; world = w }))
      broken w table ok =
          let h' : Inv hm hs m polled (some r) (record s { world = w }) =
            Inv-world hm hs m polled (some r) s w h table (λ d. ok) in
          if-Keeps r.terminated _ _
            (moves-Keeps hm hs m polled uninstalling r _ (record s { world = w }) s.sub_ref refl
              refl refl (λ q. q) h.req_ok h')
            (moves-Keeps hm hs m polled turning r r (record s { world = w }) s.sub_ref refl refl
              refl (λ q. q) h.req_ok h')

  pub turning-Keeps :
      (caught : Option Caught) (b : Bool) (r : ReqData) (s : Thread)
      → Inv hm hs m turning (some r) s
      → Keeps hm hs m
          (sub_step hm hs (answers caught b) (record s { phase = turning; req = some r }))
  unfolding sub_step dispatch time_end
  turning-Keeps caught b r s h =
      if-Keeps (call_ret_bool caught b) _ _
        (moves-Keeps hm hs m turning draining r r s _ refl refl refl (λ q. q) h.req_ok h)
        (moves-Keeps hm hs m turning heading r _ s _ refl refl refl (λ q. q) h.req_ok h)

  pub draining-Keeps :
      (more : Bool) (r : ReqData) (s : Thread)
      → Inv hm hs m draining (some r) s
      → Keeps hm hs m (sub_step hm hs (drained more) (record s { phase = draining; req = some r }))
  unfolding sub_step dispatch time_end
  draining-Keeps true r s h =
      moves-Keeps hm hs m draining heading r _ s s.sub_ref refl refl refl (λ q. q) h.req_ok h
  draining-Keeps false r s h =
      moves-Keeps hm hs m draining uninstalling r _ s s.sub_ref refl refl refl (λ q. q) h.req_ok h
