-- ===== src/Life/Worlds.antt =====
-- The two endpoints of src/data.h while a thread lives: what each call of src/main.cc makes of them.
use threadjs_lib.Base.{
  ℕ, ◌≡◌, ◌≢◌, refl, sym, subst, ap, ◌∙◌, List, [], ◌∷◌, ◌++◌, Option, none, some, arith,
  Option-cases, inl, inr,
}
use threadjs_lib.StdMap.{find, find-assign_same, find-erase}
use threadjs_lib.ObjectMap.{get, rm}
use threadjs_lib.Events.{
  EventData, RecvEventData, World, store, uv_async_send, send_event, push_event, push_not_send,
  next_event, free_recv_event_from,
}
use threadjs_lib.Events.Channel.{
  stepped_world, bound, step, sub_sends, main_sends, main_takes, store_main, get-sub, wake,
  send-main, step-Refines,
}
use threadjs_lib.Life.Inv.{Stage, single, paired, alone, MainAt, WorldOk}

send_event_gone : (h : ℕ) (e : EventData) (w : World) → w.handle_data h ≡ 0 → send_event h e w ≡ w
unfolding send_event get
send_event_gone h e w gone = rw (send_event, gone) refl

-- What a call takes is determined by its arguments.
same_taken :
    {i j : ℕ} (w : World) {w' w'' : World} {o o' : Option EventData}
    → i ≡ j
    → next_event i w ≡ some (o, w')
    → next_event j w ≡ some (o', w'')
    → ◌≡◌ {A = Option EventData × World} (o', w'') (o, w')
same_taken w e p q = cc

module _ (hm hs m : ℕ) where
  get-MainAt :
      (kept : Option (List EventData)) (peer : Option ℕ) (q : List EventData) (w : World)
      → MainAt hm hs m kept peer q w
      → get (w.handle_data hm) w.objects
        ≡ some (record { not_send = kept; events = q; peer = peer })
  unfolding get
  get-MainAt kept peer q w (nonzero, handle, there) = rw handle (ground (arith, there, nonzero))

  send-MainAt :
      (e : EventData) (kept : Option (List EventData)) (peer : Option ℕ) (q : List EventData)
      (w : World)
      → MainAt hm hs m kept peer q w
      → MainAt hm hs m kept peer (q ++ e ∷ []) (send_event hm e w)
        × ((send_event hm e w).handle_data hs ≡ w.handle_data hs)
  unfolding send_event uv_async_send store
  send-MainAt e kept peer q w h =
      rw (send_event, get-MainAt kept peer q w h)
        (rw h.1 (
          (
            h.0,
            refl,
            find-assign_same m (record { not_send = kept; events = q ++ e ∷ []; peer = peer }) _
                w.objects.pool h.2,
          ),
          refl,
        ))

  -- A message to the main side goes to the end of its queue, whatever the stage.
  pub send_event-WorldOk :
      (st : Stage) (s : ℕ) (e : EventData) (q : List EventData) (w : World)
      → WorldOk hm hs m st s q w
      → WorldOk hm hs m st s (q ++ e ∷ []) (send_event hm e w)
  send_event-WorldOk single s e q w (p, h) = (p, (send-MainAt e (some p) none q w h).0)
  send_event-WorldOk paired s e q w (a, u, h) =
      (a, u, rw (send-main m s hm hs h e) (wake m s hm hs (store_main m s hm hs h _) hm))
  send_event-WorldOk alone s e q w (h, gone) =
      let (h', same) = send-MainAt e none (some hs) q w h in (h', same ∙ gone)

  -- _send of the thread.
  pub push_event-paired :
      (s : ℕ) (e : EventData) (q : List EventData) (w : World)
      → WorldOk hm hs m paired s q w
      → (w' : World) × (push_event s e w ≡ some w') × WorldOk hm hs m paired s (q ++ e ∷ []) w'
  unfolding step
  push_event-paired s e q w (a, u, h) =
      let (w', stepped, h') = step-Refines m s hm hs (sub_sends e) w (bound a q u) h in
      (w', stepped_world (push_event s e w) w' stepped, (a, u, h'))

  -- _send of the main side, which changes nothing that waits for the main side.
  pub push_event-main :
      (st : Stage) (s : ℕ) (e : EventData) (q : List EventData) (w : World)
      → WorldOk hm hs m st s q w
      → (w' : World) × (push_event m e w ≡ some w') × WorldOk hm hs m st s q w'
  unfolding push_event push_not_send step store
  push_event-main single s e q w (p, h) =
      let kept : RecvEventData = record {
        not_send = some (p ++ e ∷ []);
        events = q;
        peer = none;
      } in
      (
        store m kept w,
        rw (push_event, h.2) (rw (push_not_send, h.2) refl),
        (p ++ e ∷ [], (h.0, h.1, find-assign_same m kept _ w.objects.pool h.2)),
      )
  push_event-main paired s e q w (a, u, h) =
      let (w', stepped, h') = step-Refines m s hm hs (main_sends e) w (bound a q u) h in
      (w', stepped_world (push_event m e w) w' stepped, (a ++ e ∷ [], u, h'))
  push_event-main alone s e q w (h, gone) =
      (w, rw (push_event, h.2) (ap some (send_event_gone hs e w gone)), (h, gone))

  -- free_recv_event_from of the thread's endpoint.
  pub free-alone :
      (s : ℕ) (q : List EventData) (w : World)
      → WorldOk hm hs m paired s q w
      → WorldOk hm hs m alone s q (free_recv_event_from hs w)
  unfolding free_recv_event_from rm
  free-alone s q w (a, u, h) =
      let other : hs ≢ hm =
        λ e. h.apart_ids (sym h.main_handle ∙ ap w.handle_data (sym e) ∙ h.sub_handle) in
      rw (free_recv_event_from, get-sub m s hm hs h)
        (rw h.sub_handle (elim (Option-cases (find s w.objects.pool)) [
          | inl gone ↦ absurd (ground (arith, h.sub_end))
          | inr (r, there) ↦
              rw (rm, there)
                (
                  (
                    h.main_not_zero,
                    ground (arith, other, h.main_handle),
                    ground (arith, find-erase s m w.objects.pool, h.main_end, h.apart_ids),
                  ),
                  ground arith,
                )
        ]))

  -- What a round of the handler of main_event makes of the queue `q`.
  abbrev pub Took : Stage → ℕ → List EventData → Option EventData × World → Type 0
  Took st s q (none, w) = WorldOk hm hs m st s q w × (q ≡ [])
  Took st s q (some e, w) = (q' : List EventData) × WorldOk hm hs m st s q' w × (q ≡ e ∷ q')

  -- A round on the main endpoint where there is no peer behind it.
  take-MainAt :
      (kept : Option (List EventData)) (peer : Option ℕ) (e : EventData) (q : List EventData)
      (w : World)
      → MainAt hm hs m kept peer (e ∷ q) w
      → (w' : World) × (next_event m w ≡ some (some e, w'))
        × MainAt hm hs m kept peer q w'
        × (w'.handle_data hs ≡ w.handle_data hs)
  unfolding next_event store
  take-MainAt kept peer e q w h =
      let left : RecvEventData = record { not_send = kept; events = q; peer = peer } in
      (
        store m left w,
        rw (next_event, h.2) refl,
        (h.0, h.1, find-assign_same m left _ w.objects.pool h.2),
        refl,
      )

  pub next_event-WorldOk :
      (st : Stage) (s : ℕ) (o : Option EventData) (q : List EventData) (w w' : World)
      → WorldOk hm hs m st s q w
      → next_event (w.handle_data hm) w ≡ some (o, w')
      → Took st s q (o, w')
  unfolding next_event step
  next_event-WorldOk single s o [] w w' (p, h) taken =
      let done : next_event m w ≡ some (none, w) = rw (next_event, h.2) refl in
      subst (Took single s []) (same_taken w h.1 taken done) ((p, h), refl)
  next_event-WorldOk single s o (e ∷ q) w w' (p, h) taken =
      let (w'', done, h', keeps) = take-MainAt (some p) none e q w h in
      subst (Took single s (e ∷ q)) (same_taken w h.1 taken done) (q, (p, h'), refl)
  next_event-WorldOk paired s o [] w w' (a, u, h) taken =
      let (w'', done, h') = step-Refines m s hm hs main_takes w (bound a [] u) h in
      subst (Took paired s []) (same_taken w h.main_handle taken done) ((a, u, h'), refl)
  next_event-WorldOk paired s o (e ∷ q) w w' (a, u, h) taken =
      let (w'', done, h') = step-Refines m s hm hs main_takes w (bound a (e ∷ q) u) h in
      subst (Took paired s (e ∷ q)) (same_taken w h.main_handle taken done) (q, (a, u, h'), refl)
  next_event-WorldOk alone s o [] w w' (h, gone) taken =
      let done : next_event m w ≡ some (none, w) = rw (next_event, h.2) refl in
      subst (Took alone s []) (same_taken w h.1 taken done) ((h, gone), refl)
  next_event-WorldOk alone s o (e ∷ q) w w' (h, gone) taken =
      let (w'', done, h', keeps) = take-MainAt none (some hs) e q w h in
      subst (Took alone s (e ∷ q)) (same_taken w h.1 taken done) (q, (h', keeps ∙ gone), refl)
