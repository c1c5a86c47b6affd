-- ===== src/Process/Callers.antt =====
-- src/main.cc: what the calls of the main side and the handlers of its loop leave as it was.
use threadjs_lib.Base.{
  ℕ, ◌≡◌, ◌≢◌, inl, inr, refl, sym, subst, ◌∙◌, ap, Bool, true, false, List, [], ◌∷◌, ◌++◌, Option,
  none, some, arith, if◌then◌else◌, Bool-cases, Option-cases,
}
use threadjs_lib.StdMap.{find, find-erase_same}
use threadjs_lib.ObjectMap.{get, rm}
use threadjs_lib.Events.{
  EventData, World, load, push_event, next_event, uv_async_send, free_recv_event_from,
}
use threadjs_lib.Life.{
  deleted, Signal, quiet, signalled, handled, ReqData, Thread, next, fault, or_fault, is_deleted,
  is_closed, stop, use_time, send, Main, resting, checked,
}
use threadjs_lib.Life.Calls.{
  call_stop, call_use_time, call_send, no_clock, dispatch_call, call_step, receive,
  recv_delete_event,
}
use threadjs_lib.Life.Inv.{stage, IsValid}
use threadjs_lib.Life.Effects.{OnNext, if-OnNext, check_id-OnNext}
use threadjs_lib.Life.System.{Step, sub, checks, calls, receives, deletes, ticks}
use threadjs_lib.Process.Frame.{
  Own-main, Frame, Frame-refl, wake-Frame, free-Frame, SomeFrame, push_event-SomeFrame, TakenFrame,
  next_event-TakenFrame,
}
use threadjs_lib.Process.Local.{Freed, Local, Local-world, main_handle, handled-Own, main-PeerOwn}
use threadjs_lib.Process.Turns.{sub_step-Local}

module _ (hm hs m : ℕ) where
  push_event-gone : (x : EventData) (w : World) → load m w ≡ none → push_event m x w ≡ none
  unfolding push_event
  push_event-gone x w gone = rw (push_event, gone) refl

  -- What a message of the main side makes of the world: del_event is open still.
  abbrev Pushed : Thread → Option World → Type 0
  Pushed s none = Unit {0}
  Pushed s (some w) = Frame hm hs m s.sub_end s.world w × (is_closed s.del_event ≡ false)

  push_main-Pushed :
      (x : EventData) (s : Thread)
      → IsValid hm hs m s
      → Freed hm hs m s
      → Pushed s (push_event m x s.world)
  push_main-Pushed x s h gone = elim (Bool-cases (is_closed s.del_event)) [
    | inl closed ↦ rw (push_event-gone x s.world (gone closed)) tt
    | inr open' ↦
        pushed (push_event m x s.world)
          (push_event-SomeFrame hm hs m s.sub_end m x s.world (Own-main hm hs m s.sub_end m refl)
            (main-PeerOwn hm hs m (stage s.phase) s.sub_end h.queue s.world (h.world_ok open')))
          open'
  ]
    where
      pushed :
          (o : Option World)
          → SomeFrame hm hs m s.sub_end s.world o
          → is_closed s.del_event ≡ false
          → Pushed s o
      pushed none f o = tt
      pushed (some w) f o = (f, o)

  main_Local :
      (s : Thread) (x : Main) (r : Option ReqData) (ts : List ℕ) (w : World)
      → Frame hm hs m s.sub_end s.world w
      → (Freed hm hs m s → is_closed s.del_event ≡ true → load m w ≡ none)
      → Local hm hs m s (record s { main = x; req = r; times = ts; world = w })
  main_Local s x r ts w f gone =
      Local-world hm hs m s (record s { main = x; req = r; times = ts; world = w }) refl f gone refl
        (refl, refl, refl)

  stop_Local :
      (b : Bool) (r : ReqData) (s : Thread)
      → OnNext (Local hm hs m s) (call_stop hs m b r (record s { main = resting; req = some r }))
  unfolding call_stop uv_async_send
  stop_Local b r s =
      let still : (q : ReqData) → Local hm hs m s (record s { main = resting; req = some q }) = λ q.
        main_Local s resting (some q) s.times s.world (Frame-refl hm hs m s.sub_end s.world)
          (λ z. z) in
      if-OnNext (Local hm hs m s) (if r.sub_loop then is_deleted s.loop else false) fault _ tt (
        if-OnNext (Local hm hs m s) r.sub_event _ _
          (if-OnNext (Local hm hs m s) (is_deleted s.sub_handle) fault _ tt (
            main_Local s resting _ s.times (uv_async_send hs s.world)
              (wake-Frame hm hs m s.sub_end hs s.world) (λ z. z)))
          (still _))

  call_step-Local :
      (x : Main) (r : Option ReqData) (s : Thread)
      → ((e : EventData) → Pushed s (push_event m e s.world))
      → OnNext (Local hm hs m s) (call_step hs m (record s { main = x; req = r }))
  unfolding call_step dispatch_call call_use_time call_send
  call_step-Local resting r s k = tt
  call_step-Local (checked (send e)) r s k =
      if-OnNext (Local hm hs m s) (is_deleted s.sub_handle) fault _ tt
        (pushed (push_event m e s.world) (k e))
    where
      pushed :
          (o : Option World)
          → Pushed s o
          → OnNext
              (Local hm hs m s)
              (or_fault o (λ w. next (record s { main = resting; req = r; world = w })))
      pushed none f = tt
      pushed (some w) (f, open') = main_Local s resting r s.times w f (λ z closed. cc)
  call_step-Local (checked (stop b)) none s k = tt
  call_step-Local (checked use_time) none s k = tt
  call_step-Local (checked (stop b)) (some r) s k = stop_Local b r s
  call_step-Local (checked use_time) (some r) s k =
      if-OnNext (Local hm hs m s) (no_clock r s.loop) fault _ tt
        (main_Local s resting (some r) _ s.world (Frame-refl hm hs m s.sub_end s.world) (λ z. z))

  -- The handlers run while the main handle is there.
  receive-Local : (s : Thread) → IsValid hm hs m s → OnNext (Local hm hs m s) (receive hm s)
  unfolding receive
  receive-Local s h = elim (Bool-cases (is_deleted s.main_handle)) [
    | inl gone ↦ rw (receive, gone) tt
    | inr there ↦
        rw (receive, there)
          (elim (Option-cases (get (s.world.handle_data hm) s.world.objects)) [
            | inl none' ↦
                rw none' (same s.received s.world (Frame-refl hm hs m s.sub_end s.world) (λ z. z))
            | inr (r, got) ↦ rw got (
                took (sym h.main_ok ∙ there) (next_event (s.world.handle_data hm) s.world) (
                  next_event-TakenFrame hm hs m s.sub_end _ s.world (
                    handled-Own hm hs m (stage s.phase) s.sub_end h.queue s.world
                      (h.world_ok (sym h.main_ok ∙ there)))))
          ])
  ]
    where
      same :
          (es : List EventData) (w : World)
          → Frame hm hs m s.sub_end s.world w
          → (Freed hm hs m s → is_closed s.del_event ≡ true → load m w ≡ none)
          → Local hm hs m s (record s { received = es; world = w })
      same es w f gone =
          Local-world hm hs m s (record s { received = es; world = w }) refl f gone refl
            (refl, refl, refl)

      took :
          is_closed s.del_event ≡ false
          → (o : Option (Option EventData × World)) → TakenFrame hm hs m s.sub_end s.world o
          → OnNext (Local hm hs m s) (elim o [
            | none ↦ fault
            | some (none, w) ↦ next s
            | some (some e, w) ↦ next (record s { world = w; received = s.received ++ e ∷ [] })
          ])
      took open' none f = tt
      took open' (some (none, w)) f =
          same s.received s.world (Frame-refl hm hs m s.sub_end s.world) (λ z. z)
      took open' (some (some e, w)) f = same (s.received ++ e ∷ []) w f (λ z closed. cc)

  -- Afterwards the main endpoint is gone.
  free-gone : (w : World) → m ≢ 0 → w.handle_data hm ≡ m → load m (free_recv_event_from hm w) ≡ none
  unfolding free_recv_event_from rm get
  free-gone w nonzero handle = elim (Option-cases (get (w.handle_data hm) w.objects)) [
    | inl lost ↦ rw (free_recv_event_from, lost) (ground (arith, lost, handle, nonzero))
    | inr (r, there) ↦
        rw (free_recv_event_from, there)
          (rw handle (elim (Option-cases (find m w.objects.pool)) [
            | inl lost ↦ rw (rm, lost) lost
            | inr (r', found) ↦ rw (rm, found) (find-erase_same m w.objects.pool)
          ]))
  ]

  recv_delete_event-Local :
      (s : Thread) → IsValid hm hs m s → OnNext (Local hm hs m s) (recv_delete_event hm s)
  unfolding recv_delete_event
  recv_delete_event-Local s h = signal s.del_event refl
    where
      signal :
          (d : Signal)
          → s.del_event ≡ d
          → OnNext (Local hm hs m s) (recv_delete_event hm (record s { del_event = d }))
      signal quiet e = tt
      signal handled e = tt
      signal signalled e =
          rw (recv_delete_event, h.named)
            (let (nonzero, handle) =
                main_handle hm hs m (stage s.phase) s.sub_end h.queue s.world
                  (h.world_ok (ap is_closed e)) in
              Local-world hm hs m s
                (record s {
                  main_handle = deleted;
                  del_event = handled;
                  world = free_recv_event_from hm s.world;
                })
                refl
                (free-Frame hm hs m s.sub_end hm s.world (λ k n n' q. n (sym q))
                  (Own-main hm hs m s.sub_end _ handle))
                (λ z closed. free-gone s.world nonzero handle) refl (refl, refl, refl))

module _ (hm hs m : ℕ) (other : hm ≢ hs) where
  -- A step of a thread or of its maker leaves the other threads' part of what is shared.
  pub Step-Local :
      (s s' : Thread) → Step hm hs m s s' → IsValid hm hs m s → Freed hm hs m s → Local hm hs m s s'
  Step-Local s s' (sub c e) h gone =
      subst (OnNext (Local hm hs m s)) e (sub_step-Local hm hs m other c s h)
  Step-Local s s' (checks c e) h gone = subst (OnNext (Local hm hs m s)) e (
      check_id-OnNext (Local hm hs m s) c s.main s (λ y.
        main_Local hm hs m s y s.req s.times s.world (Frame-refl hm hs m s.sub_end s.world)
          (λ z. z)))
  Step-Local s s' (calls e) h gone =
      subst (OnNext (Local hm hs m s)) e
        (call_step-Local hm hs m s.main s.req s (λ x. push_main-Pushed hm hs m x s h gone))
  Step-Local s s' (receives e) h gone =
      subst (OnNext (Local hm hs m s)) e (receive-Local hm hs m s h)
  Step-Local s s' (deletes e) h gone =
      subst (OnNext (Local hm hs m s)) e (recv_delete_event-Local hm hs m s h)
  Step-Local s s' (ticks t le) h gone =
      Local-world hm hs m s (record s { now = t }) refl (Frame-refl hm hs m s.sub_end s.world)
        (λ z. z) refl (refl, refl, refl)
