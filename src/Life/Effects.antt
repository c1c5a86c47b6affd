-- ===== src/Life/Effects.antt =====
-- src/main.cc: what the calls of the main side can change at all.
use threadjs_lib.Base.{
  ℕ, ◌%◌, ◌^◌, ◌≡◌, refl, Bool, true, false, List, [], ◌∷◌, ◌++◌, Option, none, some, Option-cases,
  Bool-cases, inl, inr, if◌then◌else◌,
}
use threadjs_lib.IdContainer.{notfree_object}
use threadjs_lib.Events.{
  EventData, next_event, free_recv_event_from, push_event, uv_async_send, World,
}
use threadjs_lib.ObjectMap.{get}
use threadjs_lib.Life.{
  Memory, deleted, Signal, quiet, signalled, handled, is_deleted, ReqData, Thread, Outcome, next,
  fault, Call, stop, use_time, send, Main, resting, checked,
}
use threadjs_lib.Life.Calls.{
  call_stop, call_use_time, call_send, no_clock, used_time, dispatch_call, check_id, call_step,
  receive, recv_delete_event,
}

-- `P` holds of what comes next.
abbrev pub OnNext : (Thread → Type 0) → Outcome → Type 0
OnNext P (next s) = P s
OnNext P _ = Unit {0}

module _ (P : Thread → Type 0) where
  pub if-OnNext :
      (b : Bool) (o o' : Outcome) → OnNext P o → OnNext P o' → OnNext P (if b then o else o')
  if-OnNext true o o' h h' = h
  if-OnNext false o o' h h' = h'

  pub check_id-OnNext :
      (c : Call) (x : Main) (s : Thread)
      → ((y : Main) → P (record s { main = y }))
      → OnNext P (check_id c (record s { main = x }))
  unfolding check_id
  check_id-OnNext c (checked d) s h = tt
  check_id-OnNext c resting s h =
      if-OnNext (notfree_object s.object s.ids) _ _ (h (checked c)) (h resting)

module _ (hs m : ℕ) (P : Thread → Type 0) where
  -- A call changes the endpoints and what _use_time returned, or stops the thread.
  pub call_step-OnNext :
      (x : Main) (r : Option ReqData) (s : Thread)
      → ((ts : List ℕ) (w : World)
          → P (record s { main = resting; req = r; times = ts; world = w }))
      → ((q : ReqData) (b : Bool) (w : World)
          → r ≡ some q
          → P (record s {
            main = resting;
            req = some (record q { running = false; terminated = b });
            world = w;
          }))
      → OnNext P (call_step hs m (record s { main = x; req = r }))
  unfolding call_step dispatch_call call_stop call_use_time call_send
  call_step-OnNext resting r s h h' = tt
  call_step-OnNext (checked (send e)) r s h h' = elim (Bool-cases (is_deleted s.sub_handle)) [
    | inl gone ↦ rw gone tt
    | inr there ↦ rw there (elim (Option-cases (push_event m e s.world)) [
      | inl lost ↦ rw lost tt
      | inr (w, pushed) ↦ rw pushed (h s.times w)
    ])
  ]
  call_step-OnNext (checked (stop b)) none s h h' = tt
  call_step-OnNext (checked use_time) none s h h' = tt
  call_step-OnNext (checked (stop b)) (some r) s h h' =
      let t : Bool = if r.sub_loop then (if b then true else r.terminated) else r.terminated in
      let s₁ : Thread = record s {
        main = resting;
        req = some (record r { running = false; terminated = t });
      } in
      let s₂ : Thread = record s₁ { world = uv_async_send hs s.world } in
      let woken : Outcome = if is_deleted s.sub_handle then fault else next s₂ in
      if-OnNext P (if r.sub_loop then is_deleted s.loop else false) fault
        (if r.sub_event then woken else next s₁) tt
        (if-OnNext P r.sub_event woken (next s₁)
          (if-OnNext P (is_deleted s.sub_handle) fault (next s₂) tt
            (h' r t (uv_async_send hs s.world) refl))
          (h' r t s.world refl))
  call_step-OnNext (checked use_time) (some r) s h h' =
      if-OnNext P (no_clock r s.loop) fault _ tt
        (h (s.times ++ (used_time s.now r % 2 ^ 32) ∷ []) s.world)

module _ (hm : ℕ) (P : Thread → Type 0) where
  pub receive-OnNext :
      (s : Thread)
      → ((es : List EventData) (w : World) → P (record s { received = es; world = w }))
      → OnNext P (receive hm s)
  unfolding receive
  receive-OnNext s h = elim (Bool-cases (is_deleted s.main_handle)) [
    | inl gone ↦ rw (receive, gone) tt
    | inr there ↦
        rw (receive, there)
          (elim (Option-cases (get (s.world.handle_data hm) s.world.objects)) [
            | inl none' ↦ rw none' (h s.received s.world)
            | inr (r, got) ↦
                rw got (elim (Option-cases (next_event (s.world.handle_data hm) s.world)) [
                  | inl lost ↦ rw lost tt
                  | inr ((o, w), taken) ↦ rw taken (took o w)
                ])
          ])
  ]
    where
      took :
          (o : Option EventData) (w : World)
          → OnNext P (
              elim o as (λ x. World → Outcome) [
                | none ↦ λ w'. next s
                | some e ↦ λ w'. next (record s { world = w'; received = s.received ++ e ∷ [] })
              ]
                w)
      took none w = h s.received s.world
      took (some e) w = h (s.received ++ e ∷ []) w

  pub recv_delete_event-OnNext :
      (d : Signal) (s : Thread)
      → ((x : Memory) (d : Signal) (w : World)
          → P (record s { main_handle = x; del_event = d; world = w }))
      → OnNext P (recv_delete_event hm (record s { del_event = d }))
  unfolding recv_delete_event
  recv_delete_event-OnNext quiet s h = tt
  recv_delete_event-OnNext handled s h = tt
  recv_delete_event-OnNext signalled s h = elim (Option-cases (get s.del_data s.handles)) [
    | inl gone ↦ rw (recv_delete_event, gone) (h s.main_handle handled s.world)
    | inr (k, there) ↦
        rw (recv_delete_event, there) (h deleted handled (free_recv_event_from k s.world))
  ]
