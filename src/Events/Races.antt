-- ===== src/Events/Races.antt =====
-- src/data.h and src/main.cc: what the lock of a queue does not cover. The main side's pushEvent
-- reads `peer` without a lock while the sub side runs bind_peer_event.
use threadjs_lib.Base.{ℕ, ◌≡◌, refl, List, [], ◌∷◌, none, some, ◌>>=◌}
use threadjs_lib.Events.{
  EventData, RecvEventData, World, load, bind_peer_event, push_event, push_not_send, set_peers,
  swap_not_send_peer,
}
use threadjs_lib.Events.Channel.{
  apart, bound, step, Represents, binds-Refines, stepped_world, set_peers-Holds, swap-Holds,
  push-Holds,
}

module _ (m s hm hs : ℕ) where
  -- A push that falls between the assignment of the peers and the flush goes past all that was
  -- sent before it: the sub side gets the new message first.
  pub push_overtakes :
      (w : World) (p u : List EventData) (e : EventData)
      → Represents m s hm hs w (apart p u)
      → (w' : World) × ((set_peers hm hs w >>= push_event m e >>= swap_not_send_peer m) ≡ some w')
        × Represents m s hm hs w' (bound (e ∷ p) [] u)
  push_overtakes w p u e r =
      let (w₁, set, h₁) = set_peers-Holds m s hm hs w _ _ r in
      let (w₂, pushed, h₂) = push-Holds m s hm hs w₁ e (some p) [] _ h₁ in
      let (w₃, swapped, h₃) = swap-Holds m s hm hs w₂ p [] _ h₂ in
      (w₃, rw (set, pushed, swapped), h₃)

  -- A push that finds no peer before the bind, and goes on to the queue after it, works on a queue
  -- that the bind has deleted.
  pub push_late :
      (w : World) (p u : List EventData) (e : EventData)
      → Represents m s hm hs w (apart p u)
      → (r : RecvEventData) × (load m w ≡ some r)
        × (r.peer ≡ none)
        × (w' : World) × (bind_peer_event hm hs w ≡ some w')
        × (push_not_send m e w' ≡ none)
  unfolding step push_not_send
  push_late w p u e r =
      let (w', stepped, h) = binds-Refines m s hm hs w (apart p u) r in
      (_, r.main_end, refl, w', stepped_world (bind_peer_event hm hs w) w' stepped, rw h.main_end)
