-- ===== src/Events/Pending.antt =====
-- src/data.h, hasEvent and peerHasEvent: whether a message waits.
use threadjs_lib.Base.{ℕ, ◌≡◌, refl, List}
use threadjs_lib.Events.{EventData, RecvEventData, World, has_own_event, has_event, peer_has_event}
use threadjs_lib.Events.Channel.{Holds, Represents, bound, main_of, sub_of, get-main, get-sub}

module _ (m s hm hs : ℕ) (w : World) where
  has_event-Holds :
      (main sub : RecvEventData)
      → Holds m s hm hs w main sub
      → (has_event hm w ≡ has_own_event main) × (has_event hs w ≡ has_own_event sub)
  unfolding has_event
  has_event-Holds main sub h =
      (rw (has_event, get-main m s hm hs h) refl, rw (has_event, get-sub m s hm hs h) refl)

  -- Behind the bind each side sees by its peer whether a message waits on the other side.
  peer_has_event-Represents :
      (a b u : List EventData)
      → Represents m s hm hs w (bound a b u)
      → (peer_has_event (main_of m s hm hs (bound a b u)) w
          ≡ has_own_event (sub_of m s hm hs (bound a b u)))
        × (peer_has_event (sub_of m s hm hs (bound a b u)) w
            ≡ has_own_event (main_of m s hm hs (bound a b u)))
  unfolding peer_has_event
  peer_has_event-Represents a b u h =
      let (to_main, to_sub) = has_event-Holds _ _ h in (to_sub, to_main)
