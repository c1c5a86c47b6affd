-- ===== src/Life/Table.antt =====
-- The object table of src/data.h while a thread lives: its ids behind each call.
use threadjs_lib.Base.{
  ℕ, ◌≡◌, subst, List, [], ◌∷◌, Option, none, some, ◌>>=◌, Option-cases, inl, inr,
}
use threadjs_lib.StdMap.{find, erase-AllKeys, assign-AllKeys}
use threadjs_lib.ObjectMap.{get, rm}
use threadjs_lib.ObjectMap.Handles
use threadjs_lib.Events.{
  EventData, RecvEventData, World, load, store, uv_async_send, send_event, push_event,
  push_not_send, next_event, free_recv_event_from, set_peer, set_peers, flush, move_all,
  swap_not_send_peer, bind_peer_event,
}

abbrev pub TableOk : World → Type 0
TableOk w = Handles.IsValid w.objects

pub store-TableOk : (id : ℕ) (r : RecvEventData) (w : World) → TableOk w → TableOk (store id r w)
unfolding store
store-TableOk id r w h = assign-AllKeys _ id r w.objects.pool h

pub send_event-TableOk :
    (k : ℕ) (e : EventData) (w : World) → TableOk w → TableOk (send_event k e w)
unfolding send_event uv_async_send
send_event-TableOk k e w h = elim (Option-cases (get (w.handle_data k) w.objects)) [
  | inl gone ↦ rw (send_event, gone) h
  | inr (r, there) ↦ rw (send_event, there) (store-TableOk _ _ w h)
]

-- The same for a call that may fail.
abbrev SomeOk : Option World → Type 0
SomeOk none = Unit {0}
SomeOk (some w) = TableOk w

push_event-SomeOk : (id : ℕ) (e : EventData) (w : World) → TableOk w → SomeOk (push_event id e w)
unfolding push_event push_not_send
push_event-SomeOk id e w h = elim (Option-cases (load id w)) [
  | inl gone ↦ rw (push_event, gone) tt
  | inr (r, there) ↦ elim (Option-cases r.peer) [
    | inr (k, peer) ↦ rw (push_event, there) (rw peer (send_event-TableOk k e w h))
    | inl lone ↦ elim (Option-cases r.not_send) [
      | inl lost ↦ rw (push_event, there) (rw lone (rw (push_not_send, there) (rw lost tt)))
      | inr (q, kept) ↦
          rw (push_event, there)
            (rw lone (rw (push_not_send, there) (rw kept (store-TableOk id _ w h))))
    ]
  ]
]

pub push_event-TableOk :
    (id : ℕ) (e : EventData) (w w' : World) → push_event id e w ≡ some w' → TableOk w → TableOk w'
push_event-TableOk id e w w' p h = subst SomeOk p (push_event-SomeOk id e w h)

abbrev TakenOk : Option (Option EventData × World) → Type 0
TakenOk none = Unit {0}
TakenOk (some (o, w)) = TableOk w

next_event-TakenOk : (id : ℕ) (w : World) → TableOk w → TakenOk (next_event id w)
unfolding next_event
next_event-TakenOk id w h = elim (Option-cases (load id w)) [
  | inl gone ↦ rw (next_event, gone) tt
  | inr (r, there) ↦ rw (next_event, there) (waiting r r.events)
]
  where
    waiting :
        (r : RecvEventData) (es : List EventData)
        → TakenOk (elim es [
          | [] ↦ some (none, w)
          | e ∷ rest ↦ some (some e, store id (record r { events = rest }) w)
        ])
    waiting r [] = h
    waiting r (e ∷ rest) = store-TableOk id _ w h

pub next_event-TableOk :
    (id : ℕ) (o : Option EventData) (w w' : World)
    → next_event id w ≡ some (o, w')
    → TableOk w
    → TableOk w'
next_event-TableOk id o w w' p h = subst TakenOk p (next_event-TakenOk id w h)

pub free-TableOk : (k : ℕ) (w : World) → TableOk w → TableOk (free_recv_event_from k w)
unfolding free_recv_event_from rm
free-TableOk k w h = elim (Option-cases (get (w.handle_data k) w.objects)) [
  | inl gone ↦ rw (free_recv_event_from, gone) h
  | inr (r, there) ↦
      rw (free_recv_event_from, there)
        (elim (Option-cases (find (w.handle_data k) w.objects.pool)) [
          | inl lost ↦ rw (rm, lost) h
          | inr (r, found) ↦ rw (rm, found) (erase-AllKeys _ (w.handle_data k) w.objects.pool h)
        ])
]

bind-SomeOk :
    (o : Option World) (f : World → Option World)
    → SomeOk o
    → ((w : World) → TableOk w → SomeOk (f w))
    → SomeOk (o >>= f)
bind-SomeOk none f h k = tt
bind-SomeOk (some w) f h k = k w h

set_peer-SomeOk : (id k : ℕ) (w : World) → TableOk w → SomeOk (set_peer id k w)
unfolding set_peer
set_peer-SomeOk id k w h = elim (Option-cases (load id w)) [
  | inl gone ↦ rw (set_peer, gone) tt
  | inr (r, there) ↦ rw (set_peer, there) (store-TableOk id _ w h)
]

flush-SomeOk :
    (id : ℕ) (q : List EventData) (k : ℕ) (w : World) → TableOk w → SomeOk (flush id q k w)
unfolding flush uv_async_send
flush-SomeOk id q k w h = elim (Option-cases (get (w.handle_data k) w.objects)) [
  | inl gone ↦ rw (flush, gone) h
  | inr (p, there) ↦
      rw (flush, there)
        (stored (store (w.handle_data k) (record p { events = move_all q p.events }) w)
          (store-TableOk _ _ w h))
]
  where
    stored :
        (w₁ : World)
        → TableOk w₁
        → SomeOk (
            load id (uv_async_send k w₁) >>= λ r.
            some (store id (record r { not_send = none }) (uv_async_send k w₁)))
    stored w₁ h₁ = elim (Option-cases (load id w₁)) [
      | inl lost ↦ rw lost tt
      | inr (r, found) ↦ rw found (store-TableOk id _ (uv_async_send k w₁) h₁)
    ]

swap-SomeOk : (id : ℕ) (w : World) → TableOk w → SomeOk (swap_not_send_peer id w)
unfolding swap_not_send_peer
swap-SomeOk id w h = elim (Option-cases (load id w)) [
  | inl gone ↦ rw (swap_not_send_peer, gone) tt
  | inr (r, there) ↦ rw (swap_not_send_peer, there) (swapped r.not_send r.peer)
]
  where
    swapped :
        (q : Option (List EventData)) (p : Option ℕ)
        → SomeOk
            (elim q [ none ↦ some w | some q ↦ elim p [ none ↦ some w | some k ↦ flush id q k w ] ])
    swapped none p = h
    swapped (some q) none = h
    swapped (some q) (some k) = flush-SomeOk id q k w h

pub bind_peer_event-TableOk :
    (hm hs : ℕ) (w w' : World) → bind_peer_event hm hs w ≡ some w' → TableOk w → TableOk w'
unfolding bind_peer_event set_peers
bind_peer_event-TableOk hm hs w w' p h = subst SomeOk p (
    bind-SomeOk (set_peers hm hs w) _
      (bind-SomeOk (set_peer (w.handle_data hs) hm w) _ (set_peer-SomeOk _ hm w h)
        (set_peer-SomeOk (w.handle_data hm) hs))
      (swap-SomeOk (w.handle_data hm)))
