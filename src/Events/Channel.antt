-- ===== src/Events/Channel.antt =====
-- src/data.h, RecvEventData: what the two endpoints of a thread promise, as two queues. The steps
-- are the calls of both sides in any order.
use threadjs_lib.Base.{
  ◌∙◌, subst, ℕ, ◌≡◌, ◌≢◌, List, [], ◌∷◌, ◌++◌, Option, none, some, arith, ◌>>=◌, append_assoc,
  append-nil,
}
use threadjs_lib.StdMap.{find-assign}
use threadjs_lib.ObjectMap.{get}
use threadjs_lib.Events.{
  EventData, RecvEventData, World, load, store, uv_async_send, send_event, push_event,
  push_not_send, move_all, flush, swap_not_send_peer, set_peers, bind_peer_event, next_event,
}

-- Before the bind each side keeps what it sends; afterwards there is a queue each way, and what the
-- sub side sent too early stays where it is.
pub data Link : Type 0 where
  apart : (pending early : List EventData) → Link
  bound : (to_sub to_main early : List EventData) → Link

pub data Op : Type 0 where
  main_sends sub_sends : EventData → Op
  binds sub_takes main_takes : Op

-- The specification of a step.
abbrev pub next_link : Op → Link → Link
next_link (main_sends e) (apart p u) = apart (p ++ e ∷ []) u
next_link (main_sends e) (bound a b u) = bound (a ++ e ∷ []) b u
next_link (sub_sends e) (apart p u) = apart p (u ++ e ∷ [])
next_link (sub_sends e) (bound a b u) = bound a (b ++ e ∷ []) u
next_link binds (apart p u) = bound p [] u
next_link binds (bound a b u) = bound a b u
next_link sub_takes (bound (e ∷ a) b u) = bound a b u
next_link main_takes (bound a (e ∷ b) u) = bound a b u
next_link sub_takes l = l
next_link main_takes l = l

-- The event that a step takes.
abbrev pub taken : Op → Link → Option EventData
taken sub_takes (bound (e ∷ a) b u) = some e
taken main_takes (bound a (e ∷ b) u) = some e
taken _ _ = none

-- A call that gives no event.
abbrev with_none : World → Option (Option EventData × World)
with_none w = some (none, w)

pub stepped_world : (o : Option World) (w : World) → (o >>= with_none) ≡ with_none w → o ≡ some w
stepped_world none w e = cc
stepped_world (some w') w e = cc

-- The main endpoint is `m` behind the handle `hm`, the sub endpoint `s` behind `hs`.
module _ (m s hm hs : ℕ) where
  abbrev pub main_of : Link → RecvEventData
  main_of (apart p u) = record { not_send = some p; events = []; peer = none }
  main_of (bound a b u) = record { not_send = none; events = b; peer = some hs }

  abbrev pub sub_of : Link → RecvEventData
  sub_of (apart p u) = record { not_send = some u; events = []; peer = none }
  sub_of (bound a b u) = record { not_send = some u; events = a; peer = some hm }

  -- The two endpoints stand in the table, apart from each other and behind their handles.
  pub record Holds (w : World) (main sub : RecvEventData) : Type 0 where
    pub apart_ids : m ≢ s
    pub main_not_zero : m ≢ 0
    pub sub_not_zero : s ≢ 0
    pub main_handle : w.handle_data hm ≡ m
    pub sub_handle : w.handle_data hs ≡ s
    pub main_end : load m w ≡ some main
    pub sub_end : load s w ≡ some sub

  abbrev pub Represents : World → Link → Type 0
  Represents w l = Holds w (main_of l) (sub_of l)

  -- The code of a step: the event that it takes, and the new state.
  unfoldable pub step : Op → World → Option (Option EventData × World)
  step (main_sends e) w = push_event m e w >>= λ w'. some (none, w')
  step (sub_sends e) w = push_event s e w >>= λ w'. some (none, w')
  step binds w = bind_peer_event hm hs w >>= λ w'. some (none, w')
  step sub_takes w = next_event s w
  step main_takes w = next_event m w

  -- The step is made without a fault, and does what the specification says.
  abbrev Refines : Op → World → Link → Type 0
  Refines o w l = (w' : World) × (step o w ≡ some (taken o l, w')) × Represents w' (next_link o l)

  module _ {w : World} {main sub : RecvEventData} (h : Holds w main sub) where
    pub store_main : (main' : RecvEventData) → Holds (store m main' w) main' sub
    unfolding store
    store_main main' = record {
      apart_ids = h.apart_ids;
      main_not_zero = h.main_not_zero;
      sub_not_zero = h.sub_not_zero;
      main_handle = h.main_handle;
      sub_handle = h.sub_handle;
      main_end = ground (arith, h.main_end, find-assign m m main' main w.objects.pool);
      sub_end =
          ground
            (arith, h.main_end, h.sub_end, h.apart_ids, find-assign m s main' main w.objects.pool);
    }

    pub store_sub : (sub' : RecvEventData) → Holds (store s sub' w) main sub'
    unfolding store
    store_sub sub' = record {
      apart_ids = h.apart_ids;
      main_not_zero = h.main_not_zero;
      sub_not_zero = h.sub_not_zero;
      main_handle = h.main_handle;
      sub_handle = h.sub_handle;
      main_end =
          ground
            (arith, h.main_end, h.sub_end, h.apart_ids, find-assign s m sub' sub w.objects.pool);
      sub_end = ground (arith, h.sub_end, find-assign s s sub' sub w.objects.pool);
    }

    pub wake : (k : ℕ) → Holds (uv_async_send k w) main sub
    unfolding uv_async_send
    wake k = record {
      apart_ids = h.apart_ids;
      main_not_zero = h.main_not_zero;
      sub_not_zero = h.sub_not_zero;
      main_handle = h.main_handle;
      sub_handle = h.sub_handle;
      main_end = h.main_end;
      sub_end = h.sub_end;
    }

    pub get-main : get (w.handle_data hm) w.objects ≡ some main
    unfolding get
    get-main = rw h.main_handle (ground (arith, h.main_end, h.main_not_zero))

    pub get-sub : get (w.handle_data hs) w.objects ≡ some sub
    unfolding get
    get-sub = rw h.sub_handle (ground (arith, h.sub_end, h.sub_not_zero))

    -- A message to a side goes to the end of its queue.
    pub send-main :
        (e : EventData)
        → send_event hm e w
          ≡ uv_async_send hm (store m (record main { events = main.events ++ e ∷ [] }) w)
    unfolding send_event
    send-main e = rw (get-main, send_event) (rw h.main_handle)

    pub send-sub :
        (e : EventData)
        → send_event hs e w
          ≡ uv_async_send hs (store s (record sub { events = sub.events ++ e ∷ [] }) w)
    unfolding send_event
    send-sub e = rw (get-sub, send_event) (rw h.sub_handle)

  move_all-append : (q events : List EventData) → move_all q events ≡ events ++ q
  unfolding move_all
  move_all-append [] events = rw append-nil
  move_all-append (e ∷ q) events =
      move_all-append q (events ++ e ∷ []) ∙ append_assoc events (e ∷ []) q

  -- The flush appends what was kept to the peer's queue, in its order, wakes the peer, and deletes
  -- the queue that kept it.
  pub flush-Holds :
      (w : World) (q : List EventData) (main sub : RecvEventData)
      → Holds w main sub
      → (w' : World) × (flush m q hs w ≡ some w')
        × Holds w' (record main { not_send = none }) (record sub { events = sub.events ++ q })
  unfolding flush
  flush-Holds w q main sub h =
      let sub' : RecvEventData = record sub { events = move_all q sub.events } in
      let main' : RecvEventData = record main { not_send = none } in
      let w₁ = uv_async_send hs (store s sub' w) in
      let h₁ = wake (store_sub h sub') hs in
      (
        store m main' w₁,
        rw (get-sub h, flush) (rw h.sub_handle (rw h₁.main_end)),
        subst (λ es. Holds (store m main' w₁) main' (record sub { events = es }))
            (move_all-append q sub.events) (store_main h₁ main'),
      )

  pub swap-Holds :
      (w : World) (q events : List EventData) (sub : RecvEventData)
      → Holds w (record { not_send = some q; events = events; peer = some hs }) sub
      → (w' : World) × (swap_not_send_peer m w ≡ some w')
        × Holds w'
            (record { not_send = none; events = events; peer = some hs })
            (record sub { events = sub.events ++ q })
  unfolding swap_not_send_peer
  swap-Holds w q events sub h =
      let (w', flushed, h') = flush-Holds w q _ sub h in (w', rw h.main_end (rw flushed), h')

  -- Setting the two peers.
  pub set_peers-Holds :
      (w : World) (main sub : RecvEventData)
      → Holds w main sub
      → (w' : World) × (set_peers hm hs w ≡ some w')
        × Holds w' (record main { peer = some hs }) (record sub { peer = some hm })
  unfolding set_peers
  set_peers-Holds w main sub h =
      let sub' : RecvEventData = record sub { peer = some hm } in
      let main' : RecvEventData = record main { peer = some hs } in
      let h₁ = store_sub h sub' in
      (
        store m main' (store s sub' w),
        rw (h.sub_handle, h.main_handle) (rw h.sub_end (rw h₁.main_end)),
        store_main h₁ main',
      )

  pub binds-Refines : (w : World) (l : Link) → Represents w l → Refines binds w l
  unfolding step bind_peer_event
  binds-Refines w (apart p u) r =
      let (w₁, set, h₁) = set_peers-Holds w _ _ r in
      let (w₂, swapped, h₂) = swap-Holds w₁ p [] _ h₁ in
      (w₂, rw (set, r.main_handle) (rw swapped), h₂)
  binds-Refines w (bound a b u) r =
      let (w₁, set, h₁) = set_peers-Holds w _ _ r in
      (w₁, rw (set, r.main_handle) (unfold swap_not_send_peer in rw h₁.main_end), h₁)

  -- With its peer set the main side's message goes to the end of the peer's queue.
  pub push-Holds :
      (w : World) (e : EventData) (kept : Option (List EventData)) (events : List EventData)
      (sub : RecvEventData)
      → Holds w (record { not_send = kept; events = events; peer = some hs }) sub
      → (w' : World) × (push_event m e w ≡ some w')
        × Holds w'
            (record { not_send = kept; events = events; peer = some hs })
            (record sub { events = sub.events ++ e ∷ [] })
  unfolding push_event
  push-Holds w e kept events sub h =
      let sub' : RecvEventData = record sub { events = sub.events ++ e ∷ [] } in
      (
        uv_async_send hs (store s sub' w),
        rw h.main_end (rw (send-sub h e)),
        wake (store_sub h sub') hs,
      )

  pub main_sends-Refines :
      (e : EventData) (w : World) (l : Link) → Represents w l → Refines (main_sends e) w l
  unfolding step
  main_sends-Refines e w (apart p u) r =
      let l' = apart (p ++ e ∷ []) u in
      (
        store m (main_of l') w,
        unfold push_event in rw r.main_end (unfold push_not_send in rw r.main_end),
        store_main r (main_of l'),
      )
  main_sends-Refines e w (bound a b u) r =
      let (w₁, pushed, h₁) = push-Holds w e none b _ r in (w₁, rw pushed, h₁)

  pub sub_sends-Refines :
      (e : EventData) (w : World) (l : Link) → Represents w l → Refines (sub_sends e) w l
  unfolding step push_event
  sub_sends-Refines e w (apart p u) r =
      let l' = apart p (u ++ e ∷ []) in
      (
        store s (sub_of l') w,
        rw r.sub_end (unfold push_not_send in rw r.sub_end),
        store_sub r (sub_of l'),
      )
  sub_sends-Refines e w (bound a b u) r =
      let l' = bound a (b ++ e ∷ []) u in
      (
        uv_async_send hm (store m (main_of l') w),
        rw r.sub_end (rw (send-main r e)),
        wake (store_main r (main_of l')) hm,
      )

  sub_takes-Refines : (w : World) (l : Link) → Represents w l → Refines sub_takes w l
  unfolding step next_event
  sub_takes-Refines w (apart p u) r = (w, rw r.sub_end, r)
  sub_takes-Refines w (bound [] b u) r = (w, rw r.sub_end, r)
  sub_takes-Refines w (bound (e ∷ a) b u) r =
      let l' = bound a b u in (store s (sub_of l') w, rw r.sub_end, store_sub r (sub_of l'))

  pub main_takes-Refines : (w : World) (l : Link) → Represents w l → Refines main_takes w l
  unfolding step next_event
  main_takes-Refines w (apart p u) r = (w, rw r.main_end, r)
  main_takes-Refines w (bound a [] u) r = (w, rw r.main_end, r)
  main_takes-Refines w (bound a (e ∷ b) u) r =
      let l' = bound a b u in (store m (main_of l') w, rw r.main_end, store_main r (main_of l'))

  -- Every call, made at any time after both endpoints exist, is made without a fault and does to
  -- the endpoints what the specification does to the queues.
  pub step-Refines :
      (o : Op) (w : World) (l : Link)
      → Represents w l
      → (w' : World) × (step o w ≡ some (taken o l, w')) × Represents w' (next_link o l)
  step-Refines (main_sends e) w l r = main_sends-Refines e w l r
  step-Refines (sub_sends e) w l r = sub_sends-Refines e w l r
  step-Refines binds w l r = binds-Refines w l r
  step-Refines sub_takes w l r = sub_takes-Refines w l r
  step-Refines main_takes w l r = main_takes-Refines w l r
