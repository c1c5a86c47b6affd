-- ===== src/Events/Receive.antt =====
-- src/main.cc, recv_other_thread_event: which texts the handler gets, and what a missing handler costs.
use threadjs_lib.Base.{
  ℕ, zero, suc, ◌<◌, ◌==◌, ◌≡◌, ◌≢◌, Bool, true, false, List, [], ◌∷◌, ◌++◌, none, some, arith,
  if◌then◌else◌, Bool-cases, inl, inr, ==-refl, All, length, map,
}
use threadjs_lib.StdMap.{find-assign, find-erase, erase}
use threadjs_lib.ObjectMap.{get, rm}
use threadjs_lib.Events.{
  EventData, RecvEventData, World, load, store, next_event, of_string, recv_loop,
  recv_other_thread_event, send_event, free_recv_event_from,
}
use threadjs_lib.Events.Text.{NonZero, get_data-of_string}

-- The specification: the calls made, whether the loop threw, and the texts that stay in the queue.
abbrev pub calls :
    (List (List ℕ) → Bool) → List (List ℕ) → List (List ℕ) → List (List ℕ) × Bool × List (List ℕ)
calls ready done [] = (done, false, [])
calls ready done (t ∷ ts) =
    let more = calls ready (done ++ t ∷ []) ts in if ready done then more else (done, true, ts)

takes_first :
    (w : World) (r : RecvEventData) (id : ℕ) (t : List ℕ) (ts : List (List ℕ))
    → load id w ≡ some (record r { events = map of_string (t ∷ ts) })
    → (w' : World) × (next_event id w ≡ some (some (of_string t), w'))
      × (load id w' ≡ some (record r { events = map of_string ts }))
unfolding next_event store
takes_first w r id t ts h =
    let left : RecvEventData = record r { events = map of_string ts } in
    (
      store id left w,
      rw h,
      ground (
        arith,
        find-assign id id left (record r { events = map of_string (t ∷ ts) }) w.objects.pool,
      ),
    )

recv_loop-calls :
    (ready : List (List ℕ) → Bool) (id : ℕ) (r : RecvEventData) (f : ℕ) (w : World)
    (done ts : List (List ℕ))
    → length ts < f
    → All (All NonZero) ts
    → load id w ≡ some (record r { events = map of_string ts })
    → let (called, threw, left) = calls ready done ts in
      (w' : World) × (recv_loop ready f id done w ≡ some (called, threw, w'))
      × (load id w' ≡ some (record r { events = map of_string left }))
unfolding recv_loop
recv_loop-calls ready id r zero w done ts lt nz h = elim lt [ ]
recv_loop-calls ready id r (suc f) w done [] lt nz h = (w, unfold next_event in rw h, h)
recv_loop-calls ready id r (suc f) w done (t ∷ ts) lt nz h =
    let (w₁, taken, h₁) = takes_first w r id t ts h in
    elim (Bool-cases (ready done)) [
      | inl callable ↦
          let (w₂, looped, h₂) =
            recv_loop-calls ready id r f w₁ (done ++ t ∷ []) ts (omega arith) nz.1 h₁ in
          (w₂, rw (taken, callable) (rw ((get_data-of_string t [] nz.0).0) looped), rw callable h₂)
      | inr missing ↦ (w₁, rw (taken, missing), rw missing h₁)
    ]

get-load : (id : ℕ) (w : World) → id ≢ 0 → get id w.objects ≡ load id w
unfolding get
get-load id w h = ground arith

-- On a handle whose endpoint is in the table under a key other than 0, where texts without a NUL
-- wait, the receiving handler with a round for each and one more calls _recv with them in order and
-- comes to its end; where _recv is no function it throws, the message at hand is lost and the later
-- ones stay.
pub recv_other_thread_event-calls :
    (ready : List (List ℕ) → Bool) (h : ℕ) (r : RecvEventData) (w : World) (ts : List (List ℕ))
    → w.handle_data h ≢ 0
    → All (All NonZero) ts
    → load (w.handle_data h) w ≡ some (record r { events = map of_string ts })
    → let (called, threw, left) = calls ready [] ts in
      (w' : World) × (recv_other_thread_event ready (suc (length ts)) h w
        ≡ some (called, threw, w'))
      × (load (w.handle_data h) w' ≡ some (record r { events = map of_string left }))
recv_other_thread_event-calls ready h r w ts nonzero nz found =
    let (w', looped, left) =
      recv_loop-calls ready (w.handle_data h) r (suc (length ts)) w [] ts (omega arith) nz found in
    (
      w',
      unfold recv_other_thread_event in
          rw (get-load (w.handle_data h) w nonzero, found, recv_other_thread_event) looped,
      left,
    )

freed_lem :
    (h : ℕ) (w : World) (r : RecvEventData)
    → get (w.handle_data h) w.objects ≡ some r
    → free_recv_event_from h w ≡ record w {
      objects = record w.objects { pool = erase (w.handle_data h) w.objects.pool };
      handle_data = λ k. if h == k then 0 else w.handle_data k;
    }
unfolding free_recv_event_from
freed_lem h w r found = rw (found, free_recv_event_from) (unfold rm get in ground arith)

-- After an endpoint is freed a message to its handle is dropped and changes nothing, and its
-- pointer is dead; no other endpoint is touched.
pub send_event-free :
    (h j : ℕ) (e : EventData) (w : World) (r : RecvEventData)
    → get (w.handle_data h) w.objects ≡ some r
    → let freed = free_recv_event_from h w in
      (send_event h e freed ≡ freed)
      × (load j freed ≡ (if w.handle_data h == j then none else load j w))
send_event-free h j e w r found = rw (freed_lem h w r found) (
  unfold send_event get in rw (==-refl h, send_event),
  find-erase (w.handle_data h) j w.objects.pool,
)
