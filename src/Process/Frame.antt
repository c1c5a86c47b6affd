-- ===== src/Process/Frame.antt =====
-- src/data.h and src/tools.h: what the calls on the endpoints of one thread leave as it was.
use threadjs_lib.Base.{
  ℕ, ◌≤◌, ◌≡◌, ◌≢◌, refl, sym, ◌∙◌, List, [], ◌∷◌, ◌++◌, Option, none, some, ◌>>=◌, arith,
  Option-cases, inl, inr,
}
use threadjs_lib.StdMap.{find, find-assign_other, find-erase}
use threadjs_lib.ObjectMap.{get, rm}
use threadjs_lib.Events.{
  EventData, RecvEventData, World, load, store, uv_async_send, send_event, push_event,
  push_not_send, next_event, free_recv_event_from,
}

-- The handles of the thread are `hm` and `hs`, its endpoints `m` and `e`.
module _ (hm hs m e : ℕ) where
  -- An id that names an endpoint of another thread, if any.
  pub record Foreign (k : ℕ) : Type 0 where
    pub not_zero : k ≢ 0
    pub not_main : k ≢ m
    pub not_sub : k ≢ e

  abbrev pub Own : ℕ → Type 0
  Own i = (k : ℕ) → Foreign k → i ≢ k

  pub Own-zero : (i : ℕ) → i ≡ 0 → Own i
  Own-zero i q k f = λ q'. f.not_zero (sym q' ∙ q)

  pub Own-main : (i : ℕ) → i ≡ m → Own i
  Own-main i q k f = λ q'. f.not_main (sym q' ∙ q)

  pub Own-sub : (i : ℕ) → i ≡ e → Own i
  Own-sub i q k f = λ q'. f.not_sub (sym q' ∙ q)

  -- The ids that the table has not handed out yet do not count.
  pub record Frame (w w' : World) : Type 0 where
    pub handle_kept : (k : ℕ) → k ≢ hm → k ≢ hs → w'.handle_data k ≡ w.handle_data k
    pub load_kept : (k : ℕ) → k ≤ w.objects.object_id → Foreign k → load k w' ≡ load k w
    pub counter : w.objects.object_id ≤ w'.objects.object_id

  pub Frame-refl : (w : World) → Frame w w
  Frame-refl w = record {
    handle_kept = λ k n n'. refl;
    load_kept = λ k le f. refl;
    counter = omega arith;
  }

  pub Frame-trans : (w w' w'' : World) → Frame w w' → Frame w' w'' → Frame w w''
  Frame-trans w w' w'' a b = record {
    handle_kept = λ k n n'. b.handle_kept k n n' ∙ a.handle_kept k n n';
    load_kept = λ k le f. b.load_kept k (omega (arith, le, a.counter)) f ∙ a.load_kept k le f;
    counter = omega (arith, a.counter, b.counter);
  }

  pub store-Frame : (i : ℕ) (r : RecvEventData) (w : World) → Own i → Frame w (store i r w)
  unfolding store
  store-Frame i r w own = record {
    handle_kept = λ k n n'. refl;
    load_kept = λ k le f. find-assign_other i k r w.objects.pool (own k f);
    counter = omega arith;
  }

  pub wake-Frame : (h : ℕ) (w : World) → Frame w (uv_async_send h w)
  unfolding uv_async_send
  wake-Frame h w = record {
    handle_kept = λ k n n'. refl;
    load_kept = λ k le f. refl;
    counter = omega arith;
  }

  pub send_event-Frame :
      (h : ℕ) (x : EventData) (w : World) → Own (w.handle_data h) → Frame w (send_event h x w)
  unfolding send_event uv_async_send
  send_event-Frame h x w own = elim (Option-cases (get (w.handle_data h) w.objects)) [
    | inl gone ↦ rw (send_event, gone) (Frame-refl w)
    | inr (r, there) ↦
        rw (send_event, there)
          (let w₁ : World = store (w.handle_data h) (record r { events = r.events ++ x ∷ [] }) w in
            Frame-trans w w₁ (uv_async_send h w₁) (store-Frame _ _ w own) (wake-Frame h w₁))
  ]

  -- The same for a call that may fail.
  abbrev pub SomeFrame : World → Option World → Type 0
  SomeFrame w none = Unit {0}
  SomeFrame w (some w') = Frame w w'

  pub bind-SomeFrame :
      (w : World) (o : Option World) (f : World → Option World)
      → SomeFrame w o
      → ((w' : World) → o ≡ some w' → SomeFrame w' (f w'))
      → SomeFrame w (o >>= f)
  bind-SomeFrame w none f h k = tt
  bind-SomeFrame w (some w') f h k = go (f w') (k w' refl)
    where
      go : (o : Option World) → SomeFrame w' o → SomeFrame w o
      go none h' = tt
      go (some w'') h' = Frame-trans w w' w'' h h'

  -- The peer of the endpoint `i`, if it has one, is one of the thread's own handles.
  abbrev pub PeerOwn : ℕ → World → Type 0
  PeerOwn i w =
      (r : RecvEventData) (h : ℕ) → load i w ≡ some r → r.peer ≡ some h → Own (w.handle_data h)

  pub push_event-SomeFrame :
      (i : ℕ) (x : EventData) (w : World) → Own i → PeerOwn i w → SomeFrame w (push_event i x w)
  unfolding push_event push_not_send
  push_event-SomeFrame i x w own peers = elim (Option-cases (load i w)) [
    | inl gone ↦ rw (push_event, gone) tt
    | inr (r, there) ↦ elim (Option-cases r.peer) [
      | inr (h, peer) ↦
          rw (push_event, there) (rw peer (send_event-Frame h x w (peers r h there peer)))
      | inl lone ↦ elim (Option-cases r.not_send) [
        | inl lost ↦ rw (push_event, there) (rw lone (rw (push_not_send, there) (rw lost tt)))
        | inr (q, kept) ↦
            rw (push_event, there)
              (rw lone (rw (push_not_send, there) (rw kept (store-Frame i _ w own))))
      ]
    ]
  ]

  abbrev pub TakenFrame : World → Option (Option EventData × World) → Type 0
  TakenFrame w none = Unit {0}
  TakenFrame w (some (o, w')) = Frame w w'

  pub next_event-TakenFrame : (i : ℕ) (w : World) → Own i → TakenFrame w (next_event i w)
  unfolding next_event
  next_event-TakenFrame i w own = elim (Option-cases (load i w)) [
    | inl gone ↦ rw (next_event, gone) tt
    | inr (r, there) ↦ rw (next_event, there) (waiting r r.events)
  ]
    where
      waiting :
          (r : RecvEventData) (es : List EventData)
          → TakenFrame w (elim es [
            | [] ↦ some (none, w)
            | x ∷ rest ↦ some (some x, store i (record r { events = rest }) w)
          ])
      waiting r [] = Frame-refl w
      waiting r (x ∷ rest) = store-Frame i _ w own

  -- A handle of the thread's own: what follows does not count it.
  abbrev pub Mine : ℕ → Type 0
  Mine h = (k : ℕ) → k ≢ hm → k ≢ hs → h ≢ k

  pub free-Frame :
      (h : ℕ) (w : World) → Mine h → Own (w.handle_data h) → Frame w (free_recv_event_from h w)
  unfolding free_recv_event_from rm
  free-Frame h w mine own = elim (Option-cases (get (w.handle_data h) w.objects)) [
    | inl gone ↦ rw (free_recv_event_from, gone) (Frame-refl w)
    | inr (r, there) ↦
        rw (free_recv_event_from, there)
          (elim (Option-cases (find (w.handle_data h) w.objects.pool)) [
            | inl lost ↦
                rw (rm, lost)
                  (record {
                    handle_kept = λ k n n'. ground (arith, mine k n n');
                    load_kept = λ k le f. refl;
                    counter = omega arith;
                  })
            | inr (r', found) ↦
                rw (rm, found)
                  (record {
                    handle_kept = λ k n n'. ground (arith, mine k n n');
                    load_kept = λ k le f.
                        ground (arith, own k f, find-erase (w.handle_data h) k w.objects.pool);
                    counter = omega arith;
                  })
          ])
  ]
