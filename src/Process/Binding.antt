-- ===== src/Process/Binding.antt =====
-- src/main.cc, create_uv_async and bind_peer_event: what they leave as it was.
use threadjs_lib.Base.{
  ℕ, ◌+◌, ◌≡◌, ◌≢◌, refl, sym, subst, List, [], Option, none, some, ◌>>=◌, arith, ltb, Bool-cases,
  Option-cases, inl, inr,
}
use threadjs_lib.StdMap.{find-assign_same, find-insert_new}
use threadjs_lib.ObjectMap.{get, put, int_max}
use threadjs_lib.ObjectMap.Handles
use threadjs_lib.Events.{
  EventData, World, load, store, uv_async_send, set_peer, set_peers, flush, move_all,
  swap_not_send_peer, bind_peer_event, create_uv_async,
}
use threadjs_lib.Process.Frame.{
  Own, Frame, Frame-refl, Frame-trans, store-Frame, wake-Frame, SomeFrame, bind-SomeFrame, PeerOwn,
  Mine,
}
use threadjs_lib.Life.Table.{TableOk}

module _ (hm hs m e : ℕ) where
  set_peer-SomeFrame :
      (i h : ℕ) (w : World) → Own hm hs m e i → SomeFrame hm hs m e w (set_peer i h w)
  unfolding set_peer
  set_peer-SomeFrame i h w own = elim (Option-cases (load i w)) [
    | inl gone ↦ rw (set_peer, gone) tt
    | inr (r, there) ↦ rw (set_peer, there) (store-Frame hm hs m e i _ w own)
  ]

  flush-SomeFrame :
      (i : ℕ) (q : List EventData) (h : ℕ) (w : World)
      → Own hm hs m e i
      → Own hm hs m e (w.handle_data h)
      → SomeFrame hm hs m e w (flush i q h w)
  unfolding flush
  flush-SomeFrame i q h w own own' = elim (Option-cases (get (w.handle_data h) w.objects)) [
    | inl gone ↦ rw (flush, gone) (Frame-refl hm hs m e w)
    | inr (p, there) ↦
        rw (flush, there)
          (stored (store (w.handle_data h) (record p { events = move_all q p.events }) w)
            (store-Frame hm hs m e _ _ w own'))
  ]
    where
      stored :
          (w₁ : World)
          → Frame hm hs m e w w₁
          → SomeFrame hm hs m e w (
              load i (uv_async_send h w₁) >>= λ r.
              some (store i (record r { not_send = none }) (uv_async_send h w₁)))
      stored w₁ f =
          let f' : Frame hm hs m e w (uv_async_send h w₁) =
            Frame-trans hm hs m e w w₁ (uv_async_send h w₁) f (wake-Frame hm hs m e h w₁) in
          elim (Option-cases (load i (uv_async_send h w₁))) [
            | inl lost ↦ rw lost tt
            | inr (r, found) ↦ rw found (
                Frame-trans hm hs m e w (uv_async_send h w₁) _ f'
                  (store-Frame hm hs m e i _ (uv_async_send h w₁) own))
          ]

  swap-SomeFrame :
      (i : ℕ) (w : World)
      → Own hm hs m e i
      → PeerOwn hm hs m e i w
      → SomeFrame hm hs m e w (swap_not_send_peer i w)
  unfolding swap_not_send_peer
  swap-SomeFrame i w own peers = elim (Option-cases (load i w)) [
    | inl gone ↦ rw (swap_not_send_peer, gone) tt
    | inr (r, there) ↦
        rw (swap_not_send_peer, there) (swapped r.not_send r.peer (λ h. peers r h there))
  ]
    where
      swapped :
          (q : Option (List EventData)) (p : Option ℕ)
          → ((h : ℕ) → p ≡ some h → Own hm hs m e (w.handle_data h))
          → SomeFrame hm hs m e w (elim q [
            | none ↦ some w
            | some q ↦ elim p [ none ↦ some w | some k ↦ flush i q k w ]
          ])
      swapped none p k = Frame-refl hm hs m e w
      swapped (some q) none k = Frame-refl hm hs m e w
      swapped (some q) (some h) k = flush-SomeFrame i q h w own (k h refl)

  -- Behind set_peer the handles are what they were, and the endpoint has the peer it was given.
  abbrev Peered : ℕ → World → Option World → Type 0
  Peered i w none = Unit {0}
  Peered i w (some w') = (w'.handle_data ≡ w.handle_data) × PeerOwn hm hs m e i w'

  set_peer-Peered :
      (i h : ℕ) (w : World) → Own hm hs m e (w.handle_data h) → Peered i w (set_peer i h w)
  unfolding set_peer store
  set_peer-Peered i h w own = elim (Option-cases (load i w)) [
    | inl gone ↦ rw (set_peer, gone) tt
    | inr (r, there) ↦
        rw (set_peer, there)
          (
            refl,
            λ r' h' found peer.
                let now : load i (store i (record r { peer = some h }) w)
                    ≡ some (record r { peer = some h }) =
                  find-assign_same i (record r { peer = some h }) r w.objects.pool there in
                let same : h ≡ h' = cc in subst (λ x. Own hm hs m e (w.handle_data x)) same own,
          )
  ]

  set_peers-SomeFrame :
      (w : World)
      → Own hm hs m e (w.handle_data hm)
      → Own hm hs m e (w.handle_data hs)
      → SomeFrame hm hs m e w (set_peers hm hs w)
  unfolding set_peers
  set_peers-SomeFrame w own own' =
      bind-SomeFrame hm hs m e w (set_peer (w.handle_data hs) hm w) _
        (set_peer-SomeFrame (w.handle_data hs) hm w own')
        (λ w' set. set_peer-SomeFrame (w.handle_data hm) hs w' own)

  set_peers-PeerOwn :
      (w w' : World)
      → Own hm hs m e (w.handle_data hm)
      → Own hm hs m e (w.handle_data hs)
      → set_peers hm hs w ≡ some w'
      → PeerOwn hm hs m e (w.handle_data hm) w'
  unfolding set_peers
  set_peers-PeerOwn w w' own own' set = elim (Option-cases (set_peer (w.handle_data hs) hm w)) [
    | inl lost ↦ cc (rw lost at set)
    | inr (w₁, first) ↦
        let same : w₁.handle_data ≡ w.handle_data =
          (subst (Peered (w.handle_data hs) w) first
            (set_peer-Peered (w.handle_data hs) hm w own)).0 in
        let own₁ : Own hm hs m e (w₁.handle_data hs) =
          subst (λ d. Own hm hs m e (d hs)) (sym same) own' in
        let second : set_peer (w.handle_data hm) hs w₁ ≡ some w' = rw first at set in
        (subst (Peered (w.handle_data hm) w₁) second
          (set_peer-Peered (w.handle_data hm) hs w₁ own₁)).1
  ]

  pub bind_peer_event-SomeFrame :
      (w : World)
      → Own hm hs m e (w.handle_data hm)
      → Own hm hs m e (w.handle_data hs)
      → SomeFrame hm hs m e w (bind_peer_event hm hs w)
  unfolding bind_peer_event
  bind_peer_event-SomeFrame w own own' =
      bind-SomeFrame hm hs m e w (set_peers hm hs w) _ (set_peers-SomeFrame w own own')
        (λ w' set. swap-SomeFrame (w.handle_data hm) w' own (set_peers-PeerOwn w w' own own' set))

-- create_uv_async for a handle of the thread's own.
abbrev pub Made : (hm hs m e h : ℕ) → World → Option (ℕ × World) → Type 0
Made hm hs m e h w none = Unit {0}
Made hm hs m e h w (some (id, w')) =
    (id ≡ w.objects.object_id + 1)
    × (w'.objects.object_id ≡ w.objects.object_id + 1)
    × (w'.handle_data h ≡ id)
    × ((k : ℕ) → h ≢ k → w'.handle_data k ≡ w.handle_data k)
    × Frame hm hs m e w w'

pub create_uv_async-Made :
    (hm hs m e h : ℕ) (w : World)
    → TableOk w
    → Mine hm hs m e h
    → Made hm hs m e h w (create_uv_async h w)
unfolding create_uv_async put
create_uv_async-Made hm hs m e h w table mine =
    elim (Bool-cases (ltb w.objects.object_id int_max)) [
      | inr full ↦ rw full tt
      | inl room ↦ rw room (
        refl,
        refl,
        ground arith,
        λ k n. ground (arith, n),
        record {
          handle_kept = λ k n n'. ground (arith, mine k n n');
          load_kept = λ k le f. ground (
            arith,
            le,
            find-insert_new (w.objects.object_id + 1) k
                (record { not_send = some []; events = []; peer = none }) w.objects.pool
                (Handles.find_above w.objects.object_id (w.objects.object_id + 1) w.objects.pool
                  table (omega arith)),
          );
          counter = omega arith;
        },
      )
    ]
