-- ===== src/StdMap.antt =====
-- std::map with integer keys, as data.h and timeImpl.cc use it: find, insert (which keeps an entry
-- that is there) and erase. The keys are counters, so the order of insertion, which the list keeps,
-- is the order of the keys.
use threadjs_lib.Base.{
  ℕ, ◌==◌, ◌≡◌, ◌≢◌, refl, ap, Bool, true, false, List, [], ◌∷◌, Option, none, some, arith,
  if◌then◌else◌, All, Bool-cases, ==_iff, inl, inr, subst,
}

abbrev pub Map {ℓ} : Type ℓ → Type ℓ
Map V = List (ℕ × V)

-- Whether there is an entry, as the test `item == pool.end()` asks.
abbrev pub is_some {ℓ} : {V : Type ℓ} → Option V → Bool
is_some none = false
is_some (some v) = true

module _ {ℓ} {V : Type ℓ} where
  unfoldable pub find : ℕ → Map V → Option V
  find k [] = none
  find k ((j, v) ∷ m) = if j == k then some v else find k m

  unfoldable pub insert : ℕ → V → Map V → Map V
  insert k v [] = (k, v) ∷ []
  insert k v ((j, w) ∷ m) = if j == k then (j, w) ∷ m else (j, w) ∷ insert k v m

  unfoldable pub erase : ℕ → Map V → Map V
  erase k [] = []
  erase k ((j, v) ∷ m) = if j == k then erase k m else (j, v) ∷ erase k m

  -- A write through the pointer that an entry holds.
  unfoldable pub assign : ℕ → V → Map V → Map V
  assign k v [] = []
  assign k v ((j, w) ∷ m) = if j == k then (j, v) ∷ m else (j, w) ∷ assign k v m

  -- Every key satisfies `P`.
  abbrev pub AllKeys {κ} : (ℕ → Type κ) → Map V → Type κ
  AllKeys P = All (λ e. P e.0)

  pub find-insert_new :
      (k j : ℕ) (v : V) (m : Map V)
      → find k m ≡ none
      → find j (insert k v m) ≡ (if k == j then some v else find j m)
  unfolding find insert
  find-insert_new k j v [] h = refl
  find-insert_new k j v ((i, w) ∷ m) h = ground (arith, find-insert_new k j v m)

  pub find-assign :
      (k j : ℕ) (v w : V) (m : Map V)
      → find k m ≡ some w
      → find j (assign k v m) ≡ (if k == j then some v else find j m)
  unfolding find assign
  find-assign k j v w [] h = cc
  find-assign k j v w ((i, u) ∷ m) h = ground (arith, find-assign k j v w m)

  pub find-assign_other : (k j : ℕ) (v : V) (m : Map V) → k ≢ j → find j (assign k v m) ≡ find j m
  unfolding find assign
  find-assign_other k j v [] other = refl
  find-assign_other k j v ((i, u) ∷ m) other = ground (arith, find-assign_other k j v m other)

  pub find-erase : (k j : ℕ) (m : Map V) → find j (erase k m) ≡ (if k == j then none else find j m)
  unfolding find erase
  find-erase k j [] = ground arith
  find-erase k j ((i, w) ∷ m) = ground (arith, find-erase k j m)

  pub erase_absent : (k : ℕ) (m : Map V) → find k m ≡ none → erase k m ≡ m
  unfolding find erase
  erase_absent k [] e = refl
  erase_absent k ((j, w) ∷ m) e = elim (Bool-cases (j == k)) [
    | inl hit ↦ cc (rw hit at e)
    | inr miss ↦ rw miss (ap (◌∷◌ (j, w)) (erase_absent k m (rw miss at e)))
  ]

  -- A new entry that goes again leaves no trace, whatever was written to it.
  pub erase-insert_new : (k : ℕ) (v : V) (m : Map V) → find k m ≡ none → erase k (insert k v m) ≡ m
  unfolding find insert erase
  erase-insert_new k v [] e = ground arith
  erase-insert_new k v ((j, w) ∷ m) e = elim (Bool-cases (j == k)) [
    | inl hit ↦ cc (rw hit at e)
    | inr miss ↦ rw miss (rw miss (ap (◌∷◌ (j, w)) (erase-insert_new k v m (rw miss at e))))
  ]

  pub erase-assign : (k : ℕ) (v : V) (m : Map V) → erase k (assign k v m) ≡ erase k m
  unfolding assign erase
  erase-assign k v [] = refl
  erase-assign k v ((j, w) ∷ m) = elim (Bool-cases (j == k)) [
    | inl hit ↦ rw hit (rw hit refl)
    | inr miss ↦ rw miss (rw miss (ap (◌∷◌ (j, w)) (erase-assign k v m)))
  ]

  pub find-assign_same :
      (k : ℕ) (v w : V) (m : Map V) → find k m ≡ some w → find k (assign k v m) ≡ some v
  find-assign_same k v w m h = ground (arith, find-assign k k v w m h)

  pub find-erase_same : (k : ℕ) (m : Map V) → find k (erase k m) ≡ none
  find-erase_same k m = ground (arith, find-erase k k m)

  pub find-AllKeys {κ} :
      (P : ℕ → Type κ) (k : ℕ) (m : Map V) {v : V} → AllKeys P m → find k m ≡ some v → P k
  unfolding find
  find-AllKeys P k [] h e = cc
  find-AllKeys P k ((j, w) ∷ m) h e = elim (Bool-cases (j == k)) [
    | inl hit ↦ subst P ((==_iff j k).0 hit) h.0
    | inr miss ↦ find-AllKeys P k m h.1 (rw miss at e)
  ]

  pub insert-AllKeys {κ} :
      (P : ℕ → Type κ) (k : ℕ) (v : V) (m : Map V) → P k → AllKeys P m → AllKeys P (insert k v m)
  unfolding insert
  insert-AllKeys P k v [] p h = (p, tt)
  insert-AllKeys P k v ((j, w) ∷ m) p h = ground (arith, insert-AllKeys P k v m p h.1)

  pub erase-AllKeys {κ} : (P : ℕ → Type κ) (k : ℕ) (m : Map V) → AllKeys P m → AllKeys P (erase k m)
  unfolding erase
  erase-AllKeys P k [] h = tt
  erase-AllKeys P k ((j, w) ∷ m) h = ground (arith, erase-AllKeys P k m h.1)

  pub assign-AllKeys {κ} :
      (P : ℕ → Type κ) (k : ℕ) (v : V) (m : Map V) → AllKeys P m → AllKeys P (assign k v m)
  unfolding assign
  assign-AllKeys P k v [] h = tt
  assign-AllKeys P k v ((j, w) ∷ m) h = ground (arith, assign-AllKeys P k v m h.1)
