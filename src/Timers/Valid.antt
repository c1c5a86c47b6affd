-- ===== src/Timers/Valid.antt =====
-- src/timeImpl.cc: what is true of the pool between two calls, and which part of it a callback keeps.
use threadjs_lib.Base.{
  Bool-cases, ◌==◌, false, ℕ, suc, ◌+◌, ◌≤◌, ◌≡◌, refl, ap, true, false, List, [], ◌∷◌, ◌++◌,
  Option, none, some, ◌⊎◌, arith, inl, inr, All,
}
use threadjs_lib.IdContainer.{insert, contains, erase}
use threadjs_lib.IdContainer.Lifetime.{contains-erase}
use threadjs_lib.StdMap.{
  find, is_some, AllKeys, find-insert_new, find-assign, find-erase, find-AllKeys, insert-AllKeys,
  erase-AllKeys, assign-AllKeys,
}
use threadjs_lib.StdMap
use threadjs_lib.Timers.{
  Script, done, next_tick, set_timer, clear, Outcome, ok, overflow, freed, no_fuel, and_then, Timer,
  TimerPool, back,
}

-- The next ticks that a callback asks for, with those that they ask for in turn.
unfoldable pub ticks : Script → ℕ
ticks done = 0
ticks (next_tick cb more) = suc (ticks cb) + ticks more
ticks (set_timer timeout repeat cb more) = ticks more
ticks (clear i more) = ticks more

abbrev pub ticks_of : Option Timer → ℕ
ticks_of none = 0
ticks_of (some t) = ticks t.fn

-- How many rounds the queue is good for.
unfoldable pub work : List ℕ → StdMap.Map Timer → ℕ
work [] m = 0
work (i ∷ q) m = suc (ticks_of (find i m)) + work q m

-- The keys of a map are all different.
abbrev pub Distinct : List ℕ → Type 0
Distinct [] = Unit
Distinct (i ∷ s) = (contains i s ≡ false) × Distinct s

-- No id is above the counter, and every timer in the pool is there.
pub record IsValid (w : TimerPool) : Type 0 where
  pub queue_old : All (λ i. i ≤ w.id) w.tick_queue
  pub timers_old : AllKeys (λ i. i ≤ w.id) w.timers
  pub pool_distinct : Distinct w.pool
  pub pool_alive : (i : ℕ) → contains i w.pool ≡ true → is_some (find i w.timers) ≡ true

-- Neither a deleted timer is used nor is fuel short; the counter may overflow.
abbrev pub Safe : {A : Type 0} → (A → Type 0) → Outcome A → Type 0
Safe P (ok a) = P a
Safe P overflow = Unit
Safe P freed = ⊥
Safe P no_fuel = ⊥

pub Safe-then :
    {A B : Type 0} (P : A → Type 0) (Q : B → Type 0) (o : Outcome A) (f : A → Outcome B)
    → Safe P o
    → ((a : A) → P a → Safe Q (f a))
    → Safe Q (and_then o f)
Safe-then P Q (ok a) f h k = k a h
Safe-then P Q overflow f h k = tt
Safe-then P Q freed f h k = h
Safe-then P Q no_fuel f h k = h

pub work-append : (q r : List ℕ) (m : StdMap.Map Timer) → work (q ++ r) m ≡ work q m + work r m
unfolding work
work-append [] r m = omega arith
work-append (i ∷ q) r m = omega (arith, work-append q r m)

pub work_mono :
    (q : List ℕ) (m m' : StdMap.Map Timer)
    → All (λ i. ticks_of (find i m') ≤ ticks_of (find i m)) q
    → work q m' ≤ work q m
unfolding work
work_mono [] m m' h = omega arith
work_mono (i ∷ q) m m' h = omega (arith, work_mono q m m' h.1, h.0)

pub back_cases :
    (q : List ℕ)
    → ((back q ≡ none) × (q ≡ []))
      ⊎ ((rest : List ℕ) × (i : ℕ) × (back q ≡ some (rest, i)) × (q ≡ rest ++ i ∷ []))
unfolding back
back_cases [] = inl (refl, refl)
back_cases (j ∷ q) = elim (back_cases q) [
  | inl (e, p) ↦ inr (
    [],
    j,
    ap (λ o. elim o [ none ↦ some ([], j) | some (rest, k) ↦ some (j ∷ rest, k) ]) e,
    rw p refl,
  )
  | inr (rest, i, e, p) ↦ inr (
    j ∷ rest,
    i,
    ap (λ o. elim o [ none ↦ some ([], j) | some (rest, k) ↦ some (j ∷ rest, k) ]) e,
    ap (◌∷◌ j) p,
  )
]

-- What a piece of a callback keeps: `w` before it, `w'` after it, and `n` ticks asked for.
pub record Keeps (n : ℕ) (w w' : TimerPool) : Type 0 where
  pub valid : IsValid w'
  pub less : work w'.tick_queue w'.timers ≤ work w.tick_queue w.timers + n
  -- A timer that was taken out of the pool stays out and alive.
  pub out :
      (i : ℕ)
      → i ≤ w.id
      → contains i w.pool ≡ false
      → is_some (find i w.timers) ≡ true
      → (i ≤ w'.id) × (contains i w'.pool ≡ false) × (is_some (find i w'.timers) ≡ true)

pub Keeps-trans :
    (m n k : ℕ) (w₁ w₂ w₃ : TimerPool) → m + n ≤ k → Keeps m w₁ w₂ → Keeps n w₂ w₃ → Keeps k w₁ w₃
Keeps-trans m n k w₁ w₂ w₃ le a b = record {
  valid = b.valid;
  less = omega (arith, a.less, b.less);
  out = λ i old out alive.
      let (old', out', alive') = a.out i old out alive in b.out i old' out' alive';
}

pub same_pool : (w : TimerPool) → IsValid w → Keeps 0 w w
same_pool w h = record { valid = h; less = omega arith; out = λ i le out alive. (le, out, alive) }

pub insert-Distinct : (i : ℕ) (s : List ℕ) → Distinct s → Distinct (insert i s)
unfolding insert
insert-Distinct i s h = elim (Bool-cases (contains i s)) [
  | inl old ↦ rw old h
  | inr new ↦ rw new (new, h)
]

pub erase-Distinct : (i : ℕ) (s : List ℕ) → Distinct s → Distinct (erase i s)
unfolding erase
erase-Distinct i [] h = tt
erase-Distinct i (j ∷ s) h = elim (Bool-cases (j == i)) [
  | inl same ↦ rw same (erase-Distinct i s h.1)
  | inr other ↦ rw other (ground (arith, contains-erase i j s, h.0), erase-Distinct i s h.1)
]

-- A timer that is taken out of the pool.
pub popped-IsValid :
    (i : ℕ) (w : TimerPool) → IsValid w → IsValid (record w { pool = erase i w.pool })
popped-IsValid i w h = record {
  queue_old = h.queue_old;
  timers_old = h.timers_old;
  pool_distinct = erase-Distinct i w.pool h.pool_distinct;
  pool_alive = λ j in_pool. ground (arith, contains-erase i j w.pool, h.pool_alive j, in_pool);
}

pub alive_timer : (o : Option Timer) → is_some o ≡ true → (t : Timer) × (o ≡ some t)
alive_timer none h = cc
alive_timer (some t) h = (t, refl)
