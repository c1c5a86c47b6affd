-- ===== src/ObjectMap/Handles.antt =====
-- src/data.h, class ObjectMap: what an id names, from `put` to `rm` and afterwards.
use threadjs_lib.Base.{
  ℕ, ◌+◌, ◌≤◌, ◌<◌, ◌==◌, ◌≡◌, ◌≢◌, refl, inl, inr, true, List, [], ◌∷◌, none, some, arith,
  if◌then◌else◌, length, Option-cases, lt→ltb,
}
use threadjs_lib.StdMap.{
  Map, is_some, find, insert, erase, AllKeys, find-insert_new, find-erase, find-AllKeys,
  insert-AllKeys, erase-AllKeys,
}
use threadjs_lib.ObjectMap.{ObjectMap, Call, puts, removes, int_max, get, put, rm, step, run}

-- Every id in the table was handed out: it is not 0 and not above the counter.
abbrev pub Below : ℕ → ℕ → Type 0
Below n k = (0 < k) × (k ≤ n)

module _ {ℓ} {P : Type ℓ} where
  abbrev pub IsValid : ObjectMap P → Type 0
  IsValid m = AllKeys (Below m.object_id) m.pool

  pub find_above : (n k : ℕ) (m : Map P) → AllKeys (Below n) m → n < k → find k m ≡ none
  unfolding find
  find_above n k [] h lt = refl
  find_above n k ((j, v) ∷ m) h lt = ground (arith, find_above n k m h.1)

  find_zero : (n : ℕ) (m : Map P) → AllKeys (Below n) m → find 0 m ≡ none
  unfolding find
  find_zero n [] h = refl
  find_zero n ((j, v) ∷ m) h = ground (arith, find_zero n m h.1)

  pub Below-mono : (n : ℕ) (m : Map P) → AllKeys (Below n) m → AllKeys (Below (n + 1)) m
  Below-mono n [] h = tt
  Below-mono n ((j, v) ∷ m) h = ((h.0.0, omega arith), Below-mono n m h.1)

  -- The id that `put` returns for an object is new and not 0; from then on it gives that object,
  -- and every other id gives what it gave before.
  pub get-put :
      (p : P) (j id : ℕ) (m m' : ObjectMap P)
      → IsValid m
      → put (some p) m ≡ some (id, m')
      → (id ≢ 0) × (get id m ≡ none) × (get j m' ≡ (if id == j then some p else get j m))
  unfolding get put
  get-put p j id m m' v e = ground (
    arith,
    find-insert_new (m.object_id + 1) j p m.pool,
    find_above m.object_id (m.object_id + 1) m.pool v,
  )

  -- `rm` says whether the id named an object; afterwards it names none, and the others what they did.
  pub get-rm :
      (j id : ℕ) (m : ObjectMap P)
      → IsValid m
      → ((rm id m).0 ≡ is_some (get id m))
        × (get j (rm id m).1 ≡ (if id == j then none else get j m))
  unfolding get rm
  get-rm j id m v = ground (arith, find-erase id j m.pool, find_zero m.object_id m.pool v)

  -- What a call keeps, with room for one more id: the table stays valid, the counter grows by one
  -- at most, and an id that was handed out and names nothing goes on naming nothing.
  record Kept (id : ℕ) (m m' : ObjectMap P) : Type ℓ where
    valid : AllKeys (Below m'.object_id) m'.pool
    grows : m.object_id ≤ m'.object_id
    by_one : m'.object_id ≤ m.object_id + 1
    dead : find id m'.pool ≡ none

  step_keeps :
      (id : ℕ) (c : Call P) (m : ObjectMap P)
      → m.object_id < int_max
      → IsValid m
      → id ≤ m.object_id
      → find id m.pool ≡ none
      → (m' : ObjectMap P) × (step c m ≡ some m') × Kept id m m'
  unfolding step put rm
  step_keeps id (puts none) m lt v le e =
      (m, refl, record { valid = v; grows = omega arith; by_one = omega arith; dead = e })
  step_keeps id (puts (some p)) m lt v le e =
      let new = m.object_id + 1 in
      (
        record { pool = insert new p m.pool; object_id = new },
        rw (lt→ltb m.object_id int_max lt),
        record {
          valid =
              insert-AllKeys (Below new) new p m.pool (omega arith, omega arith)
                (Below-mono m.object_id m.pool v);
          grows = omega arith;
          by_one = omega arith;
          dead =
              ground (arith, find-insert_new new id p m.pool, find_above m.object_id new m.pool v);
        },
      )
  step_keeps id (removes k) m lt v le e = elim (Option-cases (find k m.pool)) [
    | inl absent ↦ (
      m,
      rw (absent, rm),
      record { valid = v; grows = omega arith; by_one = omega arith; dead = e },
    )
    | inr (p, present) ↦ (
      record m { pool = erase k m.pool },
      rw (present, rm),
      record {
        valid = erase-AllKeys (Below m.object_id) k m.pool v;
        grows = omega arith;
        by_one = omega arith;
        dead = ground (arith, find-erase k id m.pool);
      },
    )
  ]

  run_keeps :
      (id : ℕ) (cs : List (Call P)) (m : ObjectMap P)
      → m.object_id + length cs ≤ int_max
      → IsValid m
      → id ≤ m.object_id
      → find id m.pool ≡ none
      → (m' : ObjectMap P) × (run cs m ≡ some m') × (find id m'.pool ≡ none)
  unfolding run
  run_keeps id [] m h v le e = (m, refl, e)
  run_keeps id (c ∷ cs) m h v le e =
      let (m₁, stepped, kept) = step_keeps id c m (omega arith) v le e in
      let (m₂, ran, dead) = run_keeps id cs m₁ (omega arith) kept.valid (omega arith) kept.dead in
      (m₂, rw stepped ran, dead)

  -- While the counter of ids has room up to the largest int for all calls of a history, an id that
  -- rm took out of a valid object table names nothing through it, and the history comes to its end.
  pub get-run_rm :
      (id : ℕ) (cs : List (Call P)) (m : ObjectMap P)
      → m.object_id + length cs ≤ int_max
      → IsValid m
      → is_some (get id m) ≡ true
      → (m' : ObjectMap P) × (run (removes id ∷ cs) m ≡ some m') × (get id m' ≡ none)
  unfolding run step rm get
  get-run_rm id cs m h v live = elim (Option-cases (find id m.pool)) [
    | inl absent ↦ absurd (ground arith)
    | inr (p, present) ↦
        let range = find-AllKeys (Below m.object_id) id m.pool v present in
        let m₁ : ObjectMap P = record m { pool = erase id m.pool } in
        let (m₂, ran, dead) =
          run_keeps id cs m₁ (omega arith) (erase-AllKeys (Below m.object_id) id m.pool v) range.1
            (ground (arith, find-erase id id m.pool)) in
        (m₂, rw (present, rm) ran, ground arith)
  ]
