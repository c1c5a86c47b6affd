-- ===== src/ObjectMap.antt =====
-- src/data.h, class ObjectMap: the table by which an event handle's `data` field names the object
-- behind it. Each method holds the lock for its whole body, so a call is one step.
pub mod Handles
mod Examples
use threadjs_lib.Base.{
  ℕ, ◌+◌, ◌-◌, ◌^◌, ltb, ◌==◌, Bool, true, false, List, [], ◌∷◌, Option, none, some, if◌then◌else◌,
  ◌>>=◌,
}
use threadjs_lib.StdMap.{Map, find, insert, erase}

-- The largest `int`, the type of an id.
abbrev pub int_max : ℕ
int_max = 2 ^ 31 - 1

pub record ObjectMap {ℓ} (P : Type ℓ) : Type ℓ where
  pub pool : Map P
  pub object_id : ℕ

module _ {ℓ} {P : Type ℓ} where
  unfoldable pub empty : ObjectMap P
  empty = record { pool = []; object_id = 0 }

  -- The pointer, if the call returns true.
  unfoldable pub get : ℕ → ObjectMap P → Option P
  get id m = if id == 0 then none else find id m.pool

  -- The id, 0 for the null pointer; `none` is the overflow of the counter, which is undefined in C++.
  unfoldable pub put : Option P → ObjectMap P → Option (ℕ × ObjectMap P)
  put none m = some (0, m)
  put (some p) m =
      let id = m.object_id + 1 in
      if ltb m.object_id int_max
      then some (id, record { pool = insert id p m.pool; object_id = id })
      else none

  -- Whether the entry was there.
  unfoldable pub rm : ℕ → ObjectMap P → Bool × ObjectMap P
  rm id m = elim (find id m.pool) [
    | none ↦ (false, m)
    | some _ ↦ (true, record m { pool = erase id m.pool })
  ]

-- The calls that change the table.
pub data Call {ℓ} (P : Type ℓ) : Type ℓ where
  puts : Option P → Call P
  removes : ℕ → Call P

module _ {ℓ} {P : Type ℓ} where
  unfoldable pub step : Call P → ObjectMap P → Option (ObjectMap P)
  step (puts p) m = put p m >>= λ (_, m'). some m'
  step (removes id) m = some (rm id m).1

  unfoldable pub run : List (Call P) → ObjectMap P → Option (ObjectMap P)
  run [] m = some m
  run (c ∷ cs) m = step c m >>= run cs
