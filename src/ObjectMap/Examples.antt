-- ===== src/ObjectMap/Examples.antt =====
-- src/data.h, class ObjectMap: runs on a table of two objects.
use threadjs_lib.Base.{ℕ, ◌≡◌, refl, [], ◌∷◌, none, some, arith}
use threadjs_lib.StdMap.{find, insert}
use threadjs_lib.ObjectMap.{ObjectMap, puts, removes, get, put, run}
use threadjs_lib.ObjectMap.Handles.{get-run_rm}

-- Objects 70 and 80 under the ids 1 and 2.
abbrev two : ObjectMap ℕ
two = record { pool = (1, 70) ∷ (2, 80) ∷ []; object_id = 2 }

abbrev three : ObjectMap ℕ
three = record { pool = (1, 70) ∷ (2, 80) ∷ (3, 90) ∷ []; object_id = 3 }

put-two : put (some 90) two ≡ some (3, three)
unfolding put insert
put-two = refl

get-run_rm_example :
    (m : ObjectMap ℕ) × (run (removes 1 ∷ puts (some 90) ∷ puts none ∷ []) two ≡ some m)
    × (get 1 m ≡ none)
unfolding get find
get-run_rm_example =
    get-run_rm 1 (puts (some 90) ∷ puts none ∷ []) two (omega arith) (omega arith) refl
