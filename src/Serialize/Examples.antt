-- ===== src/Serialize/Examples.antt =====
-- src/serialize.cc: an array that holds an object with a boxed value, and one that holds itself.
use threadjs_lib.Base.{ℕ, List}
use threadjs_lib.Serialize.{JData, j_string, j_array, item, no_items}
use threadjs_lib.Serialize.Memory.{
  Store, Serialized, new_serialized, delete_serialized, js_save_all,
}
use threadjs_lib.Serialize.Owned.{delete_serialized-js_save_all}
use threadjs_lib.Base.{
  text_eq, ◌≡◌, refl, true, [], ◌∷◌, ◌++◌, some, none, negsuc, arith, decimal_digit,
}
use threadjs_lib.Serialize.{js_copy}
use threadjs_lib.Serialize.Values.{
  Value, Heap, string, number, ref, array, object, boolean_object, integral, name, index,
}
use threadjs_lib.Serialize.Trees.{
  Tree, View, Named, copied, depth, t_array, t_object, t_boolean_object, t_number, t_string, tree,
  no_trees, prop, no_props,
}
use threadjs_lib.Serialize.Copy.{js_copy-copied}
use threadjs_lib.Serialize.Cycles.{element, js_copy-Holds}

-- [-8, {a: "hi", 7: Object(true)}]
abbrev sample : Heap
sample =
    array (number (integral (negsuc 7)) ∷ ref 1 ∷ [])
    ∷ object ((name (97 ∷ []), string (104 ∷ 105 ∷ [])) ∷ (index 7, ref 2) ∷ [])
    ∷ boolean_object true
    ∷ []

abbrev sample_tree : Tree
sample_tree = t_array (
    tree (t_number (integral (negsuc 7))) (
      tree
        (t_object (
          prop (97 ∷ []) (t_string (104 ∷ 105 ∷ []))
            (prop (55 ∷ []) (t_boolean_object true) no_props)))
        no_trees))

sample-View : View 0 sample (ref 0) sample_tree
sample-View = (
  number (integral (negsuc 7)) ∷ ref 1 ∷ [],
  (0, omega arith, refl, refl),
  (
    number (integral (negsuc 7)),
    ref 1 ∷ [],
    refl,
    refl,
    (
      ref 1,
      [],
      refl,
      (
        (name (97 ∷ []), string (104 ∷ 105 ∷ [])) ∷ (index 7, ref 2) ∷ [],
        (1, omega arith, refl, refl),
        (
          name (97 ∷ []),
          string (104 ∷ 105 ∷ []),
          (index 7, ref 2) ∷ [],
          refl,
          refl,
          refl,
          (
            index 7,
            ref 2,
            [],
            refl,
            (omega arith, decimal_digit 7 (omega arith)),
            (2, omega arith, refl, refl),
            refl,
          ),
        ),
      ),
      refl,
    ),
  ),
)

sample-Named : Named sample_tree
unfolding text_eq
sample-Named = (tt, (((omega arith, tt), (refl, tt), tt, ((omega arith, tt), tt, tt, tt)), tt))

js_copy-copied_example :
    (w : Value) × (more : Heap) × (js_copy 3 sample (ref 0) ≡ some (w, sample ++ more))
    × View 3 (sample ++ more) w (copied sample_tree)
unfolding depth
js_copy-copied_example =
    js_copy-copied sample_tree 3 0 sample (ref 0) sample-Named sample-View (omega arith)

abbrev knot : Heap
knot = array (ref 0 ∷ []) ∷ []

js_copy-Holds_example : js_copy 100 knot (ref 0) ≡ none
js_copy-Holds_example =
    js_copy-Holds (λ v. v ≡ ref 0) knot (λ v e. (ref 0, refl, rw e (element 0 [] (ref 0) [] refl)))
      (ref 0) refl 100

-- A text and an array with it, saved one after the other.
abbrev saved_values : List JData
saved_values = j_string (104 ∷ 0 ∷ []) 2 ∷ j_array (item (j_string (105 ∷ 0 ∷ []) 2) no_items) ∷ []

abbrev empty_store : Store
empty_store = record { live = λ x. 0; next = 1 }

delete_serialized-js_save_all_example :
    (ser : Serialized) × (s' s'' : Store) × (js_save_all saved_values new_serialized empty_store
      ≡ some (ser, s'))
    × (delete_serialized ser s' ≡ some s'')
    × ((x : ℕ) → s''.live x ≡ 0)
delete_serialized-js_save_all_example = delete_serialized-js_save_all saved_values empty_store
