-- ===== src/Serialize/Save.antt =====
-- create_data_with_type of src/serialize.cc on a value that is a tree.
use threadjs_lib.Events.{v8val_to_char}
use threadjs_lib.Base.{
  Bool-cases, inl, inr, arith, length-decimal, ◌>>=◌, ℕ, zero, suc, ◌≤◌, ◌≡◌, List, [], ◌∷◌, ◌++◌,
  some, Option, refl, sym, ap, ◌∙◌,
}
use threadjs_lib.Serialize.{
  JData, create_data_with_type, set_items, set_fields, name_of, create_data, j_array, j_object,
}
use threadjs_lib.Serialize.Trees.{
  Tree, Trees, Props, View, Views, ViewProps, saved, saved_items, saved_props, depth, depth_items,
  depth_props, IsKey, At, t_undefined, t_null, t_symbol, t_function, t_boolean, t_boolean_object,
  t_string, t_string_object, t_number, t_number_object, t_date, t_regexp, t_array, t_object,
  no_trees, tree, no_props, prop,
}
use threadjs_lib.Serialize.Values.{
  is_int32, is_uint32, Value, Heap, Key, name, index, ref, Cell, Number, number,
}

-- create_data on an object, from what the heap says of it.
on_cell :
    (f lo : ℕ) (h : Heap) {v : Value} {c : Cell} {o : Option JData}
    → At lo h v c
    → ((a : ℕ) → create_data (create_data_with_type f h) (ref a) (some c) ≡ o)
    → create_data_with_type (suc f) h v ≡ o
unfolding create_data_with_type
on_cell f lo h (a, _, p, q) r = rw p (ap (create_data (create_data_with_type f h) (ref a)) q ∙ r a)

number_case :
    (f : ℕ) (h : Heap) (n : Number)
    → create_data_with_type (suc f) h (number n) ≡ some (saved (t_number n))
unfolding create_data_with_type saved create_data
number_case f h n = elim (Bool-cases (is_int32 (number n))) [
  | inl small ↦ rw small refl
  | inr big ↦ rw big (elim (Bool-cases (is_uint32 (number n))) [
    | inl small ↦ rw small refl
    | inr big ↦ rw big refl
  ])
]

key_case : (k : Key) (s : List ℕ) → IsKey k s → name_of k ≡ some (s ++ 0 ∷ [])
unfolding name_of v8val_to_char
key_case (name t) s h = rw h refl
key_case (index n) s h = rw (sym h.1) (ground (arith, length-decimal n 9 (omega (arith, h.0))))

mutual
  unfolding create_data_with_type create_data saved depth set_items set_fields

  pub save_tree :
      (t : Tree) (f lo : ℕ) (h : Heap) (v : Value)
      → View lo h v t
      → depth t ≤ f
      → create_data_with_type (suc f) h v ≡ some (saved t)
  save_tree t_undefined f lo h v e _ = rw e refl
  save_tree t_null f lo h v e _ = rw e refl
  save_tree t_symbol f lo h v e _ = rw e refl
  save_tree t_function f lo h v at _ = on_cell f lo h at (λ _. refl)
  save_tree (t_boolean b) f lo h v e _ = rw e refl
  save_tree (t_boolean_object b) f lo h v at _ = on_cell f lo h at (λ _. refl)
  save_tree (t_string s) f lo h v e _ = rw e refl
  save_tree (t_string_object s) f lo h v at _ = on_cell f lo h at (λ _. refl)
  save_tree (t_number n) f lo h v e _ = rw e (number_case f h n)
  save_tree (t_number_object n) f lo h v at _ = on_cell f lo h at (λ _. refl)
  save_tree (t_date n) f lo h v at _ = on_cell f lo h at (λ _. refl)
  save_tree (t_regexp s fl) f lo h v at _ = on_cell f lo h at (λ _. refl)
  save_tree (t_array ts) f lo h v (vs, at, views) le =
      on_cell f lo h at
        (λ _. ap (λ o. o >>= λ ds. some (j_array ds)) (save_items ts f lo h vs views le))
  save_tree (t_object fs) f lo h v (ps, at, views) le =
      on_cell f lo h at
        (λ _. ap (λ o. o >>= λ ds. some (j_object ds)) (save_props fs f lo h ps views le))

  save_items :
      (ts : Trees) (f lo : ℕ) (h : Heap) (vs : List Value)
      → Views lo h vs ts
      → depth_items ts ≤ f
      → set_items (create_data_with_type f h) vs ≡ some (saved_items ts)
  save_items no_trees f lo h vs e _ = rw e refl
  save_items (tree t ts) zero lo h vs views le = ground arith
  save_items (tree t ts) (suc f) lo h vs (v, vs', e, view, views) le = rw e (
      rw
        (
          save_tree t f lo h v view (omega arith),
          save_items ts (suc f) lo h vs' views (omega arith),
        )
        refl)

  save_props :
      (fs : Props) (f lo : ℕ) (h : Heap) (ps : List (Key × Value))
      → ViewProps lo h ps fs
      → depth_props fs ≤ f
      → set_fields (create_data_with_type f h) ps ≡ some (saved_props fs)
  save_props no_props f lo h ps e _ = rw e refl
  save_props (prop s t fs) zero lo h ps views le = ground arith
  save_props (prop s t fs) (suc f) lo h ps (k, v, ps', e, key, view, views) le = rw e (
      rw
        (
          key_case k s key,
          save_tree t f lo h v view (omega arith),
          save_props fs (suc f) lo h ps' views (omega arith),
        )
        refl)
