-- ===== src/Serialize/Copy.antt =====
-- js_save and then js_load of src/serialize.cc, as j_test_ser calls them.
use threadjs_lib.Base.{
  ℕ, zero, suc, ◌<◌, ◌≡◌, refl, ap, subst, List, [], ◌∷◌, ◌++◌, some, length, All, arith,
  append_assoc,
}
use threadjs_lib.Events.Text.{NonZero, before_nul_first}
use threadjs_lib.Events.{v8val_to_char}
use threadjs_lib.Serialize.{js_copy, name_of, read_name}
use threadjs_lib.Serialize.Save.{save_tree}
use threadjs_lib.Serialize.Restore.{restore_tree}
use threadjs_lib.Serialize.Values.{Value, Heap, name}
use threadjs_lib.Serialize.Trees.{
  Tree, Trees, Props, View, Apart, Named, NamedItems, NamedProps, copied, copied_items,
  copied_props, depth, depth_items, depth_props, t_undefined, t_null, t_symbol, t_function,
  t_boolean, t_boolean_object, t_string, t_string_object, t_number, t_number_object, t_date,
  t_regexp, t_array, t_object, no_trees, tree, no_props, prop,
}

-- A value that is a tree, in which no object has a name twice and no name has a NUL, is copied with
-- any fuel above its depth. The copy is a value of the tree `copied t`, in cells of its own behind
-- the heap, of which no cell is changed.
pub js_copy-copied :
    (t : Tree) (f lo : ℕ) (h : Heap) (v : Value)
    → Named t
    → View lo h v t
    → depth t < f
    → (w : Value) × (more : Heap) × (js_copy f h v ≡ some (w, h ++ more))
      × View (length h) (h ++ more) w (copied t)
unfolding js_copy
js_copy-copied t zero lo h v named view le = ground arith
js_copy-copied t (suc f) lo h v named view le =
    let (w, more, e, copy) = restore_tree t h named in
    (w, more, rw (save_tree t f lo h v view (omega arith), e) refl, copy)

mutual
  unfolding copied

  copied_twice : (t : Tree) → copied (copied t) ≡ copied t
  copied_twice t_undefined = refl
  copied_twice t_null = refl
  copied_twice t_symbol = refl
  copied_twice t_function = refl
  copied_twice (t_boolean b) = refl
  copied_twice (t_boolean_object b) = refl
  copied_twice (t_string s) = refl
  copied_twice (t_string_object s) = refl
  copied_twice (t_number n) = refl
  copied_twice (t_number_object n) = refl
  copied_twice (t_date n) = refl
  copied_twice (t_regexp s fl) = refl
  copied_twice (t_array ts) = ap t_array (items_twice ts)
  copied_twice (t_object fs) = ap t_object (props_twice fs)

  items_twice : (ts : Trees) → copied_items (copied_items ts) ≡ copied_items ts
  items_twice no_trees = refl
  items_twice (tree t ts) = rw (copied_twice t, items_twice ts) refl

  props_twice : (fs : Props) → copied_props (copied_props fs) ≡ copied_props fs
  props_twice no_props = refl
  props_twice (prop s t fs) = rw (copied_twice t, props_twice fs) refl

Apart-copied : (s : List ℕ) (fs : Props) → Apart s fs → Apart s (copied_props fs)
unfolding copied
Apart-copied s no_props a = tt
Apart-copied s (prop s' t fs) (new, others) = (new, Apart-copied s fs others)

mutual
  unfolding copied depth

  copied_fits : (t : Tree) → Named t → Named (copied t) × (depth (copied t) ≡ depth t)
  copied_fits t_undefined n = (tt, refl)
  copied_fits t_null n = (tt, refl)
  copied_fits t_symbol n = (tt, refl)
  copied_fits t_function n = (tt, refl)
  copied_fits (t_boolean b) n = (tt, refl)
  copied_fits (t_boolean_object b) n = (tt, refl)
  copied_fits (t_string s) n = (tt, refl)
  copied_fits (t_string_object s) n = (tt, refl)
  copied_fits (t_number m) n = (tt, refl)
  copied_fits (t_number_object m) n = (tt, refl)
  copied_fits (t_date m) n = (tt, refl)
  copied_fits (t_regexp s fl) n = (tt, refl)
  copied_fits (t_array ts) n = items_fit ts n
  copied_fits (t_object fs) n = props_fit fs n

  items_fit :
      (ts : Trees)
      → NamedItems ts
      → NamedItems (copied_items ts) × (depth_items (copied_items ts) ≡ depth_items ts)
  items_fit no_trees n = (tt, refl)
  items_fit (tree t ts) (n, others) =
      let (a, d) = copied_fits t n in let (b, e) = items_fit ts others in ((a, b), rw (d, e) refl)

  props_fit :
      (fs : Props)
      → NamedProps fs
      → NamedProps (copied_props fs) × (depth_props (copied_props fs) ≡ depth_props fs)
  props_fit no_props n = (tt, refl)
  props_fit (prop s t fs) (clean, apart, n, others) =
      let (a, d) = copied_fits t n in
      let (b, e) = props_fit fs others in ((clean, Apart-copied s fs apart, a, b), rw (d, e) refl)

-- A copy of a value that is a tree, in which no object has a name twice and no name has a NUL, made
-- with fuel above its depth, is copied to a value of the same tree as the copy; the cells of the
-- copy stay as they are.
pub js_copy-js_copy :
    (t : Tree) (f lo : ℕ) (h : Heap) (v : Value)
    → Named t
    → View lo h v t
    → depth t < f
    → (w u : Value) × (more last : Heap) × (js_copy f h v ≡ some (w, h ++ more))
      × (js_copy f (h ++ more) w ≡ some (u, (h ++ more) ++ last))
      × View (length h) (h ++ more) w (copied t)
      × View (length (h ++ more)) ((h ++ more) ++ last) u (copied t)
js_copy-js_copy t f lo h v named view le =
    let (w, more, e, copy) = js_copy-copied t f lo h v named view le in
    let (named', d) = copied_fits t named in
    let (u, last, e', copy') =
      js_copy-copied (copied t) f (length h) (h ++ more) w named' copy (rw d le) in
    (
      w,
      u,
      more,
      last,
      e,
      e',
      copy,
      subst (View (length (h ++ more)) ((h ++ more) ++ last) u) (copied_twice t) copy',
    )

-- A property whose name has a NUL is copied under the part of the name before it.
pub read_name-name_of :
    (s u : List ℕ)
    → All NonZero s
    → (n : List ℕ) × (name_of (name (s ++ 0 ∷ u)) ≡ some n) × (read_name n ≡ s)
unfolding name_of v8val_to_char
read_name-name_of s u h = (
  s ++ 0 ∷ (u ++ 0 ∷ []),
  ap some (append_assoc s (0 ∷ u) (0 ∷ [])),
  rw (read_name, before_nul_first s (u ++ 0 ∷ []) h) refl,
)
