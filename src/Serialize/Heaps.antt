-- ===== src/Serialize/Heaps.antt =====
-- The heap while a value is restored: what is written where, and which trees are seen in it.
use threadjs_lib.Base.{
  ℕ, zero, suc, ◌≤◌, ◌≡◌, refl, ap, List, [], ◌∷◌, ◌++◌, some, get_elem?, length, arith,
}
use threadjs_lib.Serialize.Values.{
  Value, Cell, array, object, Key, name, Heap, set_cell, put_element, array_set, object_set,
  put_property, key_text,
}
use threadjs_lib.Serialize.Trees.{
  Tree, Trees, Props, At, View, Views, ViewProps, Apart, t_undefined, t_null, t_symbol, t_function,
  t_boolean, t_boolean_object, t_string, t_string_object, t_number, t_number_object, t_date,
  t_regexp, t_array, t_object, no_trees, tree, no_props, prop,
}

-- From `lo` on, what stands in the one heap stands in the other.
abbrev pub Keeps : ℕ → Heap → Heap → Type 0
Keeps lo h h' = (i : ℕ) (c : Cell) → lo ≤ i → get_elem? h i ≡ some c → get_elem? h' i ≡ some c

pub get_elem?_last :
    (h : Heap) (c : Cell) (more : Heap) → get_elem? (h ++ c ∷ more) (length h) ≡ some c
get_elem?_last [] c more = refl
get_elem?_last (d ∷ h) c more = get_elem?_last h c more

pub get_elem?_append :
    (h more : Heap) (i : ℕ) (c : Cell) → get_elem? h i ≡ some c → get_elem? (h ++ more) i ≡ some c
get_elem?_append [] more i c e = ground arith
get_elem?_append (d ∷ h) more zero c e = e
get_elem?_append (d ∷ h) more (suc i) c e = get_elem?_append h more i c e

-- A change of the cell behind `h`, and growth, touch nothing behind that cell.
pub Keeps-behind :
    (h : Heap) (c c' : Cell) (more last : Heap)
    → Keeps (suc (length h)) (h ++ c ∷ more) (h ++ c' ∷ (more ++ last))
Keeps-behind [] c c' more last zero d le e = ground arith
Keeps-behind [] c c' more last (suc i) d le e = get_elem?_append more last i d e
Keeps-behind (b ∷ h) c c' more last zero d le e = ground arith
Keeps-behind (b ∷ h) c c' more last (suc i) d le e =
    Keeps-behind h c c' more last i d (omega arith) e

-- A tree that is seen from `lo` on is seen where that part of the heap is kept.
module _ (lo lo' : ℕ) (h h' : Heap) (le : lo' ≤ lo) (k : Keeps lo h h') where
  At-Keeps : (v : Value) (c : Cell) → At lo h v c → At lo' h' v c
  At-Keeps v c (a, from, e, at) = (a, omega arith, e, k a _ from at)

  mutual
    pub View-Keeps : (t : Tree) (v : Value) → View lo h v t → View lo' h' v t
    View-Keeps t_undefined _ e = e
    View-Keeps t_null _ e = e
    View-Keeps t_symbol _ e = e
    View-Keeps t_function _ at = At-Keeps _ _ at
    View-Keeps (t_boolean b) _ e = e
    View-Keeps (t_boolean_object b) _ at = At-Keeps _ _ at
    View-Keeps (t_string s) _ e = e
    View-Keeps (t_string_object s) _ at = At-Keeps _ _ at
    View-Keeps (t_number n) _ e = e
    View-Keeps (t_number_object n) _ at = At-Keeps _ _ at
    View-Keeps (t_date n) _ at = At-Keeps _ _ at
    View-Keeps (t_regexp s fl) _ at = At-Keeps _ _ at
    View-Keeps (t_array ts) us (vs, at, views) = (vs, At-Keeps _ _ at, Views-Keeps ts _ views)
    View-Keeps (t_object fs) us (ps, at, views) = (ps, At-Keeps _ _ at, ViewProps-Keeps fs _ views)

    pub Views-Keeps : (ts : Trees) (vs : List Value) → Views lo h vs ts → Views lo' h' vs ts
    Views-Keeps no_trees _ e = e
    Views-Keeps (tree t ts) _ (v, vs, e, view, views) =
        (v, vs, e, View-Keeps t _ view, Views-Keeps ts _ views)

    pub ViewProps-Keeps :
        (fs : Props) (ps : List (Key × Value)) → ViewProps lo h ps fs → ViewProps lo' h' ps fs
    ViewProps-Keeps no_props _ e = e
    ViewProps-Keeps (prop s t fs) _ (key, v, ps, e, is, view, views) =
        (key, v, ps, e, is, View-Keeps t _ view, ViewProps-Keeps fs _ views)

set_cell_at :
    (h : Heap) (c c' : Cell) (more : Heap) → set_cell (h ++ c ∷ more) (length h) c' ≡ h ++ c' ∷ more
unfolding set_cell
set_cell_at [] c c' more = refl
set_cell_at (d ∷ h) c c' more = ap (◌∷◌ d) (set_cell_at h c c' more)

put_element_at :
    (vs : List Value) (u v : Value) (us : List Value)
    → put_element (length vs) v (vs ++ u ∷ us) ≡ vs ++ v ∷ us
unfolding put_element
put_element_at [] u v us = refl
put_element_at (w ∷ vs) u v us = ap (◌∷◌ w) (put_element_at vs u v us)

-- A write to the array behind `h`, at the index behind `vs`.
pub array_set_at :
    (h more : Heap) (vs us : List Value) (u v : Value)
    → array_set (length h) (length vs) v (h ++ array (vs ++ u ∷ us) ∷ more)
      ≡ h ++ array (vs ++ v ∷ us) ∷ more
unfolding array_set
array_set_at h more vs us u v =
    rw (array_set, get_elem?_last h (array (vs ++ u ∷ us)) more, put_element_at vs u v us)
      (set_cell_at h _ _ more)

-- The properties have none of the names that are still to come.
abbrev pub Fresh : List (Key × Value) → Props → Type 0
Fresh [] fs = Unit
Fresh ((k, u) ∷ ps) fs = Apart (key_text k) fs × Fresh ps fs

put_property_new :
    (s : List ℕ) (t : Tree) (fs : Props) (v : Value) (ps : List (Key × Value))
    → Fresh ps (prop s t fs)
    → put_property s v ps ≡ ps ++ (name s, v) ∷ []
unfolding put_property
put_property_new s t fs v [] h = refl
put_property_new s t fs v ((k, u) ∷ ps) h =
    rw h.0.0 (ap (◌∷◌ (k, u)) (put_property_new s t fs v ps h.1))

-- A write of a new property to the object behind `h`.
pub object_set_new :
    (h more : Heap) (s : List ℕ) (t : Tree) (fs : Props) (v : Value) (ps : List (Key × Value))
    → Fresh ps (prop s t fs)
    → object_set (length h) s v (h ++ object ps ∷ more)
      ≡ h ++ object (ps ++ (name s, v) ∷ []) ∷ more
unfolding object_set
object_set_new h more s t fs v ps f =
    rw (object_set, get_elem?_last h (object ps) more, put_property_new s t fs v ps f)
      (set_cell_at h _ _ more)

pub Fresh-append :
    (s : List ℕ) (t : Tree) (fs : Props) (v : Value) (ps : List (Key × Value))
    → Fresh ps (prop s t fs)
    → Apart s fs
    → Fresh (ps ++ (name s, v) ∷ []) fs
Fresh-append s t fs v [] h a = (a, tt)
Fresh-append s t fs v ((k, u) ∷ ps) h a = (h.0.1, Fresh-append s t fs v ps h.1 a)
