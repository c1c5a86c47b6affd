-- ===== src/Serialize/Turns.antt =====
-- src/serialize.cc: one turn of the loops of JArray::restore and JObject::restore.
use threadjs_lib.Base.{
  ℕ, suc, ◌+◌, ◌≤◌, ◌≡◌, refl, sym, ap, ◌∙◌, subst, List, [], ◌∷◌, ◌++◌, length, arith,
  append_assoc, append-nil, length-append, All,
}
use threadjs_lib.Events.Text.{NonZero}
use threadjs_lib.Serialize.{JItems, JFields, restore_items, restore_fields, read_name}
use threadjs_lib.Serialize.Heaps.{
  Keeps, get_elem?_last, Keeps-behind, View-Keeps, Views-Keeps, ViewProps-Keeps, array_set_at,
  Fresh, object_set_new,
}
use threadjs_lib.Serialize.Values.{
  Value, ref, Cell, array, object, Key, name, Heap, array_set, object_set,
}
use threadjs_lib.Serialize.Trees.{
  Tree, Trees, Props, At, View, Views, ViewProps, t_array, t_object, tree, prop,
}
use threadjs_lib.Serialize.Scalars.{name_back}

-- What `restore` promises: a value that is the tree in new cells, behind those of the heap.
abbrev pub Gives : Value × Heap → Heap → Tree → Type 0
Gives r h t = (v : Value) × (more : Heap) × (r ≡ (v, h ++ more)) × View (length h) (h ++ more) v t

pub bare : (v : Value) (h : Heap) (t : Tree) → View (length h) (h ++ []) v t → Gives (v, h) h t
bare v h t view = (v, [], rw (append-nil h) refl, view)

pub boxed : (c : Cell) (h : Heap) → At (length h) (h ++ c ∷ []) (ref (length h)) c
boxed c h = (length h, omega arith, refl, get_elem?_last h c [])

-- The loops of JArray::restore and JObject::restore: the array or object stands behind `h`, `vs` or
-- `ps` is in it, and the rest of it becomes the trees.
abbrev pub GivesItems : (h more : Heap) (vs : List Value) (ts : Trees) → Heap → Type 0
GivesItems h more vs ts r =
    (us : List Value) × (last : Heap) × (r ≡ h ++ array (vs ++ us) ∷ (more ++ last))
    × Views (suc (length h)) (h ++ array (vs ++ us) ∷ (more ++ last)) us ts

abbrev pub GivesProps : (h more : Heap) (ps : List (Key × Value)) (fs : Props) → Heap → Type 0
GivesProps h more ps fs r =
    (qs : List (Key × Value)) × (last : Heap) × (r ≡ h ++ object (ps ++ qs) ∷ (more ++ last))
    × ViewProps (suc (length h)) (h ++ object (ps ++ qs) ∷ (more ++ last)) qs fs

-- What one turn restored stays in sight of the next ones.
View-behind :
    (h more new last : Heap) (c c' : Cell) (v : Value) (t : Tree)
    → View (length (h ++ c ∷ more)) ((h ++ c ∷ more) ++ new) v t
    → View (suc (length h)) (h ++ c' ∷ (more ++ (new ++ last))) v t
View-behind h more new last c c' v t view =
    View-Keeps (length (h ++ c ∷ more)) (suc (length h)) (h ++ c ∷ (more ++ new)) _ behind
      (λ i d le at. keeps i d (omega (arith, behind)) at) t v
      (subst (λ x. View (length (h ++ c ∷ more)) x v t) (append_assoc h (c ∷ more) new) view)
  where
    behind : suc (length h) ≤ length (h ++ c ∷ more)
    behind = omega (arith, length-append h (c ∷ more))

    keeps : Keeps (suc (length h)) (h ++ c ∷ (more ++ new)) (h ++ c' ∷ (more ++ (new ++ last)))
    keeps = rw (sym (append_assoc more new last)) (Keeps-behind h c c' (more ++ new) last)

item_heap :
    (h more new last : Heap) (vs us : List Value) (v : Value)
    → h ++ array ((vs ++ v ∷ []) ++ us) ∷ ((more ++ new) ++ last)
      ≡ h ++ array (vs ++ v ∷ us) ∷ (more ++ (new ++ last))
item_heap h more new last vs us v =
    rw (append_assoc vs (v ∷ []) us, append_assoc more new last) refl

prop_heap :
    (h more new last : Heap) (ps qs : List (Key × Value)) (p : Key × Value)
    → h ++ object ((ps ++ p ∷ []) ++ qs) ∷ ((more ++ new) ++ last)
      ≡ h ++ object (ps ++ p ∷ qs) ∷ (more ++ (new ++ last))
prop_heap h more new last ps qs p =
    rw (append_assoc ps (p ∷ []) qs, append_assoc more new last) refl

-- One turn of a loop before the others.
pub add_item :
    (h more new : Heap) (vs : List Value) (v : Value) (t : Tree) (ts : Trees) (c : Cell) (r : Heap)
    → View (length (h ++ c ∷ more)) ((h ++ c ∷ more) ++ new) v t
    → GivesItems h (more ++ new) (vs ++ v ∷ []) ts r
    → GivesItems h more vs (tree t ts) r
add_item h more new vs v t ts c r view (us, last, e, views) =
    let eq = item_heap h more new last vs us v in
    (
      v ∷ us,
      new ++ last,
      e ∙ eq,
      (
        v,
        us,
        refl,
        View-behind h more new last c _ v t view,
        subst (λ x. Views (suc (length h)) x us ts) eq views,
      ),
    )

pub add_prop :
    (h more new : Heap) (ps : List (Key × Value)) (s : List ℕ) (v : Value) (t : Tree) (fs : Props)
    (c : Cell) (r : Heap)
    → View (length (h ++ c ∷ more)) ((h ++ c ∷ more) ++ new) v t
    → GivesProps h (more ++ new) (ps ++ (name s, v) ∷ []) fs r
    → GivesProps h more ps (prop s t fs) r
add_prop h more new ps s v t fs c r view (qs, last, e, views) =
    let eq = prop_heap h more new last ps qs (name s, v) in
    (
      (name s, v) ∷ qs,
      new ++ last,
      e ∙ eq,
      (
        name s,
        v,
        qs,
        refl,
        refl,
        View-behind h more new last c _ v t view,
        subst (λ x. ViewProps (suc (length h)) x qs fs) eq views,
      ),
    )

pub Gives-array :
    (h : Heap) (ts : Trees) (r : Heap)
    → GivesItems h [] [] ts r
    → Gives (ref (length h), r) h (t_array ts)
Gives-array h ts r (us, last, e, views) = (
  ref (length h),
  array us ∷ last,
  ap (λ x. (ref (length h), x)) e,
  (
    us,
    (length h, omega arith, refl, get_elem?_last h (array us) last),
    Views-Keeps (suc (length h)) (length h) _ _ (omega arith) (λ i d le at. at) ts us views,
  ),
)

pub Gives-object :
    (h : Heap) (fs : Props) (r : Heap)
    → GivesProps h [] [] fs r
    → Gives (ref (length h), r) h (t_object fs)
Gives-object h fs r (qs, last, e, views) = (
  ref (length h),
  object qs ∷ last,
  ap (λ x. (ref (length h), x)) e,
  (
    qs,
    (length h, omega arith, refl, get_elem?_last h (object qs) last),
    ViewProps-Keeps (suc (length h)) (length h) _ _ (omega arith) (λ i d le at. at) fs qs views,
  ),
)

pub item_turn :
    (h more new : Heap) (vs us : List Value) (u v : Value) (ds : JItems)
    → restore_items ds
        (length h)
        (length vs + 1)
        (array_set (length h) (length vs) v ((h ++ array (vs ++ u ∷ us) ∷ more) ++ new))
      ≡ restore_items ds
          (length h)
          (length (vs ++ v ∷ []))
          (h ++ array ((vs ++ v ∷ []) ++ us) ∷ (more ++ new))
item_turn h more new vs us u v ds =
    rw
      (
        append_assoc h (array (vs ++ u ∷ us) ∷ more) new,
        array_set_at h (more ++ new) vs us u v,
        append_assoc vs (v ∷ []) us,
        length-append vs (v ∷ []),
      )
      refl

pub prop_turn :
    (h more new : Heap) (s : List ℕ) (t : Tree) (fs : Props) (v : Value) (ps : List (Key × Value))
    (ds : JFields)
    → All NonZero s
    → Fresh ps (prop s t fs)
    → restore_fields ds
        (length h)
        (object_set (length h) (read_name (s ++ 0 ∷ [])) v ((h ++ object ps ∷ more) ++ new))
      ≡ restore_fields ds (length h) (h ++ object (ps ++ (name s, v) ∷ []) ∷ (more ++ new))
prop_turn h more new s t fs v ps ds clean fresh =
    rw
      (
        name_back s clean,
        append_assoc h (object ps ∷ more) new,
        object_set_new h (more ++ new) s t fs v ps fresh,
      )
      refl
