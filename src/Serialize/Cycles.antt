-- ===== src/Serialize/Cycles.antt =====
-- Values that contain themselves, in src/serialize.cc: create_data_with_type does not look for them.
use threadjs_lib.Base.{
  ℕ, zero, suc, ◌≡◌, refl, ap, ◌∙◌, List, [], ◌∷◌, ◌++◌, Option, some, none, get_elem?, ◌>>=◌,
}
use threadjs_lib.Serialize.{
  item, field, create_data_with_type, create_data, name_of, set_items, set_fields, JData, j_array,
  j_object, js_copy,
}
use threadjs_lib.Serialize.Values.{Value, Heap, Key, ref, array, object}

-- `w` is an element or the value of a property of the array or object `v`.
pub data Holds (h : Heap) : Value → Value → Type 0 where
  element :
      (a : ℕ) (us : List Value) (w : Value) (vs : List Value)
      → get_elem? h a ≡ some (array (us ++ w ∷ vs))
      → Holds h (ref a) w
  property :
      (a : ℕ) (ps : List (Key × Value)) (k : Key) (w : Value) (qs : List (Key × Value))
      → get_elem? h a ≡ some (object (ps ++ (k, w) ∷ qs))
      → Holds h (ref a) w

bind_none :
    {A B : Type 0} (o : Option A) (g : A → Option B) → ((a : A) → g a ≡ none) → (o >>= g) ≡ none
bind_none none g e = refl
bind_none (some a) g e = e a

set_items_stuck :
    (again : Value → Option JData) (us : List Value) (w : Value) (vs : List Value)
    → again w ≡ none
    → set_items again (us ++ w ∷ vs) ≡ none
unfolding set_items
set_items_stuck again [] w vs e = rw e refl
set_items_stuck again (u ∷ us) w vs e =
    bind_none (again u) _
      (λ d. ap (λ o. o >>= λ ds. some (item d ds)) (set_items_stuck again us w vs e))

set_fields_stuck :
    (again : Value → Option JData) (ps : List (Key × Value)) (k : Key) (w : Value)
    (qs : List (Key × Value))
    → again w ≡ none
    → set_fields again (ps ++ (k, w) ∷ qs) ≡ none
unfolding set_fields
set_fields_stuck again [] k w qs e = bind_none (name_of k) _ (λ n. rw e refl)
set_fields_stuck again ((l, u) ∷ ps) k w qs e = bind_none (name_of l) _ (λ n.
    bind_none (again u) _
      (λ d. ap (λ o. o >>= λ ds. some (field n d ds)) (set_fields_stuck again ps k w qs e)))

step_stuck :
    (f : ℕ) (h : Heap) (v w : Value)
    → Holds h v w
    → create_data_with_type f h w ≡ none
    → create_data_with_type (suc f) h v ≡ none
unfolding create_data_with_type create_data
step_stuck f h _ w (element a us _ vs at) e =
    ap (create_data (create_data_with_type f h) (ref a)) at
    ∙ ap (λ o. o >>= λ ds. some (j_array ds))
        (set_items_stuck (create_data_with_type f h) us w vs e)
step_stuck f h _ w (property a ps k _ qs at) e =
    ap (create_data (create_data_with_type f h) (ref a)) at
    ∙ ap (λ o. o >>= λ ds. some (j_object ds))
        (set_fields_stuck (create_data_with_type f h) ps k w qs e)

module _ (P : Value → Type 0) (h : Heap)
    (on : (v : Value) → P v → (w : Value) × P w × Holds h v w) where
  kind_stuck : (f : ℕ) (v : Value) → P v → create_data_with_type f h v ≡ none
  unfolding create_data_with_type
  kind_stuck zero v p = refl
  kind_stuck (suc f) v p = let (w, q, holds) = on v p in step_stuck f h v w holds (kind_stuck f w q)

  -- If each value of a kind holds one of the kind again, as those on a cycle do, then copying a value
  -- of the kind never comes to an end, whatever the fuel.
  pub js_copy-Holds : (v : Value) → P v → (f : ℕ) → js_copy f h v ≡ none
  unfolding js_copy
  js_copy-Holds v p f = rw (kind_stuck f v p) refl
