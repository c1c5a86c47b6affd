-- ===== src/Serialize.antt =====
-- src/serialize.cc and src/serialize.h: a copy of a JavaScript value as a tree of JData, and back.
-- The JavaScript heap is a list of cells, and an object is its place there; a property that runs
-- code (a getter, a proxy) is not modelled. A number is an integer, -0 excepted, or any other
-- double by its bits. `new` does not fail.
pub mod Values
pub mod Trees
pub mod Save
pub mod Heaps
pub mod Scalars
pub mod Turns
pub mod Restore
pub mod Copy
pub mod Cycles
pub mod Memory
pub mod Owned
mod Examples
use Values.{
  Value, undefined, null, boolean, string, number, symbol, ref, Cell, array, object, regexp, date,
  Number, Key, index, name, Heap, cell_of, is_undefined, is_null, is_boolean, is_boolean_object,
  is_string, is_string_object, is_regexp, is_int32, is_uint32, is_number, is_number_object, is_date,
  is_array, is_function, is_object, is_true, boolean_value, string_value, object_string, source,
  flags, number_value, object_number, date_value, elements, properties, int32_value, uint32_value,
  integral, alloc, holes, array_set, object_set,
}
use threadjs_lib.Base.{
  ℕ, zero, suc, ◌+◌, ◌-◌, leb, Bool, true, false, List, [], ◌∷◌, ◌++◌, Option, none, some, ℤ, pos,
  if◌then◌else◌, ◌>>=◌, length, take, decimal,
}
use threadjs_lib.Events.{v8val_to_char, before_nul}

-- The classes below JData, with their fields.
mutual
  pub data JData : Type 0 where
    j_undefined j_null j_function : JData
    j_boolean j_boolean_object : Bool → JData
    j_string j_string_object : (value : List ℕ) (len : ℕ) → JData
    j_regexp : (value : List ℕ) (len : ℕ) (flags : ℕ) → JData
    j_int32 : ℤ → JData
    j_uint32 : ℕ → JData
    j_date j_number j_number_object : Number → JData
    j_array : JItems → JData
    j_object : JFields → JData

  -- `value` of a JArray, and `name` with `value` of a JObject; `size` is their number.
  pub data JItems : Type 0 where
    no_items : JItems
    item : JData → JItems → JItems

  pub data JFields : Type 0 where
    no_fields : JFields
    field : (name : List ℕ) → JData → JFields → JFields

-- The name of a property in a buffer of its own. An index is printed by sprintf into 20 chars;
-- `none` is a write behind them.
unfoldable pub name_of : Key → Option (List ℕ)
unfolding v8val_to_char
name_of (name s) = some (v8val_to_char s).0
name_of (index n) = if leb (length (decimal n) + 1) 20 then some (decimal n ++ 0 ∷ []) else none

-- The loops of JArray::set and JObject::set.
unfoldable pub set_items : (Value → Option JData) → List Value → Option JItems
set_items again [] = some no_items
set_items again (v ∷ vs) = again v >>= λ d. set_items again vs >>= λ ds. some (item d ds)

unfoldable pub set_fields : (Value → Option JData) → List (Key × Value) → Option JFields
unfolding name_of
set_fields again [] = some no_fields
set_fields again ((k, v) ∷ ps) =
    name_of k >>= λ n. again v >>= λ d. set_fields again ps >>= λ ds. some (field n d ds)

-- create_data_with_type with the `set` of the class that it chooses: `c` is the cell of `v` if it
-- is an object, `again` saves an item.
unfoldable pub create_data : (Value → Option JData) → Value → Option Cell → Option JData
unfolding set_items set_fields v8val_to_char
create_data again v c =
    let items = set_items again (elements c) in
    let fields = set_fields again (properties c) in
    if is_undefined v
    then some j_undefined
    else if is_null v
    then some j_null
    else if is_boolean v
    then some (j_boolean (is_true v))
    else if is_boolean_object c
    then some (j_boolean_object (boolean_value c))
    else if is_string v
    then (let (s, n) = v8val_to_char (string_value v) in some (j_string s n))
    else if is_string_object c
    then (let (s, n) = v8val_to_char (object_string c) in some (j_string_object s n))
    else if is_regexp c
    then (let (s, n) = v8val_to_char (source c) in some (j_regexp s n (flags c)))
    else if is_int32 v
    then some (j_int32 (int32_value v))
    else if is_uint32 v
    then some (j_uint32 (uint32_value v))
    else if is_number v
    then some (j_number (number_value v))
    else if is_number_object c
    then some (j_number_object (object_number c))
    else if is_date c
    then some (j_date (date_value c))
    else if is_array c
    then (items >>= λ ds. some (j_array ds))
    else if is_function c
    then some j_function
    else if is_object c
    then (fields >>= λ ds. some (j_object ds))
    else some j_null

-- A call costs a unit of fuel; `none` is a fault or a recursion that goes on.
unfoldable pub create_data_with_type : ℕ → Heap → Value → Option JData
unfolding create_data
create_data_with_type zero h v = none
create_data_with_type (suc f) h v = create_data (create_data_with_type f h) v (cell_of h v)

-- `size` of a JArray.
abbrev pub count : JItems → ℕ
count no_items = 0
count (item d ds) = suc (count ds)

-- NewFromUtf8 of a name, which takes it up to its first NUL; every name has one.
abbrev pub read_name : List ℕ → List ℕ
read_name n = elim (before_nul n) [ some s ↦ s | none ↦ n ]

-- `restore`. JFunction is a JNull; the boxed classes have the `restore` of their base.
unfoldable mutual
  pub restore : JData → Heap → Value × Heap
  restore j_undefined h = (undefined, h)
  restore j_null h = (null, h)
  restore j_function h = (null, h)
  restore (j_boolean b) h = (boolean b, h)
  restore (j_boolean_object b) h = (boolean b, h)
  restore (j_string s n) h = (string (take (n - 1) s), h)
  restore (j_string_object s n) h = (string (take (n - 1) s), h)
  restore (j_regexp s n fl) h = alloc (regexp (take (n - 1) s) fl) h
  restore (j_int32 z) h = (number (integral z), h)
  restore (j_uint32 n) h = (number (integral (pos n)), h)
  restore (j_date n) h = alloc (date n) h
  restore (j_number n) h = (number n, h)
  restore (j_number_object n) h = (number n, h)
  restore (j_array ds) h =
      (ref (length h), restore_items ds (length h) 0 (h ++ array (holes (count ds)) ∷ []))
  restore (j_object ds) h = (ref (length h), restore_fields ds (length h) (h ++ object [] ∷ []))

  -- The loop of JArray::restore, from the index `i` on.
  pub restore_items : JItems → ℕ → ℕ → Heap → Heap
  restore_items no_items a i h = h
  restore_items (item d ds) a i h =
      let (v, h₁) = restore d h in restore_items ds a (i + 1) (array_set a i v h₁)

  -- The loop of JObject::restore.
  pub restore_fields : JFields → ℕ → Heap → Heap
  restore_fields no_fields a h = h
  restore_fields (field n d ds) a h =
      let (v, h₁) = restore d h in restore_fields ds a (object_set a (read_name n) v h₁)

-- js_save and js_load, one after the other, as j_test_ser calls them.
unfoldable pub js_copy : ℕ → Heap → Value → Option (Value × Heap)
unfolding create_data_with_type restore
js_copy fuel h v = create_data_with_type fuel h v >>= λ d. some (restore d h)
