-- ===== src/Serialize/Trees.antt =====
-- What a copy of a JavaScript value is to be, said without the heap: the value as a tree, and which
-- tree its copy is. Values that contain themselves have no tree.
use Prim.Native.Nat.{max}
use threadjs_lib.Base.{
  text_eq, ℕ, suc, ◌≤◌, ◌<◌, ◌^◌, ◌≡◌, Bool, false, List, [], ◌∷◌, ◌++◌, some, if◌then◌else◌,
  get_elem?, All, decimal,
}
use threadjs_lib.Events.Text.{NonZero}
use threadjs_lib.Serialize.{
  JData, JItems, JFields, j_undefined, j_null, j_function, j_boolean, j_boolean_object, j_string,
  j_string_object, j_regexp, j_int32, j_uint32, j_date, j_number, j_number_object, j_array,
  j_object, no_items, item, no_fields, field,
}
use threadjs_lib.Events.{v8val_to_char}
use threadjs_lib.Serialize.Values.{
  Value, undefined, null, boolean, string, number, symbol, ref, Cell, array, object, regexp, date,
  function, boolean_object, string_object, number_object, Number, Key, index, name, Heap, is_int32,
  is_uint32, int32_value, uint32_value,
}

mutual
  pub data Tree : Type 0 where
    t_undefined t_null t_symbol t_function : Tree
    t_boolean t_boolean_object : Bool → Tree
    t_string t_string_object : List ℕ → Tree
    t_number t_number_object t_date : Number → Tree
    t_regexp : List ℕ → ℕ → Tree
    t_array : Trees → Tree
    t_object : Props → Tree

  pub data Trees : Type 0 where
    no_trees : Trees
    tree : Tree → Trees → Trees

  pub data Props : Type 0 where
    no_props : Props
    prop : List ℕ → Tree → Props → Props

-- Which name a key stands for. An index of v8 is below 2 ^ 32.
abbrev pub IsKey : Key → List ℕ → Type 0
IsKey (name s') s = s' ≡ s
IsKey (index n) s = (n < 2 ^ 32) × (decimal n ≡ s)

-- An object of the tree stands at `a`, from `lo` on.
abbrev pub At : ℕ → Heap → Value → Cell → Type 0
At lo h v c = (a : ℕ) × (lo ≤ a) × (v ≡ ref a) × (get_elem? h a ≡ some c)

-- In the heap `h` the value `v` is the tree, all of whose objects stand from `lo` on.
abbrev mutual
  pub View : ℕ → Heap → Value → Tree → Type 0
  View lo h v t_undefined = v ≡ undefined
  View lo h v t_null = v ≡ null
  View lo h v t_symbol = v ≡ symbol
  View lo h v t_function = At lo h v function
  View lo h v (t_boolean b) = v ≡ boolean b
  View lo h v (t_boolean_object b) = At lo h v (boolean_object b)
  View lo h v (t_string s) = v ≡ string s
  View lo h v (t_string_object s) = At lo h v (string_object s)
  View lo h v (t_number n) = v ≡ number n
  View lo h v (t_number_object n) = At lo h v (number_object n)
  View lo h v (t_date n) = At lo h v (date n)
  View lo h v (t_regexp s fl) = At lo h v (regexp s fl)
  View lo h v (t_array ts) = (vs : List Value) × At lo h v (array vs) × Views lo h vs ts
  View lo h v (t_object fs) =
      (ps : List (Key × Value)) × At lo h v (object ps) × ViewProps lo h ps fs

  pub Views : ℕ → Heap → List Value → Trees → Type 0
  Views lo h vs no_trees = vs ≡ []
  Views lo h vs (tree t ts) =
      (v : Value) × (vs' : List Value) × (vs ≡ v ∷ vs') × View lo h v t × Views lo h vs' ts

  pub ViewProps : ℕ → Heap → List (Key × Value) → Props → Type 0
  ViewProps lo h ps no_props = ps ≡ []
  ViewProps lo h ps (prop s t fs) =
      (k : Key) × (v : Value) × (ps' : List (Key × Value)) × (ps ≡ (k, v) ∷ ps')
      × IsKey k s
      × View lo h v t
      × ViewProps lo h ps' fs

-- The name `s` is none of those that the properties have.
abbrev pub Apart : List ℕ → Props → Type 0
Apart s no_props = Unit
Apart s (prop s' t fs) = (text_eq s s' ≡ false) × Apart s fs

-- No object has a name twice, and no name has a NUL.
abbrev mutual
  pub Named : Tree → Type 0
  Named (t_array ts) = NamedItems ts
  Named (t_object fs) = NamedProps fs
  Named _ = Unit

  pub NamedItems : Trees → Type 0
  NamedItems no_trees = Unit
  NamedItems (tree t ts) = Named t × NamedItems ts

  pub NamedProps : Props → Type 0
  NamedProps no_props = Unit
  NamedProps (prop s t fs) = All NonZero s × Apart s fs × Named t × NamedProps fs

-- The copy: a boxed value comes back bare, a function and a symbol as null.
unfoldable mutual
  pub copied : Tree → Tree
  copied t_undefined = t_undefined
  copied t_null = t_null
  copied t_symbol = t_null
  copied t_function = t_null
  copied (t_boolean b) = t_boolean b
  copied (t_boolean_object b) = t_boolean b
  copied (t_string s) = t_string s
  copied (t_string_object s) = t_string s
  copied (t_number n) = t_number n
  copied (t_number_object n) = t_number n
  copied (t_date n) = t_date n
  copied (t_regexp s fl) = t_regexp s fl
  copied (t_array ts) = t_array (copied_items ts)
  copied (t_object fs) = t_object (copied_props fs)

  pub copied_items : Trees → Trees
  copied_items no_trees = no_trees
  copied_items (tree t ts) = tree (copied t) (copied_items ts)

  pub copied_props : Props → Props
  copied_props no_props = no_props
  copied_props (prop s t fs) = prop s (copied t) (copied_props fs)

-- The JData of a tree.
abbrev pub saved_number : Number → JData
saved_number n =
    if is_int32 (number n)
    then j_int32 (int32_value (number n))
    else if is_uint32 (number n)
    then j_uint32 (uint32_value (number n))
    else j_number n

unfoldable mutual
  pub saved : Tree → JData
  saved t_undefined = j_undefined
  saved t_null = j_null
  saved t_symbol = j_null
  saved t_function = j_function
  saved (t_boolean b) = j_boolean b
  saved (t_boolean_object b) = j_boolean_object b
  saved (t_string s) = j_string (v8val_to_char s).0 (v8val_to_char s).1
  saved (t_string_object s) = j_string_object (v8val_to_char s).0 (v8val_to_char s).1
  saved (t_number n) = saved_number n
  saved (t_number_object n) = j_number_object n
  saved (t_date n) = j_date n
  saved (t_regexp s fl) = j_regexp (v8val_to_char s).0 (v8val_to_char s).1 fl
  saved (t_array ts) = j_array (saved_items ts)
  saved (t_object fs) = j_object (saved_props fs)

  pub saved_items : Trees → JItems
  saved_items no_trees = no_items
  saved_items (tree t ts) = item (saved t) (saved_items ts)

  pub saved_props : Props → JFields
  saved_props no_props = no_fields
  saved_props (prop s t fs) = field (s ++ 0 ∷ []) (saved t) (saved_props fs)

-- How deep a tree is; one call more is enough fuel.
unfoldable mutual
  pub depth : Tree → ℕ
  depth (t_array ts) = depth_items ts
  depth (t_object fs) = depth_props fs
  depth _ = 0

  pub depth_items : Trees → ℕ
  depth_items no_trees = 0
  depth_items (tree t ts) = max (suc (depth t)) (depth_items ts)

  pub depth_props : Props → ℕ
  depth_props no_props = 0
  depth_props (prop s t fs) = max (suc (depth t)) (depth_props fs)
