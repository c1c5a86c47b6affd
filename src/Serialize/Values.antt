-- ===== src/Serialize/Values.antt =====
-- The values of JavaScript that src/serialize.cc tells apart, with the tests and casts of v8.
use threadjs_lib.Base.{
  text_eq, ℕ, zero, suc, ◌-◌, ◌%◌, ◌^◌, ltb, Bool, true, false, List, [], ◌∷◌, ◌++◌, Option, none,
  some, ℤ, pos, negsuc, if◌then◌else◌, get_elem?, length, decimal,
}

pub data Number : Type 0 where
  integral : ℤ → Number
  double : ℕ → Number

pub data Value : Type 0 where
  undefined null symbol : Value
  boolean : Bool → Value
  string : List ℕ → Value
  number : Number → Value
  ref : ℕ → Value

-- An array index comes out of GetPropertyNames as a number.
pub data Key : Type 0 where
  name : List ℕ → Key
  index : ℕ → Key

-- `array` holds what Get(i) gives for each index below the length, `object` what GetPropertyNames
-- and Get give.
pub data Cell : Type 0 where
  boolean_object : Bool → Cell
  string_object : List ℕ → Cell
  number_object date : Number → Cell
  regexp : (source : List ℕ) (flags : ℕ) → Cell
  function : Cell
  array : List Value → Cell
  object : List (Key × Value) → Cell

abbrev pub Heap : Type 0
Heap = List Cell

abbrev pub cell_of : Heap → Value → Option Cell
cell_of h (ref a) = get_elem? h a
cell_of h _ = none

abbrev pub is_undefined : Value → Bool
is_undefined undefined = true
is_undefined _ = false

abbrev pub is_null : Value → Bool
is_null null = true
is_null _ = false

abbrev pub is_boolean : Value → Bool
is_boolean (boolean b) = true
is_boolean _ = false

abbrev pub is_string : Value → Bool
is_string (string s) = true
is_string _ = false

abbrev pub is_number : Value → Bool
is_number (number n) = true
is_number _ = false

abbrev pub is_int32 : Value → Bool
is_int32 (number (integral (pos n))) = ltb n (2 ^ 31)
is_int32 (number (integral (negsuc n))) = ltb n (2 ^ 31)
is_int32 _ = false

abbrev pub is_uint32 : Value → Bool
is_uint32 (number (integral (pos n))) = ltb n (2 ^ 32)
is_uint32 _ = false

-- The tests of an object's class, by its cell.
abbrev pub is_boolean_object : Option Cell → Bool
is_boolean_object (some (boolean_object b)) = true
is_boolean_object _ = false

abbrev pub is_string_object : Option Cell → Bool
is_string_object (some (string_object s)) = true
is_string_object _ = false

abbrev pub is_number_object : Option Cell → Bool
is_number_object (some (number_object n)) = true
is_number_object _ = false

abbrev pub is_date : Option Cell → Bool
is_date (some (date n)) = true
is_date _ = false

abbrev pub is_regexp : Option Cell → Bool
is_regexp (some (regexp s fl)) = true
is_regexp _ = false

abbrev pub is_array : Option Cell → Bool
is_array (some (array vs)) = true
is_array _ = false

abbrev pub is_function : Option Cell → Bool
is_function (some function) = true
is_function _ = false

abbrev pub is_object : Option Cell → Bool
is_object (some c) = true
is_object none = false

-- The casts, which the code makes behind the test that fits.
abbrev pub is_true : Value → Bool
is_true (boolean b) = b
is_true _ = false

abbrev pub string_value : Value → List ℕ
string_value (string s) = s
string_value _ = []

abbrev pub number_value : Value → Number
number_value (number n) = n
number_value _ = integral (pos 0)

-- ToInt32 and ToUint32 of an integer: modulo 2 ^ 32, the upper half negative for the first.
abbrev pub wrap32 : ℤ → ℕ
wrap32 (pos n) = n % 2 ^ 32
wrap32 (negsuc n) = 2 ^ 32 - 1 - n % 2 ^ 32

abbrev pub signed32 : ℕ → ℤ
signed32 n = if ltb n (2 ^ 31) then pos n else negsuc (2 ^ 32 - 1 - n)

abbrev pub int32_value : Value → ℤ
int32_value (number (integral z)) = signed32 (wrap32 z)
int32_value _ = pos 0

abbrev pub uint32_value : Value → ℕ
uint32_value (number (integral z)) = wrap32 z
uint32_value _ = 0

abbrev pub boolean_value : Option Cell → Bool
boolean_value (some (boolean_object b)) = b
boolean_value _ = false

abbrev pub object_string : Option Cell → List ℕ
object_string (some (string_object s)) = s
object_string _ = []

abbrev pub object_number : Option Cell → Number
object_number (some (number_object n)) = n
object_number _ = integral (pos 0)

abbrev pub date_value : Option Cell → Number
date_value (some (date n)) = n
date_value _ = integral (pos 0)

abbrev pub source : Option Cell → List ℕ
source (some (regexp s fl)) = s
source _ = []

abbrev pub flags : Option Cell → ℕ
flags (some (regexp s fl)) = fl
flags _ = 0

abbrev pub elements : Option Cell → List Value
elements (some (array vs)) = vs
elements _ = []

abbrev pub properties : Option Cell → List (Key × Value)
properties (some (object ps)) = ps
properties _ = []

abbrev pub alloc : Cell → Heap → Value × Heap
alloc c h = (ref (length h), h ++ c ∷ [])

-- A write to one place of the heap.
unfoldable pub set_cell : Heap → ℕ → Cell → Heap
set_cell [] a c = []
set_cell (d ∷ h) zero c = c ∷ h
set_cell (d ∷ h) (suc a) c = d ∷ set_cell h a c

-- Array::New of a length: no element is there yet.
abbrev pub holes : ℕ → List Value
holes zero = []
holes (suc n) = undefined ∷ holes n

-- Set of an array at an index; it grows if it has to.
unfoldable pub put_element : ℕ → Value → List Value → List Value
put_element zero v [] = v ∷ []
put_element (suc i) v [] = undefined ∷ put_element i v []
put_element zero v (_ ∷ vs) = v ∷ vs
put_element (suc i) v (u ∷ vs) = u ∷ put_element i v vs

unfoldable pub array_set : ℕ → ℕ → Value → Heap → Heap
unfolding set_cell put_element
array_set a i v h = elim (get_elem? h a) [
  | some (array vs) ↦ set_cell h a (array (put_element i v vs))
  | _ ↦ h
]

-- The text that names the property: an index and its decimal text name the same one.
abbrev pub key_text : Key → List ℕ
key_text (name s) = s
key_text (index n) = decimal n

-- Set of an object: the property of that name gets the value, or there is a new one.
unfoldable pub put_property : List ℕ → Value → List (Key × Value) → List (Key × Value)
unfolding text_eq
put_property s v [] = (name s, v) ∷ []
put_property s v ((k, u) ∷ ps) =
    if text_eq (key_text k) s then (k, v) ∷ ps else (k, u) ∷ put_property s v ps

unfoldable pub object_set : ℕ → List ℕ → Value → Heap → Heap
unfolding set_cell put_property
object_set a s v h = elim (get_elem? h a) [
  | some (object ps) ↦ set_cell h a (object (put_property s v ps))
  | _ ↦ h
]
