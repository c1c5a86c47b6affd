-- ===== src/Serialize/Memory.antt =====
-- src/serialize.cc and src/serialize.h: the blocks that a saved value has on the heap, the destructors
-- that free them, and Serialized, which owns one saved value. `new` does not fail.
use threadjs_lib.Base.{ℕ, ◌+◌, ◌-◌, ◌==◌, List, [], ◌∷◌, Option, none, some, if◌then◌else◌, ◌>>=◌}
use threadjs_lib.Serialize.{
  JData, j_string, j_string_object, j_regexp, j_array, j_object, JItems, no_items, item, JFields,
  no_fields, field,
}

-- A JData by the addresses of its blocks: the object, and its buffer of chars, its `value`, or its
-- `value` and `name`. A field has its name's buffer.
mutual
  pub data Block : Type 0 where
    plain : (object : ℕ) → Block
    with_text : (object buffer : ℕ) → Block
    with_items : (object value : ℕ) → ItemBlocks → Block
    with_fields : (object value name : ℕ) → NamedBlocks → Block

  pub data ItemBlocks : Type 0 where
    no_blocks : ItemBlocks
    block : Block → ItemBlocks → ItemBlocks

  pub data NamedBlocks : Type 0 where
    no_named : NamedBlocks
    named : (name : ℕ) → Block → NamedBlocks → NamedBlocks

-- How often each address is given out and not freed; `next` is where `new` goes on.
pub record Store : Type 0 where
  pub live : ℕ → ℕ
  pub next : ℕ

abbrev pub one : ℕ → ℕ → ℕ
one a x = if a == x then 1 else 0

unfoldable pub new_block : Store → ℕ × Store
new_block s = (s.next, record { live = λ x. s.live x + one s.next x; next = s.next + 1 })

-- `none` is a free of what is not there.
unfoldable pub free : ℕ → Store → Option Store
free a s = if s.live a == 0 then none else some (record s { live = λ x. s.live x - one a x })

-- `new` of each class with its `set`.
unfoldable mutual
  unfolding new_block

  pub place : JData → Store → Block × Store
  place (j_string t n) s =
      let (o, s₁) = new_block s in let (b, s₂) = new_block s₁ in (with_text o b, s₂)
  place (j_string_object t n) s =
      let (o, s₁) = new_block s in let (b, s₂) = new_block s₁ in (with_text o b, s₂)
  place (j_regexp t n fl) s =
      let (o, s₁) = new_block s in let (b, s₂) = new_block s₁ in (with_text o b, s₂)
  place (j_array ds) s =
      let (o, s₁) = new_block s in
      let (v, s₂) = new_block s₁ in let (is, s₃) = place_items ds s₂ in (with_items o v is, s₃)
  place (j_object fs) s =
      let (o, s₁) = new_block s in
      let (v, s₂) = new_block s₁ in
      let (n, s₃) = new_block s₂ in let (is, s₄) = place_fields fs s₃ in (with_fields o v n is, s₄)
  place d s = let (o, s₁) = new_block s in (plain o, s₁)

  pub place_items : JItems → Store → ItemBlocks × Store
  place_items no_items s = (no_blocks, s)
  place_items (item d ds) s =
      let (b, s₁) = place d s in let (is, s₂) = place_items ds s₁ in (block b is, s₂)

  pub place_fields : JFields → Store → NamedBlocks × Store
  place_fields no_fields s = (no_named, s)
  place_fields (field t d fs) s =
      let (n, s₁) = new_block s in
      let (b, s₂) = place d s₁ in let (is, s₃) = place_fields fs s₂ in (named n b is, s₃)

-- `delete` of a JData: the destructor of its class, and the object.
unfoldable mutual
  unfolding free

  pub destroy : Block → Store → Option Store
  destroy (plain o) s = free o s
  destroy (with_text o b) s = free b s >>= free o
  destroy (with_items o v is) s = destroy_items is s >>= λ s₁. free v s₁ >>= free o
  destroy (with_fields o v n is) s =
      destroy_fields is s >>= λ s₁. free v s₁ >>= λ s₂. free n s₂ >>= free o

  pub destroy_items : ItemBlocks → Store → Option Store
  destroy_items no_blocks s = some s
  destroy_items (block b is) s = destroy b s >>= destroy_items is

  pub destroy_fields : NamedBlocks → Store → Option Store
  destroy_fields no_named s = some s
  destroy_fields (named n b is) s = destroy b s >>= λ s₁. free n s₁ >>= destroy_fields is

-- `root` is a null pointer before the first `set`.
pub record Serialized : Type 0 where
  pub root : Option Block

abbrev pub new_serialized : Serialized
new_serialized = record { root = none }

unfoldable pub delete_serialized : Serialized → Store → Option Store
unfolding destroy
delete_serialized ser s = elim ser.root [ none ↦ some s | some b ↦ destroy b s ]

unfoldable pub set_root : Block → Serialized → Store → Option (Serialized × Store)
unfolding destroy
set_root d ser s = elim ser.root [
  | none ↦ some (record { root = some d }, s)
  | some b ↦ destroy b s >>= λ s₁. some (record { root = some d }, s₁)
]

-- js_save of a value that create_data_with_type made `d` of.
unfoldable pub js_save : JData → Serialized → Store → Option (Serialized × Store)
unfolding place set_root
js_save d ser s = let (b, s₁) = place d s in set_root b ser s₁

unfoldable pub js_save_all : List JData → Serialized → Store → Option (Serialized × Store)
unfolding js_save
js_save_all [] ser s = some (ser, s)
js_save_all (d ∷ ds) ser s = js_save d ser s >>= λ (ser', s'). js_save_all ds ser' s'
