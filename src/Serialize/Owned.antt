-- ===== src/Serialize/Owned.antt =====
-- src/serialize.cc and src/serialize.h: every block that was allocated for a saved value is freed once.
use threadjs_lib.Base.{ℕ, ◌+◌, ◌-◌, ◌≤◌, ◌≡◌, refl, List, [], ◌∷◌, Option, none, some, ◌>>=◌, arith}
use threadjs_lib.Serialize.{
  JData, j_string, j_string_object, j_regexp, j_array, j_object, JItems, no_items, item, JFields,
  no_fields, field,
}
use threadjs_lib.Serialize.Memory.{
  Block, plain, with_text, with_items, with_fields, ItemBlocks, no_blocks, block, NamedBlocks,
  no_named, named, Store, one, new_block, free, place, place_items, place_fields, destroy,
  destroy_items, destroy_fields, Serialized, new_serialized, delete_serialized, set_root, js_save,
  js_save_all,
}

-- How often a saved value has a block at the address `x`.
unfoldable mutual
  pub owned : Block → ℕ → ℕ
  owned (plain o) x = one o x
  owned (with_text o b) x = one b x + one o x
  owned (with_items o v is) x = owned_items is x + (one v x + one o x)
  owned (with_fields o v n is) x = owned_fields is x + (one v x + (one n x + one o x))

  pub owned_items : ItemBlocks → ℕ → ℕ
  owned_items no_blocks x = 0
  owned_items (block b is) x = owned b x + owned_items is x

  pub owned_fields : NamedBlocks → ℕ → ℕ
  owned_fields no_named x = 0
  owned_fields (named n b is) x = owned b x + (one n x + owned_fields is x)

-- `f` frees what `o` counts, where it is there.
abbrev Frees : (ℕ → ℕ) → (Store → Option Store) → Type 0
Frees o f =
    (s : Store)
    → ((x : ℕ) → o x ≤ s.live x)
    → (s' : Store) × (f s ≡ some s') × ((x : ℕ) → s'.live x + o x ≡ s.live x)

free-Frees : (a : ℕ) → Frees (one a) (free a)
unfolding free
free-Frees a s h =
    let there : 1 ≤ s.live a = ground (arith, h a) in
    (record s { live = λ x. s.live x - one a x }, ground (arith, there), λ x. omega (arith, h x))

nothing-Frees : Frees (λ x. 0) some
nothing-Frees s h = (s, refl, λ x. omega arith)

then-Frees :
    (o o' : ℕ → ℕ) (f g : Store → Option Store)
    → Frees o f
    → Frees o' g
    → Frees (λ x. o x + o' x) (λ s. f s >>= g)
then-Frees o o' f g ff fg s h =
    let (s₁, done, left) = ff s (λ x. omega (arith, h x)) in
    let (s₂, done', left') = fg s₁ (λ x. omega (arith, h x, left x)) in
    (s₂, rw done done', λ x. omega (arith, left x, left' x))

mutual
  unfolding owned owned_items owned_fields destroy destroy_items destroy_fields

  destroy-Frees : (b : Block) → Frees (owned b) (destroy b)
  destroy-Frees (plain o) = free-Frees o
  destroy-Frees (with_text o b) =
      then-Frees (one b) (one o) (free b) (free o) (free-Frees b) (free-Frees o)
  destroy-Frees (with_items o v is) =
      then-Frees (owned_items is) _ (destroy_items is) _ (items-Frees is)
        (then-Frees (one v) (one o) (free v) (free o) (free-Frees v) (free-Frees o))
  destroy-Frees (with_fields o v n is) =
      then-Frees (owned_fields is) _ (destroy_fields is) _ (fields-Frees is) (
        then-Frees (one v) _ (free v) _ (free-Frees v)
          (then-Frees (one n) (one o) (free n) (free o) (free-Frees n) (free-Frees o)))

  items-Frees : (is : ItemBlocks) → Frees (owned_items is) (destroy_items is)
  items-Frees no_blocks = nothing-Frees
  items-Frees (block b is) =
      then-Frees (owned b) (owned_items is) (destroy b) (destroy_items is) (destroy-Frees b)
        (items-Frees is)

  fields-Frees : (is : NamedBlocks) → Frees (owned_fields is) (destroy_fields is)
  fields-Frees no_named = nothing-Frees
  fields-Frees (named n b is) = then-Frees (owned b) _ (destroy b) _ (destroy-Frees b) (
      then-Frees (one n) (owned_fields is) (free n) (destroy_fields is) (free-Frees n)
        (fields-Frees is))

-- Behind `place` there is what there was, and what the value owns.
abbrev Adds : (ℕ → ℕ) → Store → Store → Type 0
Adds o s s' = (x : ℕ) → s'.live x ≡ s.live x + o x

mutual
  unfolding owned owned_items owned_fields place place_items place_fields new_block

  place-Adds : (d : JData) (s : Store) → Adds (owned (place d s).0) s (place d s).1
  place-Adds (j_string t n) s x = omega arith
  place-Adds (j_string_object t n) s x = omega arith
  place-Adds (j_regexp t n fl) s x = omega arith
  place-Adds (j_array ds) s x = omega (arith, items-Adds ds (new_block (new_block s).1).1 x)
  place-Adds (j_object fs) s x =
      omega (arith, fields-Adds fs (new_block (new_block (new_block s).1).1).1 x)
  place-Adds d s x = omega arith

  items-Adds :
      (ds : JItems) (s : Store) → Adds (owned_items (place_items ds s).0) s (place_items ds s).1
  items-Adds no_items s x = omega arith
  items-Adds (item d ds) s x = omega (arith, place-Adds d s x, items-Adds ds (place d s).1 x)

  fields-Adds :
      (fs : JFields) (s : Store) → Adds (owned_fields (place_fields fs s).0) s (place_fields fs s).1
  fields-Adds no_fields s x = omega arith
  fields-Adds (field t d fs) s x =
      omega (arith, place-Adds d (new_block s).1 x, fields-Adds fs (place d (new_block s).1).1 x)

-- What a Serialized owns.
abbrev pub owned_by : Serialized → ℕ → ℕ
owned_by ser x = elim ser.root [ none ↦ 0 | some b ↦ owned b x ]

-- A js_save leaves a heap with the new value in place of the old one.
js_save-live :
    (d : JData) (r : Option Block) (s : Store)
    → ((x : ℕ) → owned_by (record { root = r }) x ≤ s.live x)
    → (b : Block) × (s' : Store) × (js_save d (record { root = r }) s
        ≡ some (record { root = some b }, s'))
      × ((x : ℕ) → s'.live x + owned_by (record { root = r }) x ≡ s.live x + owned b x)
unfolding js_save set_root
js_save-live d none s h = ((place d s).0, (place d s).1, refl, λ x. omega (arith, place-Adds d s x))
js_save-live d (some b) s h =
    let (s₂, done, left) =
      destroy-Frees b (place d s).1 (λ x. omega (arith, h x, place-Adds d s x)) in
    ((place d s).0, s₂, rw done refl, λ x. omega (arith, left x, place-Adds d s x))

js_save_all-live :
    (ds : List JData) (ser : Serialized) (s : Store)
    → ((x : ℕ) → owned_by ser x ≤ s.live x)
    → (ser' : Serialized) × (s' : Store) × (js_save_all ds ser s ≡ some (ser', s'))
      × ((x : ℕ) → s'.live x + owned_by ser x ≡ s.live x + owned_by ser' x)
      × ((x : ℕ) → owned_by ser' x ≤ s'.live x)
unfolding js_save_all
js_save_all-live [] ser s h = (ser, s, refl, λ x. refl, h)
js_save_all-live (d ∷ ds) ser s h =
    let (b, s₁, saved, same) = js_save-live d ser.root s h in
    let (ser', s₂, rest, same', ok) =
      js_save_all-live ds (record { root = some b }) s₁ (λ x. omega (arith, h x, same x)) in
    (ser', s₂, rw saved rest, λ x. omega (arith, same x, same' x), ok)

-- However many values a Serialized is given one after the other, each js_save and the destructor at
-- the end free blocks that are there, and afterwards the heap has the blocks that it had before.
pub delete_serialized-js_save_all :
    (ds : List JData) (s : Store)
    → (ser : Serialized) × (s' s'' : Store) × (js_save_all ds new_serialized s ≡ some (ser, s'))
      × (delete_serialized ser s' ≡ some s'')
      × ((x : ℕ) → s''.live x ≡ s.live x)
unfolding delete_serialized
delete_serialized-js_save_all ds s =
    let (ser, s', saved, same, ok) = js_save_all-live ds new_serialized s (λ x. omega arith) in
    let (s'', gone, left) = deleted ser.root s' ok in
    (ser, s', s'', saved, gone, λ x. omega (arith, left x, same x))
  where
    deleted :
        (r : Option Block) (s' : Store)
        → ((x : ℕ) → owned_by (record { root = r }) x ≤ s'.live x)
        → (s'' : Store) × (delete_serialized (record { root = r }) s' ≡ some s'')
          × ((x : ℕ) → s''.live x + owned_by (record { root = r }) x ≡ s'.live x)
    deleted none s' h = (s', refl, λ x. omega arith)
    deleted (some b) s' h = destroy-Frees b s' h
