-- ===== src/Json/Reader.antt =====
-- A reader of JSON objects whose values are strings and objects (RFC 8259, without white space and
-- the \u escape), as JSON.parse of the receiving side reads them. It is independent of the writer.
use threadjs_lib.Base.{
  ℕ, zero, suc, ltb, ◌==◌, Bool, true, false, List, [], ◌∷◌, Option, none, some, if◌then◌else◌,
  ◌>>=◌, length,
}

-- An object, as the chain of its members.
pub data Fields : Type 0 where
  no_fields : Fields
  text : List ℕ → List ℕ → Fields → Fields
  nested : List ℕ → Fields → Fields → Fields

-- The byte that an escape stands for.
unfoldable pub unescape : ℕ → Option ℕ
unescape c =
    if c == b'n'
    then some b'\n'
    else if c == b'r'
    then some b'\r'
    else if c == b't'
    then some 9
    else if c == b'b'
    then some 8
    else if c == b'f'
    then some 12
    else if c == b'"'
    then some b'"'
    else if c == b'\\'
    then some b'\\'
    else if c == b'/'
    then some b'/'
    else none

abbrev pub prepend : ℕ → List ℕ × List ℕ → Option (List ℕ × List ℕ)
prepend c (body, rest) = some (c ∷ body, rest)

-- The body of a string and what follows its closing quote; the flag says that a backslash stands
-- before. A control byte may not stand in a string.
unfoldable pub read_body : Bool → List ℕ → Option (List ℕ × List ℕ)
unfolding unescape
read_body escaped [] = none
read_body true (c ∷ ts) = let rest = read_body false ts in unescape c >>= λ e. rest >>= prepend e
read_body false (c ∷ ts) =
    let escaped = read_body true ts in
    let plain = read_body false ts >>= prepend c in
    if c == b'"'
    then some ([], ts)
    else if c == b'\\'
    then escaped
    else if ltb c 32
    then none
    else plain

abbrev pub read_string : List ℕ → Option (List ℕ × List ℕ)
read_string = read_body false

unfoldable pub expect : ℕ → List ℕ → Option (List ℕ)
expect c [] = none
expect c (d ∷ ts) = if d == c then some ts else none

unfoldable pub expect_sep : Bool → List ℕ → Option (List ℕ)
unfolding expect
expect_sep true ts = some ts
expect_sep false ts = expect b',' ts

-- A member's key and the colon behind it.
unfoldable pub read_key : Bool → List ℕ → Option (List ℕ × List ℕ)
unfolding expect expect_sep
read_key first ts = do
  ts₁ ← expect_sep first ts
  ts₂ ← expect b'"' ts₁
  (k, ts₃) ← read_string ts₂
  ts₄ ← expect b':' ts₃
  some (k, ts₄)

-- The value behind a key, a string or an object, and then the other members by `again`.
unfoldable pub read_value :
    (Bool → List ℕ → Option (Fields × List ℕ)) → List ℕ → List ℕ → Option (Fields × List ℕ)
read_value again k [] = none
read_value again k (c ∷ ts) =
    let string_value =
      read_string ts >>= λ (v, us). again false us >>= λ (fs, vs). some (text k v fs, vs) in
    let object_value =
      again true ts >>= λ (o, us). again false us >>= λ (fs, vs). some (nested k o fs, vs) in
    if c == b'"' then string_value else if c == b'{' then object_value else none

-- The members up to the closing brace. A call costs a unit of fuel.
unfoldable pub read_members : ℕ → Bool → List ℕ → Option (Fields × List ℕ)
read_members zero first ts = none
read_members (suc f) first ts =
    let again = read_members f in
    elim (expect b'}' ts) [
      | some rest ↦ some (no_fields, rest)
      | none ↦ read_key first ts >>= λ (k, us). read_value again k us
    ]

abbrev finish : Fields × List ℕ → Option Fields
finish (fs, []) = some fs
finish (fs, _ ∷ _) = none

-- A whole text: one object and nothing behind it.
unfoldable pub read : List ℕ → Option Fields
unfolding expect
read ts = expect b'{' ts >>= λ us. read_members (length us) true us >>= finish
