-- ===== src/Json.antt =====
-- src/tools.h, class Json: the writer by which error and end messages are put together.
-- The ostringstream that a root and its children share is the explicit `buf` of every call; what a
-- handle keeps of its own, the attribute count and whether it is the root, is `Json`.
-- Text is its bytes.
pub mod Reader
pub mod Render
pub mod ReadBack
pub mod Unreadable
mod Examples
use threadjs_lib.Base.{
  ℕ, suc, ◌+◌, ltb, ◌==◌, Bool, true, false, List, [], ◌∷◌, ◌++◌, if◌then◌else◌,
}

pub record Json : Type 0 where
  pub attr_count : ℕ
  pub isroot : Bool

-- What the calls work on: a handle and the shared buffer.
abbrev pub Writing : Type 0
Writing = Json × List ℕ

unfoldable pub init : Json → List ℕ → Writing
init j buf = (record j { attr_count = 0 }, buf ++ b'{' ∷ [])

-- The default constructor makes the root and its buffer.
unfoldable pub new_root : Writing
unfolding init
new_root = init (record { attr_count = 0; isroot = true }) []

-- The copy constructor: the same buffer, and no longer the root.
unfoldable pub copy : Json → Json
copy p = record { attr_count = p.attr_count; isroot = false }

unfoldable pub write_key : List ℕ → Writing → Writing
write_key k (j, buf) = (
  record j { attr_count = j.attr_count + 1 },
  (if ltb 0 j.attr_count then buf ++ b',' ∷ [] else buf) ++ b'"' ∷ k ++ b'"' ∷ b':' ∷ [],
)

-- The parent, the child and the buffer.
unfoldable pub childen : List ℕ → Writing → Json × Json × List ℕ
unfolding write_key copy init
childen name w =
    let (parent, buf) = write_key name w in
    let (child, buf') = init (copy parent) buf in (parent, child, buf')

unfoldable pub set : List ℕ → List ℕ → Writing → Writing
unfolding write_key
set k v w = let (j, buf) = write_key k w in (j, buf ++ (b'"' ∷ v ++ b'"' ∷ []))

-- The switch of setMultLine on one byte.
unfoldable pub escape_byte : ℕ → List ℕ
escape_byte c =
    if c == b'\n'
    then b'\\' ∷ b'n' ∷ []
    else if c == b'\r'
    then b'\\' ∷ b'r' ∷ []
    else if c == b'"'
    then b'\\' ∷ b'"' ∷ []
    else if c == b'\\'
    then b'\\' ∷ b'\\' ∷ []
    else c ∷ []

-- Its loop, which ends at the NUL: the text `v` holds the bytes before that.
unfoldable pub escape : List ℕ → List ℕ
unfolding escape_byte
escape [] = []
escape (c ∷ v) = escape_byte c ++ escape v

unfoldable pub set_mult_line : List ℕ → List ℕ → Writing → Writing
unfolding write_key escape
set_mult_line k v w = let (j, buf) = write_key k w in (j, buf ++ (b'"' ∷ escape v ++ b'"' ∷ []))

unfoldable pub end : Writing → Writing
end (j, buf) = (j, buf ++ b'}' ∷ [])

unfoldable pub str : Writing → List ℕ
str (j, buf) = buf
