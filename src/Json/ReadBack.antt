-- ===== src/Json/ReadBack.antt =====
-- src/tools.h, class Json: what a JSON reader makes of the text that was written.
use threadjs_lib.Base.{
  lt→ltb, ℕ, zero, suc, ◌+◌, ◌≤◌, ◌<◌, ◌≡◌, ◌≢◌, ◌⊎◌, refl, Bool, true, false, List, [], ◌∷◌, ◌++◌,
  some, none, append_assoc, ◌>>=◌, arith, All, length, length-append, ◌∙◌,
}
use threadjs_lib.Json.{Writing, set, str, escape, escape_byte}
use threadjs_lib.Json.Reader.{
  Fields, no_fields, unescape, prepend, read_body, expect, expect_sep, read_key, read_value,
  read_members, read,
}
use threadjs_lib.Json.Reader
use threadjs_lib.Json.Render.{
  Calls, done, text, lines, nested, member, quoted, members, render, write, write-render,
}

-- A byte that needs no escape, and one that setMultLine makes safe.
abbrev pub IsPlain : ℕ → Type 0
IsPlain c = (32 ≤ c) × (c ≢ b'"') × (c ≢ b'\\')

abbrev pub IsLine : ℕ → Type 0
IsLine c = (32 ≤ c) ⊎ (c ≡ b'\n') ⊎ (c ≡ b'\r')

plain_byte :
    (c : ℕ) (ts : List ℕ)
    → IsPlain c
    → read_body false (c ∷ ts) ≡ (read_body false ts >>= prepend c)
unfolding read_body
plain_byte c ts h = ground arith

line_byte :
    (c : ℕ) (ts : List ℕ)
    → IsLine c
    → read_body false (escape_byte c ++ ts) ≡ (read_body false ts >>= prepend c)
unfolding read_body escape_byte
line_byte c ts h = ground arith

pub read_body-plain :
    (v rest : List ℕ) → All IsPlain v → read_body false (v ++ b'"' ∷ rest) ≡ some (v, rest)
read_body-plain [] rest h = unfold read_body in refl
read_body-plain (c ∷ v) rest h =
    rw (plain_byte c (v ++ b'"' ∷ rest) h.0, read_body-plain v rest h.1)

-- Reading an escaped text gives the text.
pub read_body-escape :
    (v rest : List ℕ) → All IsLine v → read_body false (escape v ++ b'"' ∷ rest) ≡ some (v, rest)
unfolding escape
read_body-escape [] rest h = unfold read_body in refl
read_body-escape (c ∷ v) rest h = rw (
  append_assoc (escape_byte c) (escape v) (b'"' ∷ rest),
  line_byte c (escape v ++ b'"' ∷ rest) h.0,
  read_body-escape v rest h.1,
)

-- The object that the calls describe.
abbrev pub described : Calls → Fields
described done = no_fields
described (text k v more) = Reader.text k v (described more)
described (lines k v more) = Reader.text k v (described more)
described (nested k inner more) = Reader.nested k (described inner) (described more)

-- No text that goes out unescaped has a quote, a backslash or a control byte, and no escaped one
-- a control byte but the line ends.
abbrev pub IsClean : Calls → Type 0
IsClean done = Unit {0}
IsClean (text k v more) = All IsPlain k × All IsPlain v × IsClean more
IsClean (lines k v more) = All IsPlain k × All IsLine v × IsClean more
IsClean (nested k inner more) = All IsPlain k × IsClean inner × IsClean more

depth : Calls → ℕ
depth done = 1
depth (text k v more) = suc (depth more)
depth (lines k v more) = suc (depth more)
depth (nested k inner more) = depth inner + suc (depth more)

depth-pos : (c : Calls) → 0 < depth c
unfolding depth
depth-pos done = omega arith
depth-pos _ = omega arith

read_key-member :
    (first : Bool) (k out : List ℕ)
    → All IsPlain k
    → read_key first (member first k out) ≡ some (k, out)
unfolding read_key
read_key-member true k out h = rw (read_body-plain k (b':' ∷ out) h)
read_key-member false k out h = rw (read_body-plain k (b':' ∷ out) h)

-- A turn of the reader at a member goes to the member's value.
pub read_members-member :
    (f : ℕ) (first : Bool) (k out : List ℕ)
    → All IsPlain k
    → read_members (suc f) first (member first k out) ≡ read_value (read_members f) k out
unfolding read_members expect
read_members-member f true k out h = rw (read_key-member true k out h, read_members)
read_members-member f false k out h = rw (read_key-member false k out h, read_members)

read_members-members :
    (c : Calls) (f : ℕ) (first : Bool) (rest : List ℕ)
    → IsClean c
    → depth c ≤ f
    → read_members f first (members first c (b'}' ∷ rest)) ≡ some (described c, rest)
unfolding members depth read_value
read_members-members c zero first rest h le = absurd (omega (arith, depth-pos c))
read_members-members done (suc f) first rest h le = unfold read_members expect in refl
read_members-members (text k v more) (suc f) first rest h le =
    read_members-member f first k _ h.0
    ∙ rw (read_body-plain v _ h.1, read_members-members more f false rest h.2 (omega arith))
read_members-members (lines k v more) (suc f) first rest h le =
    read_members-member f first k _ h.0
    ∙ rw (read_body-escape v _ h.1, read_members-members more f false rest h.2 (omega arith))
read_members-members (nested k i more) (suc f) first rest h le =
    read_members-member f first k _ h.0
    ∙ rw (
      read_members-members i f true (members false more (b'}' ∷ rest)) h.1
          (omega (arith, depth-pos more)),
      read_members-members more f false rest h.2 (omega arith),
    )

length-le-member : (first : Bool) (k out : List ℕ) → length out + 3 ≤ length (member first k out)
length-le-member true k out = omega (arith, length-append k (b'"' ∷ b':' ∷ out))
length-le-member false k out = omega (arith, length-append k (b'"' ∷ b':' ∷ out))

length-le-quoted : (v out : List ℕ) → length out ≤ length (quoted v out)
length-le-quoted v out = omega (arith, length-append v (b'"' ∷ out))

-- The fuel that `read` takes, the length of the text, is enough.
depth-le-length :
    (c : Calls) (first : Bool) (out : List ℕ)
    → depth c + length out ≤ suc (length (members first c out))
unfolding depth members
depth-le-length done first out = omega arith
depth-le-length (text k v more) first out =
    let others = members false more out in
    omega (
      arith,
      length-le-member first k (quoted v others),
      length-le-quoted v others,
      depth-le-length more false out,
    )
depth-le-length (lines k v more) first out =
    let others = members false more out in
    omega (
      arith,
      length-le-member first k (quoted (escape v) others),
      length-le-quoted (escape v) others,
      depth-le-length more false out,
    )
depth-le-length (nested k inner more) first out =
    let others = b'}' ∷ members false more out in
    omega (
      arith,
      length-le-member first k (b'{' ∷ members true inner others),
      depth-le-length inner true others,
      depth-le-length more false out,
    )

-- The text that a sequence of calls writes reads back as the object that the calls describe,
-- nested objects and escaped lines included, if all texts are clean.
pub read-write : (c : Calls) → IsClean c → read (write c) ≡ some (described c)
unfolding read expect
read-write c h = rw (write-render c) (
    unfold render in
    rw (
      read_members-members c (length (members true c (b'}' ∷ []))) true [] h
        (omega (arith, depth-le-length c true (b'}' ∷ [])))))

pub control_byte :
    (v out : List ℕ) (c : ℕ)
    → All IsPlain v
    → c < 32
    → read_body false ((v ++ c ∷ []) ++ out) ≡ none
control_byte [] out c h lt = unfold read_body in ground arith
control_byte (d ∷ v) out c h lt =
    rw (plain_byte d ((v ++ c ∷ []) ++ out) h.0, control_byte v out c h.1 lt)

-- `set` does not escape a quote: one value that holds a quote, a comma and a second member gives the
-- same text as two calls.
pub set-set :
    (k v k' v' : List ℕ) (w : Writing)
    → str (set k (v ++ (b'"' ∷ b',' ∷ b'"' ∷ (k' ++ b'"' ∷ b':' ∷ b'"' ∷ v'))) w)
      ≡ str (set k' v' (set k v w))
unfolding set str
set-set k v k' v' (j, buf) = rw (lt→ltb 0 (j.attr_count + 1) (omega arith)) (simp append_assoc)
