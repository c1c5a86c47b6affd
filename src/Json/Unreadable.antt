-- ===== src/Json/Unreadable.antt =====
-- src/tools.h, class Json: a byte that Json::set writes and no reader of JSON takes.
use threadjs_lib.Base.{
  ℕ, zero, suc, ◌<◌, ◌≡◌, refl, sym, subst, ◌∙◌, Bool, true, false, List, [], ◌∷◌, ◌++◌, none, All,
  append_assoc, length,
}
use threadjs_lib.Json.{escape}
use threadjs_lib.Json.Reader.{read, read_members, read_value, expect}
use threadjs_lib.Json.Render.{
  Calls, text, lines, nested, write, members, member, quoted, render, write-render,
}
use threadjs_lib.Json.ReadBack.{
  IsPlain, IsLine, read_members-member, read_body-plain, read_body-escape, control_byte,
}

-- No fuel makes members of it.
abbrev pub IsUnreadable : Bool → List ℕ → Type 0
IsUnreadable first ts = (f : ℕ) → read_members f first ts ≡ none

pub text-IsUnreadable :
    (first : Bool) (k v out : List ℕ)
    → All IsPlain k
    → All IsPlain v
    → IsUnreadable false out
    → IsUnreadable first (member first k (quoted v out))
unfolding read_value
text-IsUnreadable first k v out hk hv h zero = unfold read_members in refl
text-IsUnreadable first k v out hk hv h (suc f) =
    read_members-member f first k _ hk ∙ rw (read_body-plain v out hv, h f) refl

pub lines-IsUnreadable :
    (first : Bool) (k v out : List ℕ)
    → All IsPlain k
    → All IsLine v
    → IsUnreadable false out
    → IsUnreadable first (member first k (quoted (escape v) out))
unfolding read_value
lines-IsUnreadable first k v out hk hv h zero = unfold read_members in refl
lines-IsUnreadable first k v out hk hv h (suc f) =
    read_members-member f first k _ hk ∙ rw (read_body-escape v out hv, h f) refl

pub nested-IsUnreadable :
    (first : Bool) (k inner : List ℕ)
    → All IsPlain k
    → IsUnreadable true inner
    → IsUnreadable first (member first k (b'{' ∷ inner))
unfolding read_value
nested-IsUnreadable first k inner hk h zero = unfold read_members in refl
nested-IsUnreadable first k inner hk h (suc f) = read_members-member f first k _ hk ∙ rw (h f) refl

pub unread : (us : List ℕ) → IsUnreadable true us → read (b'{' ∷ us) ≡ none
unfolding read expect
unread us h = rw (h (length us)) refl

-- Calls with a control byte in a value that is given to Json::set, behind plain text in it: at the
-- call itself, behind calls of set and setMultLine with clean texts, or in an object of childen, at
-- any depth.
pub data HasControl : Calls → Type 0 where
  here :
      {k : List ℕ} (v w : List ℕ) (c : ℕ) {more : Calls}
      → All IsPlain k
      → All IsPlain v
      → c < 32
      → HasControl (text k (v ++ c ∷ w) more)
  behind_text :
      {k v : List ℕ} {more : Calls}
      → All IsPlain k
      → All IsPlain v
      → HasControl more
      → HasControl (text k v more)
  behind_lines :
      {k v : List ℕ} {more : Calls}
      → All IsPlain k
      → All IsLine v
      → HasControl more
      → HasControl (lines k v more)
  inside :
      {k : List ℕ} {inner more : Calls}
      → All IsPlain k
      → HasControl inner
      → HasControl (nested k inner more)

control-IsUnreadable :
    (first : Bool) (k v out : List ℕ) (c : ℕ)
    → All IsPlain k
    → All IsPlain v
    → c < 32
    → IsUnreadable first (member first k (b'"' ∷ (v ++ c ∷ out)))
unfolding read_value
control-IsUnreadable first k v out c hk hv lt zero = unfold read_members in refl
control-IsUnreadable first k v out c hk hv lt (suc f) =
    read_members-member f first k _ hk
    ∙ rw (sym (append_assoc v (c ∷ []) out)) (rw (control_byte v out c hv lt) refl)

members-IsUnreadable :
    (first : Bool) {cs : Calls} (out : List ℕ)
    → HasControl cs
    → IsUnreadable first (members first cs out)
unfolding members
members-IsUnreadable first out (here {k} v w c hk hv lt) =
    subst (λ ts. IsUnreadable first (member first k (b'"' ∷ ts))) (sym (append_assoc v (c ∷ w) _))
      (control-IsUnreadable first k v _ c hk hv lt)
members-IsUnreadable first out (behind_text {k} {v} hk hv h) =
    text-IsUnreadable first k v _ hk hv (members-IsUnreadable false out h)
members-IsUnreadable first out (behind_lines {k} {v} hk hv h) =
    lines-IsUnreadable first k v _ hk hv (members-IsUnreadable false out h)
members-IsUnreadable first out (inside {k} hk h) =
    nested-IsUnreadable first k _ hk (members-IsUnreadable true _ h)

-- A control byte in a value that is given to Json::set, behind plain text of that value and before
-- anything else, makes the whole text unreadable, whether the value stands in the root or in
-- objects of childen, with plain keys of them and of the value, and with calls of set and
-- setMultLine in front of it that have clean texts.
pub read-HasControl : {cs : Calls} → HasControl cs → read (write cs) ≡ none
unfolding render
read-HasControl {cs} h = rw (write-render cs) (unread _ (members-IsUnreadable true _ h))
