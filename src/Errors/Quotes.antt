-- ===== src/Errors/Quotes.antt =====
-- src/tools.h, SEND_V8_ERR_EVENT: a quote in what Json::set writes.
use threadjs_lib.Base.{
  ℕ, zero, suc, ◌==◌, if◌then◌else◌, ◌≡◌, ◌≢◌, refl, sym, subst, Bool, true, false, List, [], ◌∷◌,
  ◌++◌, none, arith, All, append_assoc, decimal,
}
use threadjs_lib.Json.Reader.{read, read_members, expect, expect_sep, read_key}
use threadjs_lib.Json.Unreadable.{
  IsUnreadable, text-IsUnreadable, lines-IsUnreadable, nested-IsUnreadable, unread,
}
use threadjs_lib.Json.Render.{members, member, quoted, render, write-render}
use threadjs_lib.Json.ReadBack.{IsPlain, IsLine}
use threadjs_lib.Errors.{ErrorTexts, codes, v8_err_event}
use threadjs_lib.Errors.ReadBack.{
  v8_calls, v8_err_event-write, are_plain, are_plain-IsPlain, decimal-IsPlain,
}

after_quote : (d : ℕ) (ts : List ℕ) → d ≢ b',' → d ≢ b'}' → IsUnreadable false (d ∷ ts)
unfolding read_members expect read_key expect_sep
after_quote d ts h h' zero = refl
after_quote d ts h h' (suc f) = ground arith

quote-IsUnreadable :
    (first : Bool) (k v w out : List ℕ) (d : ℕ)
    → All IsPlain k
    → All IsPlain v
    → d ≢ b','
    → d ≢ b'}'
    → IsUnreadable first (member first k (quoted (v ++ b'"' ∷ d ∷ w) out))
quote-IsUnreadable first k v w out d hk hv h h' =
    subst (λ ts. IsUnreadable first (member first k (b'"' ∷ ts)))
      (sym (append_assoc v (b'"' ∷ d ∷ w) (b'"' ∷ out)))
      (text-IsUnreadable first k v (d ∷ (w ++ b'"' ∷ out)) hk hv (after_quote d _ h h'))

-- The bytes that JSON has behind the text of a member: white space, a comma or a closing brace.
abbrev pub follows_text : ℕ → Bool
follows_text d =
    if d == 32
    then true
    else if d == 9
    then true
    else if d == 10
    then true
    else if d == 13
    then true
    else if d == b','
    then true
    else d == b'}'

not_comma : (d : ℕ) → follows_text d ≡ false → d ≢ b','
not_comma d h e = cc (rw e at h)

not_brace : (d : ℕ) → follows_text d ≡ false → d ≢ b'}'
not_brace d h e = cc (rw e at h)

-- A source line with a quote in it, behind plain text and in front of a byte other than white
-- space, a comma and a closing brace, makes the whole error event unreadable, though all else in it
-- is clean.
pub read-v8_err_event_quote :
    (error_type exception stack v w : List ℕ) (d line_number start_column : ℕ)
    → All IsPlain error_type
    → All IsPlain exception
    → All IsLine stack
    → All IsPlain v
    → follows_text d ≡ false
    → read (
        v8_err_event error_type (record {
          exception = exception;
          stack = stack;
          source_line = v ++ b'"' ∷ d ∷ w;
          line_number = line_number;
          start_column = start_column;
        }))
      ≡ none
unfolding are_plain render members
read-v8_err_event_quote error_type exception stack v w d line_number start_column ht he hs hv h =
    rw (v8_err_event-write error_type c, write-render (v8_calls error_type c))
      (unread (members true (v8_calls error_type c) (b'}' ∷ [])) (
        text-IsUnreadable true (codes "name") (codes "error") _
          (are_plain-IsPlain (codes "name") refl) (are_plain-IsPlain (codes "error") refl)
          (nested-IsUnreadable false (codes "data") _ (are_plain-IsPlain (codes "data") refl) (
            text-IsUnreadable true (codes "name") error_type _
              (are_plain-IsPlain (codes "name") refl) ht
              (text-IsUnreadable false (codes "message") exception _
                (are_plain-IsPlain (codes "message") refl) he
                (lines-IsUnreadable false (codes "stack") stack _
                  (are_plain-IsPlain (codes "stack") refl) hs
                  (text-IsUnreadable false (codes "linenum") (decimal line_number) _
                    (are_plain-IsPlain (codes "linenum") refl) (decimal-IsPlain line_number)
                    (text-IsUnreadable false (codes "columnnum") (decimal start_column) _
                      (are_plain-IsPlain (codes "columnnum") refl) (decimal-IsPlain start_column)
                      (quote-IsUnreadable false (codes "jscode") v w _ d
                        (are_plain-IsPlain (codes "jscode") refl) hv (not_comma d h)
                        (not_brace d h))))))))))
  where
    c : ErrorTexts
    c = record {
      exception = exception;
      stack = stack;
      source_line = v ++ b'"' ∷ d ∷ w;
      line_number = line_number;
      start_column = start_column;
    }
