-- ===== src/Json/Render.antt =====
-- src/tools.h, class Json: the text that a sequence of calls is to write.
use threadjs_lib.Base.{
  Bool-cases, inl, inr, ℕ, ◌+◌, ltb, not, ◌≡◌, refl, ap, ◌∙◌, Bool, true, false, List, [], ◌∷◌,
  ◌++◌, append_assoc, arith,
}
use threadjs_lib.Json.{
  Json, Writing, new_root, childen, set, set_mult_line, escape, end, str, write_key,
}

-- The calls on one handle, in order: `set`, `setMultLine`, and `childen` with the calls on the child.
pub data Calls : Type 0 where
  done : Calls
  text : List ℕ → List ℕ → Calls → Calls
  lines : List ℕ → List ℕ → Calls → Calls
  nested : List ℕ → Calls → Calls → Calls

-- Running them on the writer: a child is ended before the parent goes on.
unfoldable pub run_calls : Calls → Writing → Writing
run_calls done w = w
run_calls (text k v more) w = run_calls more (set k v w)
run_calls (lines k v more) w = run_calls more (set_mult_line k v w)
run_calls (nested k inner more) w =
    let (parent, child, buf) = childen k w in
    let (_, buf') = end (run_calls inner (child, buf)) in run_calls more (parent, buf')

-- What the code does with a root: make it, call it, end it and take its text.
unfoldable pub write : Calls → List ℕ
unfolding run_calls
write c = str (end (run_calls c new_root))

-- The specification: the members with commas between them.
abbrev pub sep : Bool → List ℕ → List ℕ
sep true out = out
sep false out = b',' ∷ out

abbrev pub member : Bool → List ℕ → List ℕ → List ℕ
member first k out = sep first (b'"' ∷ (k ++ b'"' ∷ b':' ∷ out))

abbrev pub quoted : List ℕ → List ℕ → List ℕ
quoted v out = b'"' ∷ (v ++ b'"' ∷ out)

-- `members first c out` is the members of `c`, and `out` behind them.
unfoldable pub members : Bool → Calls → List ℕ → List ℕ
members first done out = out
members first (text k v more) out = member first k (quoted v (members false more out))
members first (lines k v more) out = member first k (quoted (escape v) (members false more out))
members first (nested k inner more) out =
    member first k (b'{' ∷ members true inner (b'}' ∷ members false more out))

unfoldable pub render : Calls → List ℕ
unfolding members
render c = b'{' ∷ members true c (b'}' ∷ [])

abbrev is_first : Json → Bool
is_first j = not (ltb 0 j.attr_count)

counted : (n : ℕ) → not (ltb 0 (n + 1)) ≡ false
counted n = ground arith

write_key-member :
    (k : List ℕ) (j : Json) (buf out : List ℕ)
    → (write_key k (j, buf)).1 ++ out ≡ buf ++ member (is_first j) k out
unfolding write_key
write_key-member k j buf out = elim (Bool-cases (ltb 0 j.attr_count)) [
  | inl e ↦ rw e (simp append_assoc)
  | inr e ↦ rw e (simp append_assoc)
]

-- Behind the key every call writes its value and leaves the rest to the later ones.
value-member :
    (k : List ℕ) (j : Json) (buf value out : List ℕ)
    → (write_key k (j, buf)).1 ++ value ++ out ≡ buf ++ member (is_first j) k (value ++ out)
value-member k j buf value out =
    append_assoc (write_key k (j, buf)).1 value out ∙ write_key-member k j buf (value ++ out)

quoted-append : (v out : List ℕ) → (b'"' ∷ v ++ b'"' ∷ []) ++ out ≡ quoted v out
quoted-append v out = ap (◌∷◌ b'"') (append_assoc v (b'"' ∷ []) out)

-- A string value, and then what the later calls write.
string-member :
    (k : List ℕ) (j : Json) (buf v : List ℕ) (more : Calls) (out : List ℕ)
    → (write_key k (j, buf)).1
        ++ (b'"' ∷ v ++ b'"' ∷ [])
        ++ members (not (ltb 0 (j.attr_count + 1))) more out
      ≡ buf ++ member (is_first j) k (quoted v (members false more out))
string-member k j buf v more out = rw counted (
    value-member k j buf (b'"' ∷ v ++ b'"' ∷ []) (members false more out)
    ∙ ap (λ t. buf ++ member (is_first j) k t) (quoted-append v (members false more out)))

-- An object value: the buffer behind its closing brace, and then what the later calls write.
object-member :
    (k : List ℕ) (j : Json) (buf inside : List ℕ) (inner more : Calls) (out : List ℕ)
    → inside ++ b'}' ∷ members false more out
      ≡ (write_key k (j, buf)).1 ++ b'{' ∷ [] ++ members true inner (b'}' ∷ members false more out)
    → (inside ++ b'}' ∷ []) ++ members (not (ltb 0 (j.attr_count + 1))) more out
      ≡ buf ++ member (is_first j) k (b'{' ∷ members true inner (b'}' ∷ members false more out))
object-member k j buf inside inner more out ih = rw counted (
    append_assoc inside (b'}' ∷ []) (members false more out)
    ∙ ih
    ∙ value-member k j buf (b'{' ∷ []) (members true inner (b'}' ∷ members false more out)))

run_calls-members :
    (c : Calls) (j : Json) (buf out : List ℕ)
    → (run_calls c (j, buf)).1 ++ out ≡ buf ++ members (is_first j) c out
unfolding run_calls members set set_mult_line childen end
run_calls-members done j buf out = refl
run_calls-members (text k v more) j buf out =
    run_calls-members more (write_key k (j, buf)).0 _ out ∙ string-member k j buf v more out
run_calls-members (lines k v more) j buf out =
    run_calls-members more (write_key k (j, buf)).0 _ out
    ∙ string-member k j buf (escape v) more out
run_calls-members (nested k inner more) j buf out =
    run_calls-members more (write_key k (j, buf)).0 _ out
    ∙ object-member k j buf _ inner more out (
        run_calls-members inner (childen k (j, buf)).1 (childen k (j, buf)).2
          (b'}' ∷ members false more out))

-- For every sequence of calls the text of an ended root is the object that the calls describe:
-- its members in the order of the calls, a comma before each but the first, braces in pairs.
pub write-render : (c : Calls) → write c ≡ render c
unfolding write render new_root end str
write-render c = run_calls-members c new_root.0 new_root.1 (b'}' ∷ [])
