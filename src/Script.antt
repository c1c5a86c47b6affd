-- ===== src/Script.antt =====
-- src/main.cc, find_code_offset: by how many lines the user's part of a script is moved up, so that
-- the line numbers of its errors count from the marker USER_SCRIPT_BEGIN of src/data.cc on.
-- A text is its bytes before the NUL; line numbers do not overflow an int.
pub mod Offset
pub mod Compile
pub mod Reports
pub mod Eval
pub mod Replies
mod Examples
use threadjs_lib.Base.{
  ℕ, zero, suc, ◌+◌, ◌==◌, ◌&&◌, Bool, true, false, List, [], ◌∷◌, Option, none, some, ℤ, pos,
  negsuc, if◌then◌else◌, ◌>>=◌,
}

-- USE_JS_CODE_OFF_STR.
abbrev pub marker : List ℕ
marker =
    b'U' ∷ b'S' ∷ b'E' ∷ b'R' ∷ b'_' ∷ b'S' ∷ b'C' ∷ b'R' ∷ b'I' ∷ b'P' ∷ b'T' ∷ b'_' ∷ b'B' ∷ b'E'
    ∷ b'G' ∷ b'I' ∷ b'N' ∷ []

unfoldable pub starts_with : List ℕ → List ℕ → Bool
starts_with [] s = true
starts_with (p ∷ ps) [] = false
starts_with (p ∷ ps) (c ∷ s) = p == c && starts_with ps s

-- strstr, as the text in front of the first place where `what` stands.
unfoldable pub strstr : List ℕ → List ℕ → Option (List ℕ)
unfolding starts_with
strstr what [] = if starts_with what [] then some [] else none
strstr what (c ∷ s) =
    let later = strstr what s >>= λ before. some (c ∷ before) in
    if starts_with what (c ∷ s) then some [] else later

unfoldable pub decrement : ℤ → ℤ
decrement (pos zero) = negsuc 0
decrement (pos (suc n)) = pos n
decrement (negsuc n) = negsuc (n + 1)

-- The while loop, over the text in front of the marker.
unfoldable pub count_lines : List ℕ → ℤ → ℤ
unfolding decrement
count_lines [] offset = offset
count_lines (c ∷ s) offset = count_lines s (if c == b'\n' then decrement offset else offset)

unfoldable pub find_code_offset : List ℕ → ℤ → ℤ
unfolding strstr count_lines
find_code_offset code offset = elim (strstr marker code) [
  | none ↦ offset
  | some before ↦ count_lines before (decrement offset)
]
