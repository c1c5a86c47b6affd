-- ===== src/Script/Offset.antt =====
-- src/main.cc, find_code_offset: the offset and the line ends in front of the first marker.
use threadjs_lib.Base.{
  ℕ, suc, ◌+◌, ◌==◌, ◌≡◌, refl, true, false, List, [], ◌∷◌, ◌++◌, some, pos, negsuc, arith,
  if◌then◌else◌, ap, ==-refl, ◌∙◌,
}
use threadjs_lib.Script.{marker, starts_with, strstr, decrement, count_lines, find_code_offset}

-- The number of line ends.
abbrev pub line_ends : List ℕ → ℕ
line_ends [] = 0
line_ends (c ∷ s) = if c == b'\n' then suc (line_ends s) else line_ends s

count_lines-negsuc : (s : List ℕ) (n : ℕ) → count_lines s (negsuc n) ≡ negsuc (line_ends s + n)
unfolding count_lines
count_lines-negsuc [] n = ap negsuc (omega arith)
count_lines-negsuc (c ∷ s) n = ground (arith, count_lines-negsuc s n, count_lines-negsuc s (n + 1))

starts_with-append : (p rest : List ℕ) → starts_with p (p ++ rest) ≡ true
unfolding starts_with
starts_with-append [] rest = refl
starts_with-append (c ∷ p) rest = rw (==-refl c) (starts_with-append p rest)

-- `what` stands at no place of `before ++ rest` that is in front of `rest`.
abbrev pub NotBefore : List ℕ → List ℕ → List ℕ → Type 0
NotBefore what [] rest = Unit {0}
NotBefore what (c ∷ before) rest =
    (starts_with what (c ∷ (before ++ rest)) ≡ false) × NotBefore what before rest

strstr_here : (what s : List ℕ) → starts_with what s ≡ true → strstr what s ≡ some []
unfolding strstr
strstr_here what [] h = rw h
strstr_here what (c ∷ s) h = rw h

strstr_first :
    (what before rest : List ℕ)
    → NotBefore what before (what ++ rest)
    → strstr what (before ++ (what ++ rest)) ≡ some before
unfolding strstr
strstr_first what [] rest h = strstr_here what (what ++ rest) (starts_with-append what rest)
strstr_first what (c ∷ before) rest h = rw h.0 (rw (strstr_first what before rest h.1))

-- With a marker the offset of a script is -(1 + the line ends in front of the first marker).
pub find_code_offset-marked :
    (before rest : List ℕ)
    → NotBefore marker before (marker ++ rest)
    → find_code_offset (before ++ (marker ++ rest)) (pos 0) ≡ negsuc (line_ends before)
unfolding find_code_offset
find_code_offset-marked before rest h =
    rw (strstr_first marker before rest h, find_code_offset)
      (unfold decrement in count_lines-negsuc before 0 ∙ ap negsuc (omega arith))
