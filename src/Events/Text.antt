-- ===== src/Events/Text.antt =====
-- src/data.h, EventData: which text a message delivers.
use threadjs_lib.Base.{
  ℕ, ◌≡◌, ◌≢◌, refl, List, [], ◌∷◌, ◌++◌, some, arith, All, length, length-append, append_assoc,
}
use threadjs_lib.Events.{before_nul, of_string, of_chars, get_data}

abbrev pub NonZero : ℕ → Type 0
NonZero c = c ≢ 0

pub before_nul_first : (s t : List ℕ) → All NonZero s → before_nul (s ++ 0 ∷ t) ≡ some s
unfolding before_nul
before_nul_first [] t h = refl
before_nul_first (c ∷ s) t h = ground (arith, before_nul_first s t h.1)

-- A message made from a string and one made from a C buffer deliver the bytes before the first NUL,
-- whatever stands behind it, and are the same block when the string has no NUL.
pub get_data-of_string :
    (s t : List ℕ)
    → All NonZero s
    → (get_data (of_string s) ≡ some s)
      × (get_data (of_string (s ++ 0 ∷ t)) ≡ some s)
      × (of_chars (s ++ 0 ∷ t) ≡ some (of_string s))
      × ((of_string s).len ≡ length (of_string s).bytes)
unfolding get_data of_string of_chars
get_data-of_string s t h = (
  before_nul_first s [] h,
  rw (append_assoc s (0 ∷ t) (0 ∷ [])) (before_nul_first s (t ++ 0 ∷ []) h),
  rw (before_nul_first s t h),
  omega (arith, length-append s (0 ∷ [])),
)
