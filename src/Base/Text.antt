-- ===== src/Base/Text.antt =====
-- Texts as lists of their codes, compared.
use Prim.Native.Nat.{ℕ}
use mathlib.Core.Path.{◌≡◌, refl, ap}
use mathlib.Core.Bool.{Bool, true, false, ◌&&◌}
use mathlib.Core.Logic.{inl, inr}
use mathlib.Core.List.{List, [], ◌∷◌}
use threadjs_lib.Base.Tests.{◌==◌, ==_iff, ==-refl, Bool-cases}

unfoldable pub text_eq : List ℕ → List ℕ → Bool
text_eq [] [] = true
text_eq [] (c ∷ t) = false
text_eq (c ∷ s) [] = false
text_eq (c ∷ s) (d ∷ t) = c == d && text_eq s t

pub text_eq→≡ : (s t : List ℕ) → text_eq s t ≡ true → s ≡ t
unfolding text_eq
text_eq→≡ [] [] e = refl
text_eq→≡ [] (c ∷ t) e = cc
text_eq→≡ (c ∷ s) [] e = cc
text_eq→≡ (c ∷ s) (d ∷ t) e = elim (Bool-cases (c == d)) [
  | inl hit ↦ let same : c ≡ d = (==_iff c d).0 hit in cc (same, text_eq→≡ s t (rw hit at e))
  | inr miss ↦ cc (rw miss at e)
]

pub text_eq_refl : (s : List ℕ) → text_eq s s ≡ true
unfolding text_eq
text_eq_refl [] = refl
text_eq_refl (c ∷ s) = rw (==-refl c) (text_eq_refl s)

-- Equal texts have the same comparisons.
pub text_eq_same : (s t u : List ℕ) → text_eq s t ≡ true → text_eq s u ≡ text_eq t u
text_eq_same s t u e = ap (λ x. text_eq x u) (text_eq→≡ s t e)

pub text_eq_apart :
    (s t u : List ℕ) → text_eq s t ≡ false → text_eq s u ≡ true → text_eq t u ≡ false
text_eq_apart s t u miss hit = elim (Bool-cases (text_eq t u)) [
  | inr other ↦ other
  | inl same ↦ let equal : s ≡ u = text_eq→≡ s u hit in cc (text_eq→≡ t u same)
]
