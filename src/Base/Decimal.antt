-- ===== src/Base/Decimal.antt =====
-- Numbers as `<<` of an ostream and `%lld` of sprintf print them, and how many bytes that takes.
use Prim.Native.Nat.{ℕ, zero, suc, ◌+◌, ◌/◌, ◌%◌, ◌^◌, ◌≤◌, ◌<◌}
use mathlib.Core.List.{List, [], ◌∷◌, ◌++◌}
use mathlib.Core.Path.{◌≡◌}
use mathlib.Core.Logic.{inl, inr}
use native.Mathlib.Omega.{arith}
use native.Mathlib.Nat.{pow-suc}
use threadjs_lib.Base.Tests.{ltb, if◌then◌else◌, Bool-cases}
use threadjs_lib.Base.Lists.{length, length-append, All, All-append}

-- The digits of `n`, most significant first; the fuel bounds how many.
digits_fuel : ℕ → ℕ → List ℕ
digits_fuel zero n = []
digits_fuel (suc f) n =
    let more = digits_fuel f (n / 10) ++ (n % 10 + b'0') ∷ [] in
    if ltb n 10 then (n + b'0') ∷ [] else more

-- No number has more digits than its successor counts.
unfoldable pub decimal : ℕ → List ℕ
unfolding digits_fuel
decimal n = digits_fuel (suc n) n

abbrev pub IsDigit : ℕ → Type 0
IsDigit c = (b'0' ≤ c) × (c ≤ b'9')

digits_fuel-IsDigit : (f n : ℕ) → All IsDigit (digits_fuel f n)
unfolding digits_fuel
digits_fuel-IsDigit zero n = tt
digits_fuel-IsDigit (suc f) n = elim (Bool-cases (ltb n 10)) [
  | inl small ↦ ground arith
  | inr big ↦ rw big (
      All-append IsDigit (digits_fuel f (n / 10)) _ (digits_fuel-IsDigit f (n / 10))
        ((omega arith, omega arith), tt))
]

pub decimal-IsDigit : (n : ℕ) → All IsDigit (decimal n)
unfolding decimal
decimal-IsDigit n = digits_fuel-IsDigit (suc n) n

length-digits_fuel : (f n k : ℕ) → n < 10 ^ suc k → length (digits_fuel f n) ≤ suc k
unfolding digits_fuel
length-digits_fuel zero n k h = omega arith
length-digits_fuel (suc f) n zero h = ground arith
length-digits_fuel (suc f) n (suc k) h = elim (Bool-cases (ltb n 10)) [
  | inl small ↦ rw small (omega arith)
  | inr big ↦ rw big (
      omega (
        arith,
        length-append (digits_fuel f (n / 10)) ((n % 10 + b'0') ∷ []),
        length-digits_fuel f (n / 10) k (omega (arith, pow-suc 10 (suc k))),
      ))
]

-- A number below 10 ^ (k + 1) takes at most k + 1 digits.
pub length-decimal : (n k : ℕ) → n < 10 ^ suc k → length (decimal n) ≤ suc k
unfolding decimal
length-decimal n k h = length-digits_fuel (suc n) n k h

pub decimal_digit : (n : ℕ) → n < 10 → decimal n ≡ (n + b'0') ∷ []
unfolding decimal digits_fuel
decimal_digit n h = ground arith
