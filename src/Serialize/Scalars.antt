-- ===== src/Serialize/Scalars.antt =====
-- src/serialize.cc: texts, numbers and names, saved and restored.
use threadjs_lib.Base.{
  ℕ, ◌+◌, ◌-◌, ◌≡◌, refl, ap, ◌∙◌, true, List, [], ◌∷◌, ◌++◌, length, take, arith, All, Bool-cases,
  inl, inr, ℤ, pos, negsuc,
}
use threadjs_lib.Events.Text.{NonZero, before_nul_first}
use threadjs_lib.Events.{v8val_to_char}
use threadjs_lib.Serialize.{restore, read_name}
use threadjs_lib.Serialize.Values.{
  Heap, Number, integral, double, number, is_int32, is_uint32, int32_value, uint32_value,
}
use threadjs_lib.Serialize.Trees.{saved_number}

take_all_but : (s : List ℕ) → take (length s) (s ++ 0 ∷ []) ≡ s
take_all_but [] = refl
take_all_but (c ∷ s) = ap (◌∷◌ c) (take_all_but s)

pub text_back : (s : List ℕ) → take ((v8val_to_char s).1 - 1) (v8val_to_char s).0 ≡ s
unfolding v8val_to_char
text_back s =
    let e : length s + 1 - 1 ≡ length s = omega arith in
    ap (λ n. take n (s ++ 0 ∷ [])) e ∙ take_all_but s

int32_back : (z : ℤ) → is_int32 (number (integral z)) ≡ true → int32_value (number (integral z)) ≡ z
int32_back (pos n) h = ground arith
int32_back (negsuc n) h = ground arith

uint32_back :
    (z : ℤ) → is_uint32 (number (integral z)) ≡ true → pos (uint32_value (number (integral z))) ≡ z
uint32_back (pos n) h = ap pos (ground arith)
uint32_back (negsuc n) h = ground (arith, h)

-- A number comes back from whichever of the three classes it was saved in.
pub number_back : (n : Number) (h : Heap) → restore (saved_number n) h ≡ (number n, h)
unfolding restore
number_back (double b) h = refl
number_back (integral z) h = elim (Bool-cases (is_int32 (number (integral z)))) [
  | inl i ↦ rw (saved_number, i, int32_back z i) refl
  | inr i ↦ elim (Bool-cases (is_uint32 (number (integral z)))) [
    | inl u ↦ rw (saved_number, i, u, uint32_back z u) refl
    | inr u ↦ rw (saved_number, i, u) refl
  ]
]

pub name_back : (s : List ℕ) → All NonZero s → read_name (s ++ 0 ∷ []) ≡ s
name_back s h = rw (read_name, before_nul_first s [] h) refl
