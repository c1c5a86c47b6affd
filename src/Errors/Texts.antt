-- ===== src/Errors/Texts.antt =====
-- src/tools.h and src/main.cc: the texts of error messages.
use threadjs_lib.Base.{
  ℕ, ◌+◌, length, ◌==◌, ◌≡◌, refl, List, [], ◌∷◌, ◌++◌, some, Bool-cases, inl, inr,
}
use threadjs_lib.Events.{EventData, before_nul, of_chars}
use threadjs_lib.Errors.{str_event}

before_nul_total : (t : List ℕ) → (s : List ℕ) × (before_nul (t ++ 0 ∷ []) ≡ some s)
unfolding before_nul
before_nul_total [] = ([], refl)
before_nul_total (c ∷ t) = elim (Bool-cases (c == 0)) [
  | inl stops ↦ ([], rw stops)
  | inr goes ↦ let (s, e) = before_nul_total t in (c ∷ s, rw goes (rw e))
]

pub str_event_total : (t : List ℕ) → (e : EventData) × (str_event t ≡ some e)
unfolding str_event of_chars
str_event_total t =
    let (s, e) = before_nul_total t in (record { bytes = s ++ 0 ∷ []; len = length s + 1 }, rw e)
