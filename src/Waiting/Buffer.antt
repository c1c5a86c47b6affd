-- ===== src/Waiting/Buffer.antt =====
-- src/main.cc, j_wait: its message goes through an array of 128 chars on the stack.
use native.Mathlib.Numerals.{add-one}
use threadjs_lib.Base.{
  ℕ, zero, suc, ◌+◌, ◌-◌, ◌≤◌, ◌<◌, ◌≡◌, refl, List, [], ◌∷◌, ◌++◌, some, none, arith, All, length,
  length-append, drop, append_assoc, ap,
}
use threadjs_lib.Events.{of_string}
use threadjs_lib.Events.Text.{NonZero, get_data-of_string}
use threadjs_lib.Waiting.{event_size, overlay, poke, wait_event}

length-overlay : (s buf : List ℕ) → length (overlay s buf) ≡ length buf
unfolding overlay
length-overlay [] buf = refl
length-overlay (c ∷ s) [] = refl
length-overlay (c ∷ s) (d ∷ buf) = ap suc (length-overlay s buf)

overlay-front : (s buf : List ℕ) → length s ≤ length buf → overlay s buf ≡ s ++ drop (length s) buf
unfolding overlay
overlay-front [] buf h = refl
overlay-front (c ∷ s) [] h = elim h [ ]
overlay-front (c ∷ s) (d ∷ buf) h = ap (◌∷◌ c) (overlay-front s buf (omega arith))

poke_outside : (i v : ℕ) (buf : List ℕ) → length buf ≤ i → poke i v buf ≡ none
unfolding poke
poke_outside i v [] h = refl
poke_outside zero v (c ∷ buf) h = elim h [ ]
poke_outside (suc i) v (c ∷ buf) h = rw (poke_outside i v buf (omega arith))

poke_behind :
    (v : ℕ) (s rest : List ℕ)
    → 0 < length rest
    → poke (suc (length s)) v (s ++ 0 ∷ rest) ≡ some (s ++ 0 ∷ v ∷ drop 1 rest)
unfolding poke
poke_behind v [] [] h = elim h [ ]
poke_behind v [] (c ∷ rest) h = refl
poke_behind v (d ∷ s) rest h = rw (poke_behind v s rest h)

length-drop : (n : ℕ) (xs : List ℕ) → length (drop n xs) ≡ length xs - n
length-drop zero xs = omega arith
length-drop (suc n) [] = omega arith
length-drop (suc n) (x ∷ xs) = omega (arith, length-drop n xs)

-- What the code relies on in String::WriteUtf8: a text that leaves room for a NUL is written whole,
-- with a NUL behind it.
abbrev pub WritesWhole : (List ℕ → ℕ → List ℕ) → Type 0
WritesWhole write_utf8 = (t : List ℕ) (n : ℕ) → length t < n → write_utf8 t n ≡ t ++ 0 ∷ []

module _ (write_utf8 : List ℕ → ℕ → List ℕ) (buf : List ℕ) (sized : length buf ≡ event_size) where
  -- A message of at most 126 bytes with no NUL in it is sent as it is, whatever stood in the array.
  pub wait_event-short :
      (s : List ℕ)
      → WritesWhole write_utf8
      → length s ≤ 126
      → All NonZero s
      → wait_event write_utf8 buf s ≡ some (of_string s)
  unfolding wait_event
  wait_event-short s whole short nz =
      let rest = drop (length (s ++ 0 ∷ [])) buf in
      rw (whole s event_size (omega arith)) (
        rw (overlay-front (s ++ 0 ∷ []) buf (omega (arith, length-append s (0 ∷ [])))) (
          rw (append_assoc s (0 ∷ []) rest) (
            rw (add-one (length s)) (
              rw
                (poke_behind 0 s rest
                  (omega (arith, length-append s (0 ∷ []), length-drop (length (s ++ 0 ∷ [])) buf)))
                ((get_data-of_string s (0 ∷ drop 1 rest) nz).2)))))

  -- A message of 127 bytes or more makes j_wait write behind the end of its array, whatever
  -- WriteUtf8 does.
  pub wait_event-long : (s : List ℕ) → 127 ≤ length s → wait_event write_utf8 buf s ≡ none
  unfolding wait_event
  wait_event-long s long = rw (
      poke_outside (length s + 1) 0 (overlay (write_utf8 s event_size) buf)
        (omega (arith, length-overlay (write_utf8 s event_size) buf)))
