-- ===== src/Events/Delivery.antt =====
-- src/data.h and src/main.cc: what reaches the other side, over any history of calls.
use threadjs_lib.Base.{
  ℕ, ◌≡◌, refl, ◌∙◌, ap, sym, subst, List, [], ◌∷◌, ◌++◌, Option, some, ◌>>=◌, append_assoc,
  append-nil,
}
use threadjs_lib.Events.{EventData, World}
use threadjs_lib.Events.Channel.{
  Link, apart, bound, Op, main_sends, sub_sends, binds, sub_takes, main_takes, next_link, taken,
  Represents, step, step-Refines,
}

-- The messages that the calls send, and that wait to be taken.
abbrev pub main_sent : List Op → List EventData
main_sent [] = []
main_sent (main_sends e ∷ os) = e ∷ main_sent os
main_sent (_ ∷ os) = main_sent os

abbrev pub sub_sent : List Op → List EventData
sub_sent [] = []
sub_sent (sub_sends e ∷ os) = e ∷ sub_sent os
sub_sent (_ ∷ os) = sub_sent os

abbrev pub to_sub : Link → List EventData
to_sub (apart p u) = p
to_sub (bound a b u) = a

-- What a call takes on the sub side, and on the main side, in front of what later calls take.
abbrev pub sub_got : Op → Option EventData → List EventData → List EventData
sub_got sub_takes (some e) later = e ∷ later
sub_got _ _ later = later

abbrev pub main_got : Op → Option EventData → List EventData → List EventData
main_got main_takes (some e) later = e ∷ later
main_got _ _ later = later

-- What one step of the specification does to the messages on their way to the sub side: with `a`
-- what is got later and `x` what waits at the end.
to_sub-next_link :
    (o : Op) (l : Link) (os : List Op) (a x : List EventData)
    → to_sub (next_link o l) ++ main_sent os ≡ a ++ x
    → to_sub l ++ main_sent (o ∷ os) ≡ sub_got o (taken o l) a ++ x
to_sub-next_link (main_sends e) (apart p u) os a x h =
    sym (append_assoc p (e ∷ []) (main_sent os)) ∙ h
to_sub-next_link (main_sends e) (bound p b u) os a x h =
    sym (append_assoc p (e ∷ []) (main_sent os)) ∙ h
to_sub-next_link sub_takes (bound (e ∷ p) b u) os a x h = ap (◌∷◌ e) h
to_sub-next_link sub_takes (bound [] b u) os a x h = h
to_sub-next_link sub_takes (apart p u) os a x h = h
to_sub-next_link main_takes (bound p [] u) os a x h = h
to_sub-next_link main_takes (bound p (e ∷ b) u) os a x h = h
to_sub-next_link main_takes (apart p u) os a x h = h
to_sub-next_link (sub_sends e) (apart p u) os a x h = h
to_sub-next_link (sub_sends e) (bound p b u) os a x h = h
to_sub-next_link binds (apart p u) os a x h = h
to_sub-next_link binds (bound p b u) os a x h = h

-- The same for the main side, once the sides are bound.
to_main-next_link :
    (o : Op) (p b u : List EventData)
    → (p' b' : List EventData) × (next_link o (bound p b u) ≡ bound p' b' u)
      × ((os : List Op) (a x : List EventData)
          → b' ++ sub_sent os ≡ a ++ x
          → b ++ sub_sent (o ∷ os) ≡ main_got o (taken o (bound p b u)) a ++ x)
to_main-next_link (sub_sends e) p b u =
    (p, b ++ e ∷ [], refl, λ os a x h. sym (append_assoc b (e ∷ []) (sub_sent os)) ∙ h)
to_main-next_link (main_sends e) p b u = (p ++ e ∷ [], b, refl, λ os a x h. h)
to_main-next_link binds p b u = (p, b, refl, λ os a x h. h)
to_main-next_link sub_takes [] b u = ([], b, refl, λ os a x h. h)
to_main-next_link sub_takes (e ∷ p) b u = (p, b, refl, λ os a x h. h)
to_main-next_link main_takes p [] u = (p, [], refl, λ os a x h. h)
to_main-next_link main_takes p (e ∷ b) u = (p, b, refl, λ os a x h. ap (◌∷◌ e) h)

module _ (m s hm hs : ℕ) where
  -- What both sides got, and the state after the calls.
  unfoldable pub run : List Op → World → Option (List EventData × List EventData × World)
  run [] w = some ([], [], w)
  run (o ∷ os) w = step m s hm hs o w >>= λ (t, w').
      run os w' >>= λ (a, b, w''). some (sub_got o t a, main_got o t b, w'')

  -- Over any history of calls of the two sides, none of which overlaps another, the messages to the
  -- sub side arrive complete, once and in order, those sent before the bind included: what it gets
  -- and what still waits are what waited before and what the main side sent.
  pub run_delivers :
      (os : List Op) (w : World) (l : Link)
      → Represents m s hm hs w l
      → (a b : List EventData) × (w' : World) × (l' : Link) × (run os w ≡ some (a, b, w'))
        × Represents m s hm hs w' l'
        × (to_sub l ++ main_sent os ≡ a ++ to_sub l')
  unfolding run
  run_delivers [] w l r = ([], [], w, l, refl, r, append-nil (to_sub l))
  run_delivers (o ∷ os) w l r =
      let (w₁, stepped, r₁) = step-Refines m s hm hs o w l r in
      let (a, b, w₂, l₂, ran, r₂, kept) = run_delivers os w₁ (next_link o l) r₁ in
      (
        sub_got o (taken o l) a,
        main_got o (taken o l) b,
        w₂,
        l₂,
        rw (stepped, ran),
        r₂,
        to_sub-next_link o l os a (to_sub l₂) kept,
      )

  -- So it is with the messages to the main side once the sides are bound; what the sub side sent
  -- before that, `u`, is never delivered.
  pub run_delivers_back :
      (os : List Op) (w : World) (p b u : List EventData)
      → Represents m s hm hs w (bound p b u)
      → (a c : List EventData) × (w' : World) × (p' b' : List EventData) × (run os w
          ≡ some (a, c, w'))
        × Represents m s hm hs w' (bound p' b' u)
        × (b ++ sub_sent os ≡ c ++ b')
  unfolding run
  run_delivers_back [] w p b u r = ([], [], w, p, b, refl, r, append-nil b)
  run_delivers_back (o ∷ os) w p b u r =
      let l = bound p b u in
      let (w₁, stepped, r₁) = step-Refines m s hm hs o w l r in
      let (p₁, b₁, linked, back) = to_main-next_link o p b u in
      let (a, c, w₂, p₂, b₂, ran, r₂, kept) =
        run_delivers_back os w₁ p₁ b₁ u (subst (Represents m s hm hs w₁) linked r₁) in
      (
        sub_got o (taken o l) a,
        main_got o (taken o l) c,
        w₂,
        p₂,
        b₂,
        rw (stepped, ran),
        r₂,
        back os c b₂ kept,
      )
