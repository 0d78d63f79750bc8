-- ===== src/Regex/Steps.antt =====
-- One step of the matcher, by the test of its character.
use risc_v_pipeline_sim.Common.{
  ℕ, ◌≡◌, refl, arith, true, false, none, [], ◌∷◌, ◌++◌, ◌-◌, length, take, Text,
}
use risc_v_pipeline_sim.Regex.{
  Class, has, one, star, opening, closing, at_end, Pattern, Groups, match_here, first_of,
}

module _ (c : Class) (p : Pattern) (x : ℕ) (s start : Text) (gs : Groups) where
  pub match_one : has c x ≡ true → match_here (one c ∷ p) (x ∷ s) start gs ≡ match_here p s start gs
  unfolding match_here
  match_one h = ground arith

  pub match_one_not : has c x ≡ false → match_here (one c ∷ p) (x ∷ s) start gs ≡ none
  unfolding match_here
  match_one_not h = ground arith

  pub match_star :
      has c x ≡ true
      → match_here (star c ∷ p) (x ∷ s) start gs
        ≡ first_of (match_here (star c ∷ p) s start gs) (match_here p (x ∷ s) start gs)
  unfolding match_here
  match_star h = ground arith

  pub match_star_not :
      has c x ≡ false → match_here (star c ∷ p) (x ∷ s) start gs ≡ match_here p (x ∷ s) start gs
  unfolding match_here
  match_star_not h = ground arith

module _ (p : Pattern) (s start : Text) (gs : Groups) where
  pub match_opening : match_here (opening ∷ p) s start gs ≡ match_here p s s gs
  unfolding match_here
  match_opening = refl

  pub match_closing :
      match_here (closing ∷ p) s start gs
      ≡ match_here p s start (gs ++ take (length start - length s) start ∷ [])
  unfolding match_here
  match_closing = refl

pub match_at_end :
    (p : Pattern) (start : Text) (gs : Groups)
    → match_here (at_end ∷ p) [] start gs ≡ match_here p [] start gs
unfolding match_here
match_at_end p start gs = refl
