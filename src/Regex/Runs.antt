-- ===== src/Regex/Runs.antt =====
-- The matcher on a text that is put together from runs of characters of one class: where the next
-- item of the pattern refuses that class, a greedy repetition takes the run and never goes back.
use risc_v_pipeline_sim.Common.{
  ℕ, ◌-◌, ◌≡◌, refl, sym, ap, ◌∙◌, arith, true, false, ◌==◌, ◌<◌, inl, inr, Bool-cases, Option,
  none, some, [], ◌∷◌, ◌++◌, length, length-append, append-nil, take, take-append_exact, Text, All,
}
use mathlib.Core.Bool.{true≢false}
use risc_v_pipeline_sim.Regex.{
  Class, digit, hex, space, non_space, has, one, star, opening, closing, at_end, Pattern, Groups,
  plus, group_of, match_here, first_of,
}
use risc_v_pipeline_sim.Regex.Steps.{
  match_one, match_one_not, match_star, match_star_not, match_opening, match_closing,
}

-- Every character is of the class.
abbrev pub AllIn : Class → Text → Type 0
AllIn c s = All (λ x. has c x ≡ true) s

-- A text of one or more characters of the class.
abbrev pub IsRun : Class → Text → Type 0
IsRun c [] = ⊥
IsRun c (x ∷ s) = (has c x ≡ true) × AllIn c s

-- No character of the class stands first.
abbrev pub Outside : Class → Text → Type 0
Outside c [] = Unit
Outside c (x ∷ s) = has c x ≡ false

abbrev pub Disjoint : Class → Class → Type 0
Disjoint c d = (x : ℕ) → has c x ≡ true → has d x ≡ false

-- The pattern does not match where a character of the class stands.
abbrev pub Rejects : Class → Pattern → Type 0
Rejects c p =
    (x : ℕ) (s start : Text) (gs : Groups) → has c x ≡ true → match_here p (x ∷ s) start gs ≡ none

pub Outside-run : (c d : Class) (s rest : Text) → Disjoint c d → IsRun c s → Outside d (s ++ rest)
Outside-run c d [] rest apart h = absurd h
Outside-run c d (x ∷ s) rest apart h = apart x h.0

pub Rejects-one : (c d : Class) (p : Pattern) → Disjoint c d → Rejects c (one d ∷ p)
Rejects-one c d p apart x s start gs h = match_one_not d p x s start gs (apart x h)

pub Rejects-closing : (c : Class) (p : Pattern) → Rejects c p → Rejects c (closing ∷ p)
Rejects-closing c p r x s start gs h = match_closing p (x ∷ s) start gs ∙ r x s start _ h

pub Rejects-opening : (c : Class) (p : Pattern) → Rejects c p → Rejects c (opening ∷ p)
Rejects-opening c p r x s start gs h = match_opening p (x ∷ s) start gs ∙ r x s (x ∷ s) gs h

first_of-none : (a : Option Groups) → first_of a none ≡ a
first_of-none none = refl
first_of-none (some g) = refl

module _ (c : Class) (p : Pattern) (rest start : Text) (gs : Groups) where
  match_star-Outside :
      Outside c rest → match_here (star c ∷ p) rest start gs ≡ match_here p rest start gs
  match_star-Outside o = go rest o
    where
      go : (t : Text) → Outside c t → match_here (star c ∷ p) t start gs ≡ match_here p t start gs
      go [] o = unfold match_here in refl
      go (y ∷ t) o = match_star_not c p y t start gs o

  pub star_skip :
      (s : Text)
      → AllIn c s
      → Outside c rest
      → Rejects c p
      → match_here (star c ∷ p) (s ++ rest) start gs ≡ match_here p rest start gs
  star_skip [] h o r = match_star-Outside o
  star_skip (x ∷ s) h o r =
      match_star c p x (s ++ rest) start gs h.0
      ∙ (rw (r x (s ++ rest) start gs h.0) (first_of-none _))
      ∙ star_skip s h.1 o r

  -- With a match behind the run, it does not matter what the next item refuses.
  pub star_take :
      (s : Text) (out : Groups)
      → AllIn c s
      → Outside c rest
      → match_here p rest start gs ≡ some out
      → match_here (star c ∷ p) (s ++ rest) start gs ≡ some out
  star_take [] out h o m = match_star-Outside o ∙ m
  star_take (x ∷ s) out h o m =
      match_star c p x (s ++ rest) start gs h.0 ∙ (rw (star_take s out h.1 o m) refl)

  pub plus_skip :
      (s : Text)
      → IsRun c s
      → Outside c rest
      → Rejects c p
      → match_here (plus c p) (s ++ rest) start gs ≡ match_here p rest start gs
  plus_skip [] h o r = absurd h
  plus_skip (x ∷ s) h o r =
      match_one c (star c ∷ p) x (s ++ rest) start gs h.0 ∙ star_skip s h.1 o r

  pub plus_take :
      (s : Text) (out : Groups)
      → IsRun c s
      → Outside c rest
      → match_here p rest start gs ≡ some out
      → match_here (plus c p) (s ++ rest) start gs ≡ some out
  plus_take [] out h o m = absurd h
  plus_take (x ∷ s) out h o m =
      match_one c (star c ∷ p) x (s ++ rest) start gs h.0 ∙ star_take s out h.1 o m

pub taken : (s rest : Text) → take (length (s ++ rest) - length rest) (s ++ rest) ≡ s
taken s rest =
    take-append_exact (length (s ++ rest) - length rest) s rest
      (omega (arith, length-append s rest))

-- A group of a run is that run.
pub group_skip :
    (c : Class) (p : Pattern) (s rest start : Text) (gs : Groups)
    → IsRun c s
    → Outside c rest
    → Rejects c p
    → match_here (group_of (plus c) p) (s ++ rest) start gs
      ≡ match_here p rest (s ++ rest) (gs ++ s ∷ [])
group_skip c p s rest start gs h o r =
    match_opening (plus c (closing ∷ p)) (s ++ rest) start gs
    ∙ plus_skip c (closing ∷ p) rest (s ++ rest) gs s h o (Rejects-closing c p r)
    ∙ match_closing p rest (s ++ rest) gs
    ∙ (rw (taken s rest) refl)

pub group_take :
    (c : Class) (p : Pattern) (s rest start : Text) (gs out : Groups)
    → IsRun c s
    → Outside c rest
    → match_here p rest (s ++ rest) (gs ++ s ∷ []) ≡ some out
    → match_here (group_of (plus c) p) (s ++ rest) start gs ≡ some out
group_take c p s rest start gs out h o m =
    match_opening (plus c (closing ∷ p)) (s ++ rest) start gs
    ∙ plus_take c (closing ∷ p) rest (s ++ rest) gs s out h o
        (match_closing p rest (s ++ rest) gs ∙ (rw (taken s rest) m))

-- Where a run of a refused class stands, there is no match.
pub Rejects-run :
    (c : Class) (p : Pattern) (s rest start : Text) (gs : Groups)
    → Rejects c p
    → IsRun c s
    → match_here p (s ++ rest) start gs ≡ none
Rejects-run c p [] rest start gs r h = absurd h
Rejects-run c p (x ∷ s) rest start gs r h = r x (s ++ rest) start gs h.0

-- A run up to the end of the text.
pub star_all :
    (c : Class) (p : Pattern) (s start : Text) (gs out : Groups)
    → AllIn c s
    → match_here p [] start gs ≡ some out
    → match_here (star c ∷ p) s start gs ≡ some out
star_all c p s start gs out h m =
    ap (λ t. match_here (star c ∷ p) t start gs) (sym (append-nil s))
    ∙ star_take c p [] start gs s out h tt m

pub IsRun-AllIn : (c : Class) (s : Text) → 0 < length s → AllIn c s → IsRun c s
IsRun-AllIn c [] h a = absurd (omega arith)
IsRun-AllIn c (x ∷ s) h a = a

-- The classes of the patterns that stand next to each other.
pub Disjoint-space-digit : Disjoint space digit
Disjoint-space-digit x h = ground arith

pub Disjoint-space-hex : Disjoint space hex
Disjoint-space-hex x h = ground arith

pub Disjoint-digit-space : Disjoint digit space
Disjoint-digit-space x h = ground arith

pub Disjoint-hex-space : Disjoint hex space
Disjoint-hex-space x h = ground arith

pub Disjoint-space-non_space : Disjoint space non_space
Disjoint-space-non_space x h = ground arith

pub Disjoint-non_space-space : Disjoint non_space space
Disjoint-non_space-space x h = ground arith

-- A run that ends the text, before `$`.
pub Rejects-at_end : (c : Class) (p : Pattern) → has c b'\n' ≡ false → Rejects c (at_end ∷ p)
unfolding match_here
Rejects-at_end c p e x [] start gs h = elim (Bool-cases (x == b'\n')) [
  | inl newline ↦
      let same : x ≡ b'\n' = ground arith in absurd (true≢false (sym h ∙ ap (has c) same ∙ e))
  | inr other ↦ ground arith
]
Rejects-at_end c p e x (y ∷ s) start gs h = refl

-- White space and a group of one run, in front of a text that the run does not go on into.
pub field_skip :
    (c : Class) (p : Pattern) (blanks s rest start : Text) (gs : Groups)
    → IsRun space blanks
    → IsRun c s
    → Disjoint space c
    → Disjoint c space
    → Outside c rest
    → Rejects c p
    → match_here (plus space (group_of (plus c) p)) (blanks ++ (s ++ rest)) start gs
      ≡ match_here p rest (s ++ rest) (gs ++ s ∷ [])
field_skip c p blanks s rest start gs hb hs apart apart' o r =
    plus_skip space (group_of (plus c) p) (s ++ rest) start gs blanks hb
      (Outside-run c space s rest apart' hs)
      (Rejects-opening space (plus c (closing ∷ p))
        (Rejects-one space c (star c ∷ closing ∷ p) apart))
    ∙ group_skip c p s rest start gs hs o r
