-- ===== src/Generator/Pieces.antt =====
-- The abstract view of a generated program: what stands behind the base register's instructions, as
-- a list of single slots and loop blocks. The lists of gen_program.py are read off it.
use risc_v_pipeline_sim.Common.{
  ℕ, zero, suc, ◌+◌, ◌-◌, ◌≤◌, ◌≡◌, refl, ap, arith, List, [], ◌∷◌, ◌++◌, map, Option, none, some,
  length, length-append, take, drop, replicate, take-append, append_assoc, ltb, true,
}
use risc_v_pipeline_sim.Effect.{ok}
use risc_v_pipeline_sim.Generator.Program.{Slots, set_slot, set_slice}

-- A slot for the second pass, with its word once that has filled it; a loop block with its count of
-- retirements.
pub data Piece : Type 0 where
  single : Option ℕ → Piece
  loop : List ℕ → ℕ → Piece

abbrev pub size : Piece → ℕ
size (single o) = 1
size (loop ws retire) = length ws

abbrev pub slots_of : List Piece → Slots
slots_of [] = []
slots_of (single o ∷ ps) = o ∷ slots_of ps
slots_of (loop ws retire ∷ ps) = map some ws ++ slots_of ps

abbrev pub total : List Piece → ℕ
total [] = 0
total (p ∷ ps) = size p + total ps

abbrev pub word_in : Option ℕ → List ℕ
word_in none = []
word_in (some w) = w ∷ []

-- The words of the slots that are filled.
abbrev pub words_of : List Piece → List ℕ
words_of [] = []
words_of (single o ∷ ps) = word_in o ++ words_of ps
words_of (loop ws retire ∷ ps) = ws ++ words_of ps

-- The ranges of the loop blocks and the single slots, for pieces that begin at slot `i`.
abbrev pub ranges_from : ℕ → List Piece → List (ℕ × ℕ)
ranges_from i [] = []
ranges_from i (single o ∷ ps) = ranges_from (i + 1) ps
ranges_from i (loop ws retire ∷ ps) = (i, i + length ws) ∷ ranges_from (i + length ws) ps

abbrev pub singles_from : ℕ → List Piece → List ℕ
singles_from i [] = []
singles_from i (single o ∷ ps) = i ∷ singles_from (i + 1) ps
singles_from i (loop ws retire ∷ ps) = singles_from (i + length ws) ps

-- One retirement for a single slot, however a branch may go.
abbrev pub retire_of : List Piece → ℕ
retire_of [] = 0
retire_of (single o ∷ ps) = 1 + retire_of ps
retire_of (loop ws retire ∷ ps) = retire + retire_of ps

pub length-map-some : (ws : List ℕ) → length (map {B = Option ℕ} some ws) ≡ length ws
length-map-some [] = refl
length-map-some (w ∷ ws) = ap suc (length-map-some ws)

pub length-slots_of : (ps : List Piece) → length (slots_of ps) ≡ total ps
length-slots_of [] = refl
length-slots_of (single o ∷ ps) = omega (arith, length-slots_of ps)
length-slots_of (loop ws retire ∷ ps) =
    rw (length-append, length-map-some) (omega (arith, length-slots_of ps))

module _ (q : Piece) where
  pub slots_of-append :
      (ps : List Piece) → slots_of (ps ++ q ∷ []) ≡ slots_of ps ++ slots_of (q ∷ [])
  slots_of-append [] = refl
  slots_of-append (single o ∷ ps) = ap (λ t. o ∷ t) (slots_of-append ps)
  slots_of-append (loop ws retire ∷ ps) =
      rw append_assoc (ap (λ t. map some ws ++ t) (slots_of-append ps))

  pub total-append : (ps : List Piece) → total (ps ++ q ∷ []) ≡ total ps + size q
  total-append [] = omega arith
  total-append (p ∷ ps) = omega (arith, total-append ps)

  pub ranges_from-append :
      (i j : ℕ) (ps : List Piece)
      → i + total ps ≡ j
      → ranges_from i (ps ++ q ∷ []) ≡ ranges_from i ps ++ ranges_from j (q ∷ [])
  ranges_from-append i j [] e = let e' : i ≡ j = omega arith in rw e'
  ranges_from-append i j (single o ∷ ps) e = ranges_from-append (i + 1) j ps (omega arith)
  ranges_from-append i j (loop ws retire ∷ ps) e =
      ap (λ t. (i, i + length ws) ∷ t) (ranges_from-append (i + length ws) j ps (omega arith))

  pub singles_from-append :
      (i j : ℕ) (ps : List Piece)
      → i + total ps ≡ j
      → singles_from i (ps ++ q ∷ []) ≡ singles_from i ps ++ singles_from j (q ∷ [])
  singles_from-append i j [] e = let e' : i ≡ j = omega arith in rw e'
  singles_from-append i j (single o ∷ ps) e =
      ap (λ t. i ∷ t) (singles_from-append (i + 1) j ps (omega arith))
  singles_from-append i j (loop ws retire ∷ ps) e =
      singles_from-append (i + length ws) j ps (omega arith)

  pub retire_of-append :
      (ps : List Piece) → retire_of (ps ++ q ∷ []) ≡ retire_of ps + retire_of (q ∷ [])
  retire_of-append [] = omega arith
  retire_of-append (single o ∷ ps) = omega (arith, retire_of-append ps)
  retire_of-append (loop ws retire ∷ ps) = omega (arith, retire_of-append ps)

drop-append_more : (xs ys : Slots) (k n : ℕ) → length xs + k ≡ n → drop n (xs ++ ys) ≡ drop k ys
drop-append_more [] ys k n e = let e' : k ≡ n = omega arith in rw e'
drop-append_more (x ∷ xs) ys k zero e = absurd (omega arith)
drop-append_more (x ∷ xs) ys k (suc n) e = drop-append_more xs ys k n (omega arith)

take-append_at : (xs ys : Slots) (n : ℕ) → length xs ≡ n → take n (xs ++ ys) ≡ xs
take-append_at xs ys n e = rw (← e) (take-append xs ys)

-- Writing behind a filled first part.
pub set_slice-end :
    (i : ℕ) (ws : List ℕ) (front back : Slots)
    → length front ≡ i
    → set_slice i ws (front ++ back) ≡ front ++ (map some ws ++ drop (length ws) back)
unfolding set_slice
set_slice-end i ws front back e = rw (
  take-append_at front back i e,
  drop-append_more front back (length ws) (i + length ws) (omega arith),
  append_assoc,
)

pub set_slot-next :
    (i w : ℕ) (front back : Slots) (o : Option ℕ)
    → length front ≡ i
    → set_slot i w (front ++ o ∷ back) ≡ ok (front ++ some w ∷ back)
unfolding set_slot
set_slot-next i w front back o e =
    let inside : ltb i (length (front ++ o ∷ back)) ≡ true =
      ground (arith, length-append front (o ∷ back)) in
    rw (
      inside,
      take-append_at front (o ∷ back) i e,
      drop-append_more front (o ∷ back) 1 (i + 1) (omega arith),
    )

pub drop-replicate :
    {A : Type 0} (k n : ℕ) (a : A) → k ≤ n → drop k (replicate n a) ≡ replicate (n - k) a
drop-replicate zero n a h = let e : n - 0 ≡ n = omega arith in rw e
drop-replicate (suc k) zero a h = absurd (omega arith)
drop-replicate (suc k) (suc n) a h =
    let e : suc n - suc k ≡ n - k = omega arith in rw e (drop-replicate k n a (omega arith))
