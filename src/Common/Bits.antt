-- ===== src/Common/Bits.antt =====
-- `|` of disjoint bit fields is their sum, and `&` with a mask of low ones is a remainder.
use Prim.Native.Nat.{ℕ, zero, suc, ◌+◌, ◌-◌, ◌*◌, ◌/◌, ◌%◌, ◌^◌, ◌≤◌, ◌<◌, min, max}
use Prim.Native.Nat.{bit_and, bit_or, digits, bit_and-bitwise, bit_or-bitwise}
use mathlib.Core.Path.{◌≡◌, refl, ap}
use native.Mathlib.Nat.{pow-suc, one-le-pow, le_refl}
use native.Mathlib.Omega.{arith}

-- The recursion that the native operations stand for, with its count of rounds taken away.
module _ (z : ℕ → ℕ) (f : ℕ → ℕ → ℕ) where
  digits_rounds : (k a b : ℕ) → a ≤ k → (m : ℕ) → a ≤ m → digits z f k a b ≡ digits z f m a b
  digits_rounds zero zero b h zero h' = refl
  digits_rounds zero zero b h (suc m) h' = refl
  digits_rounds zero (suc a) b h m h' = absurd (omega arith)
  digits_rounds (suc k) zero b h zero h' = refl
  digits_rounds (suc k) zero b h (suc m) h' = refl
  digits_rounds (suc k) (suc a) b h zero h' = absurd (omega arith)
  digits_rounds (suc k) (suc a) b h (suc m) h' =
      ap (λ (t : ℕ). t * 2 + f (suc a % 2) (b % 2))
        (digits_rounds k (suc a / 2) (b / 2) (omega arith) m (omega arith))

  pub lowest_digit :
      (a b : ℕ)
      → digits z f (suc a) (suc a) b
        ≡ digits z f (suc a / 2) (suc a / 2) (b / 2) * 2 + f (suc a % 2) (b % 2)
  lowest_digit a b =
      ap (λ (t : ℕ). t * 2 + f (suc a % 2) (b % 2))
        (digits_rounds a (suc a / 2) (b / 2) (omega arith) (suc a / 2) (le_refl _))

pub or_digit : (a b : ℕ) → bit_or a b ≡ bit_or (a / 2) (b / 2) * 2 + max (a % 2) (b % 2)
or_digit zero b = rw (bit_or-bitwise 0 b, bit_or-bitwise (0 / 2) (b / 2)) (omega arith)
or_digit (suc a) b =
    rw (bit_or-bitwise (suc a) b, bit_or-bitwise (suc a / 2) (b / 2))
      (lowest_digit (λ y. y) max a b)

pub and_digit : (a b : ℕ) → bit_and a b ≡ bit_and (a / 2) (b / 2) * 2 + min (a % 2) (b % 2)
and_digit zero b = rw (bit_and-bitwise 0 b, bit_and-bitwise (0 / 2) (b / 2)) (omega arith)
and_digit (suc a) b =
    rw (bit_and-bitwise (suc a) b, bit_and-bitwise (suc a / 2) (b / 2))
      (lowest_digit (λ y. 0) min a b)

-- Induction on a bound of both arguments.
or-zero_below : (n a : ℕ) → a ≤ n → bit_or a 0 ≡ a
or-zero_below n zero h = refl
or-zero_below zero (suc a) h = absurd (omega arith)
or-zero_below (suc n) (suc a) h =
    omega (arith, or_digit (suc a) 0, or-zero_below n (suc a / 2) (omega arith))

zero-or : (b : ℕ) → bit_or 0 b ≡ b
zero-or b = bit_or-bitwise 0 b

or-zero : (a : ℕ) → bit_or a 0 ≡ a
or-zero a = or-zero_below a a (le_refl a)

zero-and : (b : ℕ) → bit_and 0 b ≡ 0
zero-and b = bit_and-bitwise 0 b

and-zero_below : (n a : ℕ) → a ≤ n → bit_and a 0 ≡ 0
and-zero_below n zero h = refl
and-zero_below zero (suc a) h = absurd (omega arith)
and-zero_below (suc n) (suc a) h =
    omega (arith, and_digit (suc a) 0, and-zero_below n (suc a / 2) (omega arith))

and-zero : (a : ℕ) → bit_and a 0 ≡ 0
and-zero a = and-zero_below a a (le_refl a)

twice_pow : (q k : ℕ) → q * 2 ^ suc k ≡ q * 2 ^ k * 2
twice_pow q k = omega (arith, ap (λ (t : ℕ). q * t) (pow-suc 2 k))

-- The bits below position k and those from k on do not meet.
or_split :
    (k q r p s : ℕ)
    → r < 2 ^ k
    → s < 2 ^ k
    → bit_or (q * 2 ^ k + r) (p * 2 ^ k + s) ≡ bit_or q p * 2 ^ k + bit_or r s
or_split zero q r p s hr hs = ground (arith, zero-or 0)
or_split (suc k) q r p s hr hs = ground (
  arith,
  or_digit (q * 2 ^ suc k + r) (p * 2 ^ suc k + s),
  or_digit r s,
  twice_pow q k,
  twice_pow p k,
  twice_pow (bit_or q p) k,
  pow-suc 2 k,
  or_split k q (r / 2) p (s / 2),
)

and_mask_fields : (k q r : ℕ) → r < 2 ^ k → bit_and (q * 2 ^ k + r) (2 ^ k - 1) ≡ r
and_mask_fields zero q r h = ground (arith, and-zero (q * 2 ^ 0 + r))
and_mask_fields (suc k) q r h = ground (
  arith,
  and_digit (q * 2 ^ suc k + r) (2 ^ suc k - 1),
  twice_pow q k,
  pow-suc 2 k,
  one-le-pow k 2,
  and_mask_fields k q (r / 2),
)

-- `a & (2 ^ k - 1)`
pub and_mask : (k a : ℕ) → bit_and a (2 ^ k - 1) ≡ a % 2 ^ k
and_mask k a = ground (arith, one-le-pow k 2, and_mask_fields k (a / 2 ^ k) (a % 2 ^ k))

-- `a & (1 << k)`, for `a` with the bit `b` at position k.
pub and_bit :
    (k q b r : ℕ) → b < 2 → r < 2 ^ k → bit_and ((q * 2 + b) * 2 ^ k + r) (2 ^ k) ≡ b * 2 ^ k
and_bit zero q b r hb hr =
    ground (arith, and_digit ((q * 2 + b) * 2 ^ 0 + r) 1, and-zero (((q * 2 + b) * 2 ^ 0 + r) / 2))
and_bit (suc k) q b r hb hr = ground (
  arith,
  and_digit ((q * 2 + b) * 2 ^ suc k + r) (2 ^ suc k),
  twice_pow (q * 2 + b) k,
  twice_pow b k,
  pow-suc 2 k,
  and_bit k q b (r / 2),
)

or_low : (lo y f : ℕ) → y < 2 ^ lo → f % 2 ^ lo ≡ 0 → bit_or y f ≡ y + f
or_low lo y f hy h0 =
    ground (arith, or_split lo 0 y (f / 2 ^ lo) 0, one-le-pow lo 2, zero-or (f / 2 ^ lo), or-zero y)

-- `x | f`, where `f` lies between the bits `lo` and `hi` and `x` has no bit there.
pub or_field :
    (lo hi x f : ℕ) → f < 2 ^ hi → x % 2 ^ hi < 2 ^ lo → f % 2 ^ lo ≡ 0 → bit_or x f ≡ x + f
or_field lo hi x f hf hx h0 = ground (
  arith,
  or_split hi (x / 2 ^ hi) (x % 2 ^ hi) 0 f,
  one-le-pow hi 2,
  or-zero (x / 2 ^ hi),
  or_low lo (x % 2 ^ hi) f hx h0,
)

-- `a & (p << k)`, for `a` with the bits `q` from position k on.
pub and_high : (k q r p : ℕ) → r < 2 ^ k → bit_and (q * 2 ^ k + r) (p * 2 ^ k) ≡ bit_and q p * 2 ^ k
and_high zero q r p h =
    let a : q * 2 ^ 0 + r ≡ q = omega arith in
    let b : p * 2 ^ 0 ≡ p = omega arith in rw (a, b) (omega arith)
and_high (suc k) q r p h = ground (
  arith,
  and_digit (q * 2 ^ suc k + r) (p * 2 ^ suc k),
  twice_pow q k,
  twice_pow p k,
  twice_pow (bit_and q p) k,
  pow-suc 2 k,
  and_high k q (r / 2) p,
)
