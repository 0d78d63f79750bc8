-- ===== src/Common/BitBounds.antt =====
-- Bitwise operations stay below a power of two.
use Prim.Native.Nat.{ℕ, zero, suc, ◌+◌, ◌-◌, ◌*◌, ◌/◌, ◌%◌, ◌^◌, ◌≤◌, ◌<◌}
use Prim.Native.Nat.{bit_and, bit_or, bit_xor, differ, bit_xor-bitwise}
use mathlib.Core.Path.{◌≡◌, ap, sym, ◌∙◌, subst}
use native.Mathlib.Nat.{pow-suc, one-le-pow, div-lt_iff_lt-mul}
use native.Mathlib.Omega.{arith}
use risc_v_pipeline_sim.Common.Bits.{lowest_digit, or_digit, and_digit}

pub and_below : (k a b : ℕ) → a < 2 ^ k → b < 2 ^ k → bit_and a b < 2 ^ k
and_below zero zero zero ha hb = ha
and_below zero (suc a) b ha hb = absurd (omega arith)
and_below zero a (suc b) ha hb = absurd (omega arith)
and_below (suc k) a b ha hb = omega (
  arith,
  and_digit a b,
  pow-suc 2 k,
  and_below k (a / 2) (b / 2) (omega (arith, pow-suc 2 k)) (omega (arith, pow-suc 2 k)),
)

pub or_below : (k a b : ℕ) → a < 2 ^ k → b < 2 ^ k → bit_or a b < 2 ^ k
or_below zero zero zero ha hb = ha
or_below zero (suc a) b ha hb = absurd (omega arith)
or_below zero a (suc b) ha hb = absurd (omega arith)
or_below (suc k) a b ha hb = omega (
  arith,
  or_digit a b,
  pow-suc 2 k,
  or_below k (a / 2) (b / 2) (omega (arith, pow-suc 2 k)) (omega (arith, pow-suc 2 k)),
)

xor_digit : (a b : ℕ) → bit_xor a b ≡ bit_xor (a / 2) (b / 2) * 2 + differ (a % 2) (b % 2)
xor_digit zero b = rw (bit_xor-bitwise 0 b, bit_xor-bitwise (0 / 2) (b / 2)) (omega arith)
xor_digit (suc a) b =
    rw (bit_xor-bitwise (suc a) b, bit_xor-bitwise (suc a / 2) (b / 2))
      (lowest_digit (λ y. y) differ a b)

differ_below : (x y : ℕ) → x < 2 → y < 2 → differ x y < 2
differ_below zero y hx hy = hy
differ_below (suc zero) zero hx hy = hx
differ_below (suc zero) (suc zero) hx hy = omega arith
differ_below (suc (suc x)) y hx hy = absurd (omega arith)
differ_below (suc zero) (suc (suc y)) hx hy = absurd (omega arith)

pub xor_below : (k a b : ℕ) → a < 2 ^ k → b < 2 ^ k → bit_xor a b < 2 ^ k
xor_below zero zero zero ha hb = ha
xor_below zero (suc a) b ha hb = absurd (omega arith)
xor_below zero a (suc b) ha hb = absurd (omega arith)
xor_below (suc k) a b ha hb = omega (
  arith,
  xor_digit a b,
  pow-suc 2 k,
  differ_below (a % 2) (b % 2) (omega arith) (omega arith),
  xor_below k (a / 2) (b / 2) (omega (arith, pow-suc 2 k)) (omega (arith, pow-suc 2 k)),
)

pow_both : (s k : ℕ) → 2 ^ k * 2 ^ s ≡ 2 ^ (k + s)
pow_both zero k =
    let e : k + 0 ≡ k = omega arith in let two : ℕ → ℕ = λ t. 2 ^ t in omega (arith, ap two e)
pow_both (suc s) k =
    let e : k + suc s ≡ suc (k + s) = omega arith in
    let two : ℕ → ℕ = λ t. 2 ^ t in
    let times : ℕ → ℕ = λ t. 2 ^ k * t in
    omega (arith, ap times (pow-suc 2 s), pow_both s k, ap two e, pow-suc 2 (k + s))

-- A number of n bits, shifted right by s, has n - s bits.
pub shift_below : (a n s : ℕ) → s ≤ n → a < 2 ^ n → a / 2 ^ s < 2 ^ (n - s)
shift_below a n s h ha =
    let e : n - s + s ≡ n = omega arith in
    let whole : 2 ^ (n - s) * 2 ^ s ≡ 2 ^ n = pow_both s (n - s) ∙ ap (λ k. 2 ^ k) e in
    (div-lt_iff_lt-mul (one-le-pow s 2 (omega arith))).1 (subst (λ t. a < t) (sym whole) ha)
