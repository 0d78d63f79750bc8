-- ===== src/Common/Digits.antt =====
-- Numbers printed to base 10 or 16, and read back by Python's `int`.
use Prim.Native.Nat.{ℕ, zero, suc, ◌+◌, ◌-◌, ◌*◌, ◌/◌, ◌%◌, ◌^◌, ◌≤◌, ◌<◌}
use mathlib.Core.Path.{◌≡◌, refl, sym, ◌∙◌}
use mathlib.Core.Logic.{◌⊎◌, inl, inr}
use mathlib.Core.Bool.{true, false}
use mathlib.Core.List.{[], ◌∷◌, ◌++◌}
use native.Mathlib.Omega.{arith}
use native.Mathlib.Nat.{pow-suc}
use risc_v_pipeline_sim.Common.Tests.{ltb, Bool-cases, if◌then◌else◌}
use risc_v_pipeline_sim.Common.Lists.{
  length, length-append, length-replicate, replicate, All, All-append,
}
use risc_v_pipeline_sim.Common.Ascii.{Text, is_digit, is_hex, digit_value, int_from, int_base}

-- The digit 0 to 9 or a to f.
abbrev pub digit_char : ℕ → ℕ
digit_char d = if ltb d 10 then b'0' + d else b'a' + (d - 10)

-- The digits of v, with no zeros before them; v rounds are enough.
unfoldable pub digits_of : (base rounds v : ℕ) → Text
digits_of base zero v = digit_char (v % base) ∷ []
digits_of base (suc rounds) v = elim (ltb v base) [
  | true ↦ digit_char v ∷ []
  | false ↦ digits_of base rounds (v / base) ++ digit_char (v % base) ∷ []
]

abbrev pub IsBase : ℕ → Type 0
IsBase b = (b ≡ 10) ⊎ (b ≡ 16)

digit_char-value : (d : ℕ) → d < 16 → digit_value (digit_char d) ≡ d
digit_char-value d h = ground arith

digit_char-is_digit : (d : ℕ) → d < 10 → is_digit (digit_char d) ≡ true
digit_char-is_digit d h = ground arith

digit_char-is_hex : (d : ℕ) → d < 16 → is_hex (digit_char d) ≡ true
digit_char-is_hex d h = ground arith

pub int_from-append :
    (base acc : ℕ) (xs ys : Text)
    → int_from base acc (xs ++ ys) ≡ int_from base (int_from base acc xs) ys
int_from-append base acc [] ys = refl
int_from-append base acc (x ∷ xs) ys = int_from-append base (acc * base + digit_value x) xs ys

-- Division by either base.
record Divides (b v : ℕ) : Type 0 where
  parts : v ≡ v / b * b + v % b
  remainder : v % b < b
  smaller : b ≤ v → v / b < v
  base_small : b ≤ 16
  base_pos : 1 < b

divides : (b v : ℕ) → IsBase b → Divides b v
divides b v (inl e) = rw e (record {
  parts = omega arith;
  remainder = omega arith;
  smaller = λ h. omega arith;
  base_small = omega arith;
  base_pos = omega arith;
})
divides b v (inr e) = rw e (record {
  parts = omega arith;
  remainder = omega arith;
  smaller = λ h. omega arith;
  base_small = omega arith;
  base_pos = omega arith;
})

digits_of_zero : (b v : ℕ) → digits_of b 0 v ≡ digit_char (v % b) ∷ []
unfolding digits_of
digits_of_zero b v = refl

digits_of_small : (b rounds v : ℕ) → v < b → digits_of b (suc rounds) v ≡ digit_char v ∷ []
unfolding digits_of
digits_of_small b rounds v h = ground arith

digits_of_large :
    (b rounds v : ℕ)
    → b ≤ v
    → digits_of b (suc rounds) v ≡ digits_of b rounds (v / b) ++ digit_char (v % b) ∷ []
unfolding digits_of
digits_of_large b rounds v h = ground arith

below_or_not : (v n : ℕ) → (v < n) ⊎ (n ≤ v)
below_or_not v n = elim (Bool-cases (ltb v n)) [
  | inl small ↦ inl (ground arith)
  | inr large ↦ inr (ground arith)
]

pub int_from-digits_of :
    (b rounds v : ℕ) → IsBase b → v ≤ rounds → int_from b 0 (digits_of b rounds v) ≡ v
int_from-digits_of b zero v h le =
    let d = divides b v h in
    let r : v % b ≡ 0 = omega (arith, d.parts) in rw (digits_of_zero b v, r) (omega arith)
int_from-digits_of b (suc rounds) v h le =
    let d = divides b v h in
    elim (below_or_not v b) [
      | inl small ↦
          rw (digits_of_small b rounds v small)
            (omega (arith, digit_char-value v (omega (arith, d.base_small))))
      | inr large ↦
          let higher = int_from-digits_of b rounds (v / b) h (omega (arith, d.smaller large)) in
          rw
            (
              digits_of_large b rounds v large,
              int_from-append b 0 (digits_of b rounds (v / b)) (digit_char (v % b) ∷ []),
              higher,
              digit_char-value (v % b) (omega (arith, d.remainder, d.base_small)),
            )
            (sym d.parts)
    ]

-- What every digit is, all digits of a number are.
All-digits_of :
    (P : ℕ → Type 0) (b rounds v : ℕ)
    → IsBase b
    → ((d : ℕ) → d < b → P (digit_char d))
    → All P (digits_of b rounds v)
All-digits_of P b zero v h each =
    rw (digits_of_zero b v) (each (v % b) ((divides b v h).remainder), tt)
All-digits_of P b (suc rounds) v h each =
    let last = each (v % b) ((divides b v h).remainder) in
    elim (below_or_not v b) [
      | inl small ↦ rw (digits_of_small b rounds v small) (each v small, tt)
      | inr large ↦ rw (digits_of_large b rounds v large) (
          All-append P (digits_of b rounds (v / b)) (digit_char (v % b) ∷ [])
            (All-digits_of P b rounds (v / b) h each) (last, tt))
    ]

pub digits_of-is_digit : (rounds v : ℕ) → All (λ c. is_digit c ≡ true) (digits_of 10 rounds v)
digits_of-is_digit rounds v =
    All-digits_of (λ c. is_digit c ≡ true) 10 rounds v (inl refl) digit_char-is_digit

pub digits_of-is_hex : (rounds v : ℕ) → All (λ c. is_hex c ≡ true) (digits_of 16 rounds v)
digits_of-is_hex rounds v =
    All-digits_of (λ c. is_hex c ≡ true) 16 rounds v (inr refl) digit_char-is_hex

pub length-digits_of_pos : (b rounds v : ℕ) → 0 < length (digits_of b rounds v)
length-digits_of_pos b zero v = rw (digits_of_zero b v) (omega arith)
length-digits_of_pos b (suc rounds) v = elim (below_or_not v b) [
  | inl small ↦ rw (digits_of_small b rounds v small) (omega arith)
  | inr large ↦
      rw (digits_of_large b rounds v large)
        (omega (arith, length-append (digits_of b rounds (v / b)) (digit_char (v % b) ∷ [])))
]

pub length-digits_of : (k rounds v : ℕ) → v < 16 ^ suc k → length (digits_of 16 rounds v) ≤ suc k
length-digits_of k zero v h = rw (digits_of_zero 16 v) (omega arith)
length-digits_of zero (suc rounds) v h =
    rw (digits_of_small 16 rounds v (omega arith)) (omega arith)
length-digits_of (suc k) (suc rounds) v h = elim (below_or_not v 16) [
  | inl small ↦ rw (digits_of_small 16 rounds v small) (omega arith)
  | inr large ↦
      let shorter = length-digits_of k rounds (v / 16) (omega (arith, pow-suc 16 (suc k))) in
      rw (digits_of_large 16 rounds v large) (
        omega
          (arith, shorter, length-append (digits_of 16 rounds (v / 16)) (digit_char (v % 16) ∷ [])))
]

-- `f"{v:d}"`, and `%0d` of SystemVerilog.
unfoldable pub decimal : ℕ → Text
decimal v = digits_of 10 v v

-- `f"{w:08x}"`, and `%h` of 32 bits.
unfoldable pub format_08x : ℕ → Text
format_08x w = let text = digits_of 16 w w in replicate (8 - length text) b'0' ++ text

pub int_base-decimal : (v : ℕ) → int_base (decimal v) 10 ≡ v
unfolding decimal
int_base-decimal v = int_from-digits_of 10 v v (inl refl) (omega arith)

zeros-is_hex : (n : ℕ) → All (λ c. is_hex c ≡ true) (replicate n b'0')
zeros-is_hex zero = tt
zeros-is_hex (suc n) = (refl, zeros-is_hex n)

int_from-zeros : (n : ℕ) (xs : Text) → int_from 16 0 (replicate n b'0' ++ xs) ≡ int_from 16 0 xs
int_from-zeros zero xs = refl
int_from-zeros (suc n) xs = int_from-zeros n xs

pub int_base-format_08x : (w : ℕ) → int_base (format_08x w) 16 ≡ w
unfolding format_08x
int_base-format_08x w =
    int_from-zeros (8 - length (digits_of 16 w w)) (digits_of 16 w w)
    ∙ int_from-digits_of 16 w w (inr refl) (omega arith)

pub format_08x-is_hex : (w : ℕ) → All (λ c. is_hex c ≡ true) (format_08x w)
unfolding format_08x
format_08x-is_hex w =
    let n = 8 - length (digits_of 16 w w) in
    All-append (λ c. is_hex c ≡ true) (replicate n b'0') (digits_of 16 w w) (zeros-is_hex n)
      (digits_of-is_hex w w)

pub length-format_08x_pos : (w : ℕ) → 0 < length (format_08x w)
unfolding format_08x
length-format_08x_pos w =
    let n = 8 - length (digits_of 16 w w) in
    omega (arith, length-digits_of_pos 16 w w, length-append (replicate n b'0') (digits_of 16 w w))

pub length-format_08x : (w : ℕ) → w < 16 ^ 8 → length (format_08x w) ≡ 8
unfolding format_08x
length-format_08x w h =
    let n = 8 - length (digits_of 16 w w) in
    omega (
      arith,
      length-digits_of 7 w w h,
      length-append (replicate n b'0') (digits_of 16 w w),
      length-replicate {A = ℕ} n b'0',
    )

pub decimal-is_digit : (v : ℕ) → All (λ c. is_digit c ≡ true) (decimal v)
unfolding decimal
decimal-is_digit v = digits_of-is_digit v v

pub length-decimal_pos : (v : ℕ) → 0 < length (decimal v)
unfolding decimal
length-decimal_pos v = length-digits_of_pos 10 v v
