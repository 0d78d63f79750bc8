-- ===== src/Common/Int.antt =====
-- Python's integers: signed, of any size.
use Prim.Native.Nat.{ℕ, ◌-◌, ◌%◌, ◌^◌, ◌<◌, bit_and}
use mathlib.Core.Path.{◌≡◌}
use risc_v_pipeline_sim.Common.Tests.{leb, if◌then◌else◌}

-- `negsuc n` is -(n + 1).
pub data ℤ : Type 0 where
  pos : ℕ → ℤ
  negsuc : ℕ → ℤ

-- a - b, as an integer.
abbrev pub sub_ℕ : ℕ → ℕ → ℤ
sub_ℕ a b = if leb b a then pos (a - b) else negsuc (b - a - 1)

-- -a, for a natural number.
abbrev pub neg_ℕ : ℕ → ℤ
neg_ℕ a = sub_ℕ 0 a

-- `z & m` for a mask `m` that is not negative: the bits of -(n + 1) are those of n turned over.
abbrev pub land : ℤ → ℕ → ℕ
land (pos n) m = bit_and n m
land (negsuc n) m = m - bit_and n m

-- The integers from -2 ^ k up to 2 ^ k - 1.
abbrev pub Fits : ℕ → ℤ → Type 0
Fits k (pos n) = n < 2 ^ k
Fits k (negsuc n) = n < 2 ^ k

abbrev pub IsEven : ℤ → Type 0
IsEven (pos n) = n % 2 ≡ 0
IsEven (negsuc n) = n % 2 ≡ 1

-- The k-bit two's complement pattern of an integer.
abbrev pub residue : ℕ → ℤ → ℕ
residue k (pos n) = n % 2 ^ k
residue k (negsuc n) = 2 ^ k - 1 - n % 2 ^ k

abbrev pub to_word : ℤ → ℕ
to_word z = residue 32 z
