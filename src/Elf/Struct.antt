-- ===== src/Elf/Struct.antt =====
-- Python's `struct`, for the codes H and I in little-endian order, and sequences of fallible steps.
use risc_v_pipeline_sim.Common.{
  ℕ, zero, suc, ◌+◌, ◌*◌, ◌/◌, ◌%◌, ◌^◌, ◌<◌, ◌≡◌, refl, ap, arith, List, [], ◌∷◌, ◌++◌, ltb, ◌==◌,
  if◌then◌else◌, length, take, drop, take-append_exact, drop-append_exact, length-append,
}
use risc_v_pipeline_sim.Effect.{Result, ok, err, struct_error}

abbrev pub and_then : {A B : Type 0} → Result A → (A → Result B) → Result B
and_then (ok a) f = f a
and_then (err e) f = err e

pub data Code : Type 0 where
  half word : Code

abbrev pub size : Code → ℕ
size half = 2
size word = 4

abbrev pub calcsize : List Code → ℕ
calcsize [] = 0
calcsize (c ∷ cs) = size c + calcsize cs

abbrev pub le_bytes : ℕ → ℕ → List ℕ
le_bytes zero v = []
le_bytes (suc n) v = v % 256 ∷ le_bytes n (v / 256)

abbrev pub from_le : List ℕ → ℕ
from_le [] = 0
from_le (b ∷ bs) = b + 256 * from_le bs

-- `struct.pack`: struct.error for a wrong number of values and for one out of range.
unfoldable pub pack : List Code → List ℕ → Result (List ℕ)
pack [] [] = ok []
pack [] (v ∷ vs) = err struct_error
pack (c ∷ cs) [] = err struct_error
pack (c ∷ cs) (v ∷ vs) =
    if ltb v (256 ^ size c)
    then and_then (pack cs vs) (λ rest. ok (le_bytes (size c) v ++ rest))
    else err struct_error

abbrev pub fields : List Code → List ℕ → List ℕ
fields [] bs = []
fields (c ∷ cs) bs = from_le (take (size c) bs) ∷ fields cs (drop (size c) bs)

-- `struct.unpack`: struct.error for a wrong number of bytes.
unfoldable pub unpack : List Code → List ℕ → Result (List ℕ)
unpack cs bs = if length bs == calcsize cs then ok (fields cs bs) else err struct_error

-- The values are as many as the codes and in their ranges.
abbrev pub InRange : List Code → List ℕ → Type 0
InRange [] [] = Unit
InRange [] (v ∷ vs) = ⊥
InRange (c ∷ cs) [] = ⊥
InRange (c ∷ cs) (v ∷ vs) = (v < 256 ^ size c) × InRange cs vs

abbrev pub packed : List Code → List ℕ → List ℕ
packed [] vs = []
packed (c ∷ cs) [] = []
packed (c ∷ cs) (v ∷ vs) = le_bytes (size c) v ++ packed cs vs

length-le_bytes : (n v : ℕ) → length (le_bytes n v) ≡ n
length-le_bytes zero v = refl
length-le_bytes (suc n) v = ap suc (length-le_bytes n (v / 256))

pub from_le-le_bytes : (c : Code) (v : ℕ) → v < 256 ^ size c → from_le (le_bytes (size c) v) ≡ v
from_le-le_bytes half v h = ground arith
from_le-le_bytes word v h = ground arith

pub pack-packed : (cs : List Code) (vs : List ℕ) → InRange cs vs → pack cs vs ≡ ok (packed cs vs)
unfolding pack
pack-packed [] [] h = refl
pack-packed [] (v ∷ vs) h = absurd h
pack-packed (c ∷ cs) [] h = absurd h
pack-packed (c ∷ cs) (v ∷ vs) h = ground (arith, pack-packed cs vs)

pub length-packed :
    (cs : List Code) (vs : List ℕ) → InRange cs vs → length (packed cs vs) ≡ calcsize cs
length-packed [] vs h = refl
length-packed (c ∷ cs) [] h = absurd h
length-packed (c ∷ cs) (v ∷ vs) h = omega (
  arith,
  length-append (le_bytes (size c) v) (packed cs vs),
  length-le_bytes (size c) v,
  length-packed cs vs h.1,
)

fields-packed : (cs : List Code) (vs : List ℕ) → InRange cs vs → fields cs (packed cs vs) ≡ vs
fields-packed [] [] h = refl
fields-packed [] (v ∷ vs) h = absurd h
fields-packed (c ∷ cs) [] h = absurd h
fields-packed (c ∷ cs) (v ∷ vs) h =
    let bytes = le_bytes (size c) v in
    let long = length-le_bytes (size c) v in
    rw
      (
        take-append_exact (size c) bytes (packed cs vs) long,
        drop-append_exact (size c) bytes (packed cs vs) long,
        from_le-le_bytes c v h.0,
        fields-packed cs vs h.1,
      )
      refl

pub unpack-packed :
    (cs : List Code) (vs : List ℕ) → InRange cs vs → unpack cs (packed cs vs) ≡ ok vs
unfolding unpack
unpack-packed cs vs h = ground (arith, length-packed cs vs h, fields-packed cs vs h)

-- Values as many as the codes and in their ranges are packed, and unpack gives them back.
pub unpack-pack :
    (cs : List Code) (vs : List ℕ)
    → InRange cs vs
    → (bytes : List ℕ) × (pack cs vs ≡ ok bytes) × (unpack cs bytes ≡ ok vs)
unpack-pack cs vs h = (packed cs vs, pack-packed cs vs h, unpack-packed cs vs h)
