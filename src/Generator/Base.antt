-- ===== src/Generator/Base.antt =====
-- The base register of loads and stores: x31 as the generated auipc and addi set it.
use risc_v_pipeline_sim.Common.{
  ℕ, ◌+◌, ◌*◌, ◌/◌, ◌%◌, ◌^◌, ◌≤◌, ◌<◌, ◌≡◌, refl, inl, inr, arith, ℤ, pos, negsuc, Fits, to_word,
  bit_and,
}
use risc_v_pipeline_sim.Common.Bits.{and_mask, and_bit}
use risc_v_pipeline_sim.Encoding.{enc_u, enc_i}
use risc_v_pipeline_sim.Encoding.Decode.{imm_gen}
use risc_v_pipeline_sim.Encoding.RoundTrip.{imm_gen-enc_u, imm_gen-enc_i}
use risc_v_pipeline_sim.Generator.Program.{
  hi_lo, program_end_bytes, data_offset, max_valid_end, auipc_pc, data_mem_bytes,
}
use risc_v_pipeline_sim.Generator.Safe.{InWindow}

-- The lower immediate fits twelve signed bits, the upper one twenty, and they sum to the offset.
abbrev IsSplit : ℕ → ℕ × ℤ → Type 0
IsSplit d p = Fits 11 p.1 × (p.0 < 2 ^ 20) × ((p.0 * 2 ^ 12 + to_word p.1) % 2 ^ 32 ≡ d)

sign_bit : (d : ℕ) → bit_and (bit_and d 0xFFF) 0x800 ≡ d / 2048 % 2 * 2048
sign_bit d = rw (and_mask 12 d) (ground (arith, and_bit 11 0 (d % 4096 / 2048) (d % 2048)))

pub hi_lo-IsSplit : (d : ℕ) → d < 2 ^ 31 → IsSplit d (hi_lo d)
unfolding hi_lo
hi_lo-IsSplit d h = rw (sign_bit d, and_mask 12 d) (ground arith)

-- x31 after the auipc and the addi that `random_program` puts first, run at `AUIPC_PC`, as the
-- immediate generator of the core reads the two words.
abbrev pub base_register : ℕ → ℕ
base_register n =
    let p = hi_lo (data_offset n) in
    (auipc_pc + imm_gen (enc_u 0x17 31 p.0) + imm_gen (enc_i 0x13 0x0 31 31 p.1)) % 2 ^ 32

-- For every offset below 2 ^ 31, auipc and addi with the two immediates of the split add up to the
-- offset, although addi sign-extends its immediate.
pub hi_lo_sum :
    (d : ℕ)
    → d < 2 ^ 31
    → let p = hi_lo d in
      (imm_gen (enc_u 0x17 31 p.0) + imm_gen (enc_i 0x13 0x0 31 31 p.1)) % 2 ^ 32 ≡ d
hi_lo_sum d h =
    let split = hi_lo-IsSplit d h in
    let p = hi_lo d in
    rw
      (
        (imm_gen-enc_u 0x17 31 p.0 (inr refl) (omega arith)).3,
        (imm_gen-enc_i 0x13 0 31 31 p.1 (inl refl) (omega arith) (omega arith) (omega arith)
            split.0).5,
      )
      (omega arith)

base_register_lem :
    (n : ℕ) → program_end_bytes n ≤ max_valid_end → base_register n ≡ program_end_bytes n + 32
unfolding data_offset max_valid_end
base_register_lem n h = omega (arith, hi_lo_sum (data_offset n) (omega arith))

window_address :
    (end : ℕ) (o : ℤ)
    → end ≤ 4028
    → end % 4 ≡ 0
    → InWindow o
    → let address = (end + 32 + to_word o) % 2 ^ 32 in
      (end ≤ address) × (address + 4 ≤ data_mem_bytes) × (address % 4 ≡ 0)
window_address end (pos m) h e w = ground arith
window_address end (negsuc m) h e w = ground arith

-- Every load and store of a program that is not too long reaches a whole word of the data memory,
-- past the end of the program: for an offset of the window, the address is aligned, at least the
-- end of the program, and its word ends within the data memory.
pub data_address :
    (n : ℕ) (o : ℤ)
    → program_end_bytes n ≤ max_valid_end
    → InWindow o
    → let address = (base_register n + to_word o) % 2 ^ 32 in
      (program_end_bytes n ≤ address) × (address + 4 ≤ data_mem_bytes) × (address % 4 ≡ 0)
unfolding program_end_bytes max_valid_end
data_address n o h w =
    rw (base_register_lem n h) (window_address (program_end_bytes n) o h (omega arith) w)
