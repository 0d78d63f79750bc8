-- ===== src/Output.antt =====
-- shared/spike/gen_program.py, what main writes: the text of program.hex and the bytes of
-- program.elf. A text is a list of character codes.
pub mod Hex
pub mod Load
use risc_v_pipeline_sim.Common.{
  ℕ, zero, suc, ◌+◌, ◌-◌, ◌/◌, ◌%◌, true, false, Option, none, some, List, [], ◌∷◌, ◌++◌, ltb,
  if◌then◌else◌, length, replicate,
}
use risc_v_pipeline_sim.Common.Digits.{format_08x}
use risc_v_pipeline_sim.Effect.{Result, ok, err, type_error, lift, pure, ◌>>=◌}
use risc_v_pipeline_sim.Elf.Struct.{and_then}
use risc_v_pipeline_sim.Elf.{entry_addr, build_elf32, self_check_elf}
use risc_v_pipeline_sim.Generator.Random.{Rng, Gen}
use risc_v_pipeline_sim.Generator.Program.{Slots, build_full_program}

-- The loop `for w in program: f.write(f"{w:08x}\n")`. None takes no format: TypeError.
unfoldable pub write_hex : List (Option ℕ) → Result (List ℕ)
write_hex [] = ok []
write_hex (none ∷ program) = err type_error
write_hex (some w ∷ program) =
    and_then (write_hex program) λ rest. ok ((format_08x w ++ b'\n' ∷ []) ++ rest)

-- The two files that main writes and the retirement count that it prints.
pub record Files : Type 0 where
  pub program_hex : List ℕ
  pub program_elf : List ℕ
  pub expected_retire : ℕ

-- `main`, behind its arguments: the generator is seeded, and n is given.
unfoldable pub main : (rng : Rng) → ℕ → Gen rng Files
main rng n = do
  (program, expected_retire) ← build_full_program rng n
  text ← lift (write_hex program)
  elf_bytes ← lift (build_elf32 program entry_addr)
  checked ← lift (self_check_elf elf_bytes)
  pure (record { program_hex = text; program_elf = elf_bytes; expected_retire = expected_retire })
