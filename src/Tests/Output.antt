-- ===== src/Tests/Output.antt =====
-- shared/spike/gen_program.py, the files that it writes.
use risc_v_pipeline_sim.Common.{
  ℕ, codes, ◌+◌, ◌≡◌, refl, arith, none, some, List, [], ◌∷◌, ◌++◌, map,
}
use risc_v_pipeline_sim.Effect.{Ensures, ok, err, struct_error, type_error}
use risc_v_pipeline_sim.Elf.{entry_addr, build_elf32}
use risc_v_pipeline_sim.Elf.Struct.{half, word, pack}
use risc_v_pipeline_sim.Elf.File.{build_elf32-error}
use risc_v_pipeline_sim.Elf.Loader.{Loads, build_elf32-Loads}
use risc_v_pipeline_sim.Common.Digits.{format_08x, digits_of}
use risc_v_pipeline_sim.Output.{write_hex, main}
use risc_v_pipeline_sim.Output.Load.{SameProgram, main-SameProgram}
use risc_v_pipeline_sim.Tests.Generator.{counter, seed}

format_1a : format_08x 0x1a ≡ codes "0000001a"
unfolding format_08x digits_of
format_1a = refl

write_hex-none : write_hex (some 3 ∷ none ∷ []) ≡ err type_error
unfolding write_hex
write_hex-none = refl

pack_bytes : pack (half ∷ word ∷ []) (243 ∷ 0x80000000 ∷ []) ≡ ok (243 ∷ 0 ∷ 0 ∷ 0 ∷ 0 ∷ 128 ∷ [])
unfolding pack
pack_bytes = refl

main-SameProgram_example : Ensures (λ files t. SameProgram (12 + 32) files) (main counter 12) seed
main-SameProgram_example = main-SameProgram counter 12 seed (omega arith) (omega arith)

build_elf32-Loads_example :
    (file : List ℕ) × (build_elf32 (map some (0x13 ∷ 0x6f ∷ [])) entry_addr ≡ ok file)
    × Loads (0x13 ∷ 0x6f ∷ []) entry_addr file
build_elf32-Loads_example =
    build_elf32-Loads (0x13 ∷ 0x6f ∷ []) entry_addr (ground arith) (ground arith) (ground arith)

build_elf32-error_example :
    build_elf32 ((some 0x13 ∷ []) ++ none ∷ some 0x6f ∷ []) entry_addr ≡ err struct_error
build_elf32-error_example = build_elf32-error (some 0x13 ∷ []) none (some 0x6f ∷ []) entry_addr tt
