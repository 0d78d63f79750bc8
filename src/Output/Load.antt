-- ===== src/Output/Load.antt =====
-- The two files that main writes are the same program.
use risc_v_pipeline_sim.Common.{
  ℕ, ◌+◌, ◌*◌, ◌^◌, ◌≤◌, ◌<◌, ◌≡◌, refl, arith, true, ℤ, List, length, All,
}
use risc_v_pipeline_sim.Effect.{Ensures, Ensures-bind, Ensures-pure, Ensures-lift, Ensures-weaken}
use risc_v_pipeline_sim.Elf.{entry_addr}
use risc_v_pipeline_sim.Elf.File.{elf_file, build_elf32_lem}
use risc_v_pipeline_sim.Elf.Loader.{Loads, elf_file-Loads, elf_file-self_check}
use risc_v_pipeline_sim.Generator.Random.{Rng, Store}
use risc_v_pipeline_sim.Generator.Outcome.{longest}
use risc_v_pipeline_sim.Generator.Program.{Slots}
use risc_v_pipeline_sim.Generator.Image.{IsWord, image, Imaged, build_full_program-Imaged}
use risc_v_pipeline_sim.Output.{Files, main}
use risc_v_pipeline_sim.Output.Hex.{
  read_lines, hex_text, write_hex_lem, read_lines-hex_text, length-hex_text,
}

-- Both files hold the words, in order: the text one word to a line of eight digits, the ELF file as
-- the one segment at the entry address.
pub record SameProgram (size : ℕ) (files : Files) : Type 0 where
  pub words : List ℕ
  pub length_words : length words ≡ size
  pub are_words : All IsWord words
  pub in_hex : read_lines 0 files.program_hex ≡ words
  pub hex_lines : length files.program_hex ≡ 9 * size
  pub in_elf : Loads words entry_addr files.program_elf

-- The files are those of a program that the generator returns.
pub record Emitted (n : ℕ) (files : Files) : Type 0 where
  pub written : List ℤ
  pub out : Slots × ℕ
  pub imaged : Imaged n written out
  pub hex : files.program_hex ≡ hex_text (image n imaged.pieces)
  pub elf : files.program_elf ≡ elf_file (image n imaged.pieces) entry_addr
  pub retire : files.expected_retire ≡ out.1

module _ (rng : Rng) (n : ℕ) (g : Store rng.State) (h0 : 0 < n) (h : n ≤ longest) where
  pub main-Emitted : Ensures (λ files t. Emitted n files) (main rng n) g
  unfolding main
  main-Emitted = Ensures-bind (build_full_program-Imaged rng n g h0 h) λ out t q.
      let ws = image n q.pieces in
      let hn : 4 * length ws + 175 < 256 ^ 4 = omega (arith, q.size) in
      rw (q.filled, write_hex_lem ws, build_elf32_lem ws entry_addr q.are_words (omega arith) hn)
        (Ensures-bind (Ensures-lift {P = λ text s. text ≡ hex_text ws} (hex_text ws) t refl)
          λ text t1 e1.
            Ensures-bind
              (Ensures-lift {P = λ file s. file ≡ elf_file ws entry_addr} (elf_file ws entry_addr)
                t1 refl)
              λ file t2 e2.
                rw (e2, elf_file-self_check ws hn)
                  (Ensures-bind (Ensures-lift {P = λ b s. Unit {0}} true t2 tt) λ b t3 e3.
                    Ensures-pure _ t3 (record {
                      written = t.written;
                      out = out;
                      imaged = q;
                      hex = e1;
                      elf = refl;
                      retire = refl;
                    })))

Emitted-SameProgram :
    (n : ℕ) (files : Files) → n ≤ longest → Emitted n files → SameProgram (n + 32) files
Emitted-SameProgram n files h f =
    let ws = image n f.imaged.pieces in
    let words = f.imaged.are_words in
    let size = f.imaged.size in
    record {
      words = ws;
      length_words = size;
      are_words = words;
      in_hex = rw f.hex (read_lines-hex_text ws);
      hex_lines = rw f.hex (omega (arith, length-hex_text ws words, size));
      in_elf = rw f.elf (elf_file-Loads ws entry_addr words (omega arith) (omega (arith, size)));
    }

-- For 1 to 975 slots main raises nothing, and both files hold the same n + 32 words.
pub main-SameProgram :
    (rng : Rng) (n : ℕ) (g : Store rng.State)
    → 0 < n
    → n ≤ longest
    → Ensures (λ files t. SameProgram (n + 32) files) (main rng n) g
main-SameProgram rng n g h0 h =
    Ensures-weaken (λ files t f. Emitted-SameProgram n files h f) (main-Emitted rng n g h0 h)
