-- ===== src/Elf/Loader.antt =====
-- What a loader reads from the file of `build_elf32`, at the offsets of the ELF specification.
use risc_v_pipeline_sim.Common.{
  ℕ, zero, suc, ◌+◌, ◌-◌, ◌*◌, ◌≡◌, refl, arith, true, map, some, List, [], ◌∷◌, length, take, drop,
  take-append, length-append, All, replicate,
}
use risc_v_pipeline_sim.Effect.{ok}
use risc_v_pipeline_sim.Elf.Struct.{word, from_le, unpack, unpack-packed, from_le-le_bytes}
use risc_v_pipeline_sim.Elf.{
  ehdr_format, ehdr_values, build_elf32, bytes_between, self_check_elf, entry_addr,
}
use risc_v_pipeline_sim.Elf.File.{
  IsWord, code_bytes, length-code_bytes, trailer, elf_file, build_elf32_lem, ehdr-InRange,
}

-- The number in the given number of bytes at an offset.
abbrev pub number_at : (offset count : ℕ) → List ℕ → ℕ
number_at offset count file = from_le (bytes_between offset (offset + count) file)

-- The words of a segment, four bytes each.
abbrev pub words_in : ℕ → List ℕ → List ℕ
words_in zero bs = []
words_in (suc n) bs = from_le (take 4 bs) ∷ words_in n (drop 4 bs)

-- A loader that goes by the header finds one segment to load: it puts the words at the entry.
pub record Loads (ws : List ℕ) (entry : ℕ) (file : List ℕ) : Type 0 where
  pub magic : take 4 file ≡ 127 ∷ 69 ∷ 76 ∷ 70 ∷ []
  pub executable : number_at 16 2 file ≡ 2
  pub machine : number_at 18 2 file ≡ 243
  pub starts_at : number_at 24 4 file ≡ entry
  pub one_segment : number_at 44 2 file ≡ 1
  pub load_type : number_at (number_at 28 4 file) 4 file ≡ 1
  pub address : number_at (number_at 28 4 file + 8) 4 file ≡ entry
  pub in_memory :
      number_at (number_at 28 4 file + 20) 4 file ≡ number_at (number_at 28 4 file + 16) 4 file
  pub segment :
      words_in (length ws) (
        bytes_between
          (number_at (number_at 28 4 file + 4) 4 file)
          (number_at (number_at 28 4 file + 4) 4 file + number_at (number_at 28 4 file + 16) 4 file)
          file)
      ≡ ws
  pub sections_end : length file ≡ number_at 32 4 file + number_at 48 2 file * number_at 46 2 file

words_in-code_bytes : (ws : List ℕ) → All IsWord ws → words_in (length ws) (code_bytes ws) ≡ ws
words_in-code_bytes [] h = refl
words_in-code_bytes (w ∷ ws) h = rw (from_le-le_bytes word w h.0, words_in-code_bytes ws h.1) refl

module _ (ws : List ℕ) (entry : ℕ) (h : All IsWord ws) (he : IsWord entry)
    (hn : IsWord (4 * length ws + 175)) where
  code_len-IsWord : IsWord (length (code_bytes ws))
  code_len-IsWord = omega (arith, length-code_bytes ws)

  elf_file-segment :
      words_in (length ws) (bytes_between 84 (84 + length (code_bytes ws)) (elf_file ws entry)) ≡ ws
  elf_file-segment =
      let code = code_bytes ws in
      let size : 84 + length code - 84 ≡ length code = omega arith in
      rw (size, take-append code (trailer (length code))) (words_in-code_bytes ws h)

  pub elf_file-Loads : Loads ws entry (elf_file ws entry)
  elf_file-Loads =
      let len = from_le-le_bytes word (length (code_bytes ws)) code_len-IsWord in
      record {
        magic = refl;
        executable = refl;
        machine = refl;
        starts_at = from_le-le_bytes word entry he;
        one_segment = refl;
        load_type = refl;
        address = from_le-le_bytes word entry he;
        in_memory = refl;
        segment = rw len elf_file-segment;
        sections_end = omega (
          arith,
          from_le-le_bytes word (84 + length (code_bytes ws) + 11)
              (omega (arith, length-code_bytes ws)),
          length-append (code_bytes ws) (trailer (length (code_bytes ws))),
        );
      }

-- For 32-bit words and an entry address of 32 bits, as many words as 32-bit offsets can reach,
-- build_elf32 raises nothing and a loader that goes by the header finds one segment with exactly
-- the words, to be put at the entry address; the section headers end the file.
pub build_elf32-Loads :
    (ws : List ℕ) (entry : ℕ)
    → All IsWord ws
    → IsWord entry
    → IsWord (4 * length ws + 175)
    → (file : List ℕ) × (build_elf32 (map some ws) entry ≡ ok file) × Loads ws entry file
build_elf32-Loads ws entry h he hn =
    (elf_file ws entry, build_elf32_lem ws entry h he hn, elf_file-Loads ws entry h he hn)

pub elf_file-self_check :
    (ws : List ℕ) → IsWord (4 * length ws + 175) → self_check_elf (elf_file ws entry_addr) ≡ ok true
unfolding self_check_elf
elf_file-self_check ws hn =
    let shoff = 84 + length (code_bytes ws) + 11 in
    let file = elf_file ws entry_addr in
    let header : unpack ehdr_format (bytes_between 16 52 file) ≡ ok (ehdr_values entry_addr shoff) =
      unpack-packed ehdr_format (ehdr_values entry_addr shoff)
        (ehdr-InRange entry_addr shoff (omega arith) (omega (arith, length-code_bytes ws))) in
    let segment : unpack (replicate 3 word) (bytes_between 52 64 file)
        ≡ ok (1 ∷ 84 ∷ entry_addr ∷ []) =
      unpack-packed (replicate 3 word) (1 ∷ 84 ∷ entry_addr ∷ []) (ground arith) in
    rw (header, segment) refl

-- Under the same bounds self_check_elf accepts what build_elf32 returns.
pub self_check_elf-build_elf32 :
    (ws : List ℕ)
    → All IsWord ws
    → IsWord (4 * length ws + 175)
    → (file : List ℕ) × (build_elf32 (map some ws) entry_addr ≡ ok file)
      × (self_check_elf file ≡ ok true)
self_check_elf-build_elf32 ws h hn = (
  elf_file ws entry_addr,
  build_elf32_lem ws entry_addr h (omega arith) hn,
  elf_file-self_check ws hn,
)
