-- ===== src/Elf.antt =====
-- shared/spike/gen_program.py, the ELF file: build_elf32 and self_check_elf, over `struct.pack` and
-- `struct.unpack` for the little-endian formats that they use.
pub mod Struct
pub mod File
pub mod Loader
use risc_v_pipeline_sim.Common.{
  ℕ, ◌+◌, ◌-◌, Bool, true, false, not, ◌&&◌, Option, none, some, List, [], ◌∷◌, ◌++◌, ltb, ◌==◌,
  if◌then◌else◌, length, take, drop, replicate,
}
use risc_v_pipeline_sim.Effect.{Result, ok, err, assertion_error, struct_error}
use risc_v_pipeline_sim.Elf.Struct.{Code, half, word, and_then, pack, unpack}

abbrev pub entry_addr : ℕ
entry_addr = 0x80000000

abbrev pub ehdr_size : ℕ
ehdr_size = 52

abbrev pub phdr_size : ℕ
phdr_size = 32

abbrev pub shdr_size : ℕ
shdr_size = 40

-- "<HHIIIIIHHHHHH"
abbrev pub ehdr_format : List Code
ehdr_format =
    half ∷ half ∷ word ∷ word ∷ word ∷ word ∷ word ∷ half ∷ half ∷ half ∷ half ∷ half ∷ half ∷ []

-- `b"".join(struct.pack("<I", w) for w in instr_words)`. A slot that is still None is no number.
unfoldable pub pack_words : List (Option ℕ) → Result (List ℕ)
pack_words [] = ok []
pack_words (none ∷ ws) = err struct_error
pack_words (some w ∷ ws) =
    and_then (pack (word ∷ []) (w ∷ []))
      λ first. and_then (pack_words ws) λ rest. ok (first ++ rest)

-- "\x00.shstrtab\x00"
abbrev pub shstrtab_content : List ℕ
shstrtab_content = 0 ∷ 46 ∷ 115 ∷ 104 ∷ 115 ∷ 116 ∷ 114 ∷ 116 ∷ 97 ∷ 98 ∷ 0 ∷ []

abbrev pub e_ident : List ℕ
e_ident = 127 ∷ 69 ∷ 76 ∷ 70 ∷ 1 ∷ 1 ∷ 1 ∷ 0 ∷ replicate 8 0

abbrev pub ehdr_values : (entry shoff : ℕ) → List ℕ
ehdr_values entry shoff =
    2 ∷ 243 ∷ 1 ∷ entry ∷ ehdr_size ∷ shoff ∷ 0 ∷ ehdr_size ∷ phdr_size ∷ 1 ∷ shdr_size ∷ 2 ∷ 1 ∷ []

abbrev pub phdr_values : (entry code_len : ℕ) → List ℕ
phdr_values entry code_len =
    1 ∷ (ehdr_size + phdr_size) ∷ entry ∷ entry ∷ code_len ∷ code_len ∷ 5 ∷ 0x1000 ∷ []

abbrev pub shstrtab_values : (shstrtab_offset : ℕ) → List ℕ
shstrtab_values shstrtab_offset =
    1 ∷ 3 ∷ 0 ∷ 0 ∷ shstrtab_offset ∷ length shstrtab_content ∷ 0 ∷ 0 ∷ 1 ∷ 0 ∷ []

unfoldable pub build_elf32 : List (Option ℕ) → (entry : ℕ) → Result (List ℕ)
build_elf32 instr_words entry = and_then (pack_words instr_words) λ code.
    let code_offset = ehdr_size + phdr_size in
    let shstrtab_offset = code_offset + length code in
    let shoff = shstrtab_offset + length shstrtab_content in
    and_then (pack ehdr_format (ehdr_values entry shoff)) λ fields.
      let ehdr = e_ident ++ fields in
      and_then (pack (replicate 8 word) (phdr_values entry (length code))) λ phdr.
        and_then (pack (replicate 10 word) (replicate 10 0)) λ shdr_null.
          and_then (pack (replicate 10 word) (shstrtab_values shstrtab_offset)) λ shdr_shstrtab.
            let elf_bytes =
              ehdr ++ phdr ++ code ++ shstrtab_content ++ shdr_null ++ shdr_shstrtab in
            if not (length ehdr == ehdr_size && length phdr == phdr_size)
            then err assertion_error
            else if not (length shdr_null == shdr_size && length shdr_shstrtab == shdr_size)
            then err assertion_error
            else ok elf_bytes

-- The fields that self_check_elf names, of the thirteen of the header.
pub record Ehdr : Type 0 where
  pub e_type : ℕ
  pub e_machine : ℕ
  pub e_phoff : ℕ
  pub e_shnum : ℕ
  pub e_shstrndx : ℕ

abbrev pub ehdr_of : List ℕ → Result Ehdr
ehdr_of
      (t ∷ m ∷ v ∷ entry ∷ phoff ∷ shoff ∷ flags ∷ ehsize ∷ phentsize ∷ phnum ∷ shentsize ∷ shnum
        ∷ ndx ∷ []) =
    ok (record { e_type = t; e_machine = m; e_phoff = phoff; e_shnum = shnum; e_shstrndx = ndx })
ehdr_of _ = err struct_error

pub record Phdr : Type 0 where
  pub p_type : ℕ
  pub p_offset : ℕ
  pub p_vaddr : ℕ

abbrev pub phdr_of : List ℕ → Result Phdr
phdr_of (t ∷ o ∷ v ∷ []) = ok (record { p_type = t; p_offset = o; p_vaddr = v })
phdr_of _ = err struct_error

-- `xs[a:b]`
abbrev pub bytes_between : ℕ → ℕ → List ℕ → List ℕ
bytes_between a b xs = take (b - a) (drop a xs)

abbrev pub same_bytes : List ℕ → List ℕ → Bool
same_bytes [] [] = true
same_bytes [] (y ∷ ys) = false
same_bytes (x ∷ xs) [] = false
same_bytes (x ∷ xs) (y ∷ ys) = x == y && same_bytes xs ys

abbrev pub check : {A : Type 0} → Bool → Result A → Result A
check b rest = if b then rest else err assertion_error

unfoldable pub self_check_elf : List ℕ → Result Bool
self_check_elf elf_bytes = check (same_bytes (take 4 elf_bytes) (127 ∷ 69 ∷ 76 ∷ 70 ∷ [])) (
    and_then (unpack ehdr_format (bytes_between 16 52 elf_bytes)) λ header.
      and_then (ehdr_of header) λ e. check (e.e_machine == 243) (
        check (e.e_type == 2) (
          and_then (unpack (replicate 3 word) (bytes_between e.e_phoff (e.e_phoff + 12) elf_bytes))
            λ segment. and_then (phdr_of segment) λ p.
              check (p.p_type == 1)
                (check (p.p_vaddr == entry_addr) (check (ltb e.e_shstrndx e.e_shnum) (ok true))))))
