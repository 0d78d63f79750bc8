-- ===== src/Elf/File.antt =====
-- The file that `build_elf32` returns, as `self_check_elf` and a loader read it.
use risc_v_pipeline_sim.Common.{
  ℕ, ◌+◌, ◌*◌, ◌^◌, ◌≤◌, ◌<◌, ◌≡◌, refl, sym, ap, ◌∙◌, arith, List, [], ◌∷◌, ◌++◌, map, Option,
  none, some, inl, inr, ltb, Bool-cases, length, append_assoc, All, replicate,
}
use risc_v_pipeline_sim.Effect.{ok, err, struct_error}
use risc_v_pipeline_sim.Elf.Struct.{word, le_bytes, pack, packed, pack-packed, InRange}
use risc_v_pipeline_sim.Elf.{
  pack_words, shstrtab_content, e_ident, ehdr_format, ehdr_values, phdr_values, shstrtab_values,
  build_elf32,
}

abbrev pub IsWord : ℕ → Type 0
IsWord w = w < 256 ^ 4

abbrev pub code_bytes : List ℕ → List ℕ
code_bytes [] = []
code_bytes (w ∷ ws) = le_bytes 4 w ++ code_bytes ws

pub length-code_bytes : (ws : List ℕ) → length (code_bytes ws) ≡ 4 * length ws
length-code_bytes [] = refl
length-code_bytes (w ∷ ws) = omega (arith, length-code_bytes ws)

pack_words_lem : (ws : List ℕ) → All IsWord ws → pack_words (map some ws) ≡ ok (code_bytes ws)
unfolding pack_words
pack_words_lem [] h = refl
pack_words_lem (w ∷ ws) h =
    rw (pack-packed (word ∷ []) (w ∷ []) (h.0, tt), pack_words_lem ws h.1) refl

-- The parts of the file behind each other.
abbrev pub headers : (entry code_len : ℕ) → List ℕ
headers entry code_len =
    (e_ident ++ packed ehdr_format (ehdr_values entry (84 + code_len + 11)))
    ++ packed (replicate 8 word) (phdr_values entry code_len)

abbrev pub trailer : (code_len : ℕ) → List ℕ
trailer code_len =
    shstrtab_content
    ++ packed (replicate 10 word) (replicate 10 0)
    ++ packed (replicate 10 word) (shstrtab_values (84 + code_len))

abbrev pub elf_file : List ℕ → (entry : ℕ) → List ℕ
elf_file ws entry =
    headers entry (length (code_bytes ws)) ++ (code_bytes ws ++ trailer (length (code_bytes ws)))

regroup : (h c s n t : List ℕ) → (((h ++ c) ++ s) ++ n) ++ t ≡ h ++ (c ++ ((s ++ n) ++ t))
regroup h c s n t =
    append_assoc ((h ++ c) ++ s) n t
    ∙ append_assoc (h ++ c) s (n ++ t)
    ∙ append_assoc h c (s ++ (n ++ t))
    ∙ ap (λ z. h ++ (c ++ z)) (sym (append_assoc s n t))

pub ehdr-InRange :
    (entry shoff : ℕ) → IsWord entry → IsWord shoff → InRange ehdr_format (ehdr_values entry shoff)
ehdr-InRange entry shoff h h' = ground arith

phdr-InRange :
    (entry code_len : ℕ)
    → IsWord entry
    → IsWord code_len
    → InRange (replicate 8 word) (phdr_values entry code_len)
phdr-InRange entry code_len h h' = ground arith

shdr_null-InRange : InRange (replicate 10 word) (replicate 10 0)
shdr_null-InRange = ground arith

shstrtab-InRange : (o : ℕ) → IsWord o → InRange (replicate 10 word) (shstrtab_values o)
shstrtab-InRange o h = ground arith

pub build_elf32_lem :
    (ws : List ℕ) (entry : ℕ)
    → All IsWord ws
    → IsWord entry
    → IsWord (4 * length ws + 175)
    → build_elf32 (map some ws) entry ≡ ok (elf_file ws entry)
unfolding build_elf32
build_elf32_lem ws entry h he hn =
    let long = length-code_bytes ws in
    let small : IsWord (84 + length (code_bytes ws) + 11) = omega arith in
    let len : IsWord (length (code_bytes ws)) = omega arith in
    rw
      (
        pack_words_lem ws h,
        pack-packed ehdr_format (ehdr_values entry (84 + length (code_bytes ws) + 11))
            (ehdr-InRange _ _ he small),
        pack-packed (replicate 8 word) (phdr_values entry (length (code_bytes ws)))
            (phdr-InRange _ _ he len),
        pack-packed (replicate 10 word) (replicate 10 0) shdr_null-InRange,
        pack-packed (replicate 10 word) (shstrtab_values (84 + length (code_bytes ws)))
            (shstrtab-InRange _ (omega arith)),
      )
      (ap ok (
        regroup (headers entry (length (code_bytes ws))) (code_bytes ws) shstrtab_content
          (packed (replicate 10 word) (replicate 10 0))
          (packed (replicate 10 word) (shstrtab_values (84 + length (code_bytes ws))))))

-- A word that does not fit 32 bits, or a slot that is still None.
abbrev pub Unfit : Option ℕ → Type 0
Unfit none = Unit
Unfit (some w) = 256 ^ 4 ≤ w

pack_words-error :
    (before : List (Option ℕ)) (x : Option ℕ) (after : List (Option ℕ))
    → Unfit x
    → pack_words (before ++ x ∷ after) ≡ err struct_error
unfolding pack_words pack
pack_words-error [] none after h = refl
pack_words-error [] (some w) after h = ground arith
pack_words-error (none ∷ before) x after h = refl
pack_words-error (some w ∷ before) x after h = elim (Bool-cases (ltb w (256 ^ 4))) [
  | inl fits ↦ rw (fits, pack_words-error before x after h) refl
  | inr unfit ↦ rw unfit refl
]

-- A slot that is None or a word that does not fit 32 bits, wherever it stands, makes build_elf32
-- raise struct.error.
pub build_elf32-error :
    (before : List (Option ℕ)) (x : Option ℕ) (after : List (Option ℕ)) (entry : ℕ)
    → Unfit x
    → build_elf32 (before ++ x ∷ after) entry ≡ err struct_error
unfolding build_elf32
build_elf32-error before x after entry h = rw (pack_words-error before x after h) refl
