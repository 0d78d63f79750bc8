-- ===== src/SpikeLog/Reads.antt =====
-- A load's commit line, which has an address and no value, is taken by none of the tests before its own.
use mathlib.Core.Path.{subst}
use risc_v_pipeline_sim.Common.{append-nil, ◌≡◌, refl, ◌∙◌, none, some, [], ◌∷◌, ◌++◌, Text, codes}
use risc_v_pipeline_sim.Regex.{
  Groups, is, digit, hex, space, star, at_end, lit, plus, group_of, match_here, search_in,
}
use risc_v_pipeline_sim.Regex.Runs.{
  AllIn, Outside, Rejects-one, plus_skip, star_all, group_skip, Disjoint-space-hex,
  Disjoint-hex-space,
}
use risc_v_pipeline_sim.SpikeLog.{mem_read_line}
use risc_v_pipeline_sim.SpikeLog.Quiet.{Quiet, Quiet-letter, classify-core}
use risc_v_pipeline_sim.SpikeLog.Forms.{
  commit_text, commit_tail, Disjoint-space-char, IsRun-all, Quiet-space,
}
use risc_v_pipeline_sim.SpikeLog.Kinds.{
  gap_other, gap_only, Rejects-space-letter, commit_found, commit_missed, no_exception,
}
use risc_v_pipeline_sim.SpikeLog.Scan.{hex_number_re, reg_re, mem_re, mem_read_re, classify, scan}
use risc_v_pipeline_sim.SpikeLog.Printed.{MemRead, read_rest}
use risc_v_pipeline_sim.SpikeLog.Matched.{Quiet-value, address_found, val_re}

blank_Outside-hex : (s : Text) → AllIn space s → Outside hex s
blank_Outside-hex [] h = tt
blank_Outside-hex (x ∷ s) h = Disjoint-space-hex x h.0

pub blank_no_o : (s : Text) → AllIn space s → Outside (is b'o') s
blank_no_o [] h = tt
blank_no_o (x ∷ s) h = Disjoint-space-char b'o' refl x h.0

pub blank_Quiet : (s : Text) → AllIn space s → Quiet s
blank_Quiet s h = subst Quiet (append-nil s) (Quiet-space s [] h tt)

-- The lines that read like a commit but are none of the ones before.
module _ (w : MemRead) where
  abbrev line : Text
  line = commit_text w.commit (read_rest w)

  abbrev gs : Groups
  gs = w.commit.place.pc ∷ w.commit.place.instr ∷ []

  abbrev start : Text
  start = w.commit.place.instr ++ (b')' ∷ read_rest w)

  abbrev behind : Text
  behind = w.gap2 ++ (codes "0x" ++ (w.addr ++ w.rest))

  pub Quiet-read : Quiet (read_rest w)
  Quiet-read = Quiet-space w.gap (codes "mem" ++ behind) (IsRun-all space w.gap w.gap_run) (
    refl,
    (
      refl,
      Quiet-letter b'm' behind refl (
          Quiet-value w.gap2 w.addr w.rest w.gap2_run w.addr_run (blank_no_o w.rest w.rest_blank)
            (blank_Quiet w.rest w.rest_blank)),
    ),
  )

  read_no_reg : search_in reg_re line ≡ none
  read_no_reg =
      commit_missed w.commit
        (plus space (lit (codes "x") (star space ∷ group_of (plus digit) val_re))) (read_rest w)
        Quiet-read
        (gap_other b'x' b'm' (star space ∷ group_of (plus digit) val_re) w.gap
          (codes "em" ++ behind) start gs refl refl refl w.gap_run)

  read_no_mem : search_in mem_re line ≡ none
  unfolding match_here
  read_no_mem =
      let address_re = plus space (hex_number_re val_re) in
      commit_missed w.commit (plus space (lit (codes "mem") address_re)) (read_rest w) Quiet-read (
        plus_skip space (lit (codes "mem") address_re) (codes "mem" ++ behind) start gs w.gap
          w.gap_run refl (Rejects-space-letter b'm' (lit (codes "em") address_re) refl)
        ∙ plus_skip space (hex_number_re val_re) (codes "0x" ++ (w.addr ++ w.rest)) start gs w.gap2
            w.gap2_run refl
            (Rejects-space-letter b'0' (lit (codes "x") (group_of (plus hex) val_re)) refl)
        ∙ group_skip hex val_re w.addr w.rest start gs w.addr_run
            (blank_Outside-hex w.rest w.rest_blank)
            (Rejects-one hex space (star space ∷ hex_number_re []) Disjoint-hex-space)
        ∙ gap_only b'0' (lit (codes "x") (group_of (plus hex) [])) w.rest (w.addr ++ w.rest)
            (gs ++ w.addr ∷ []) refl w.rest_blank)

  read_found : search_in mem_read_re line ≡ some (gs ++ w.addr ∷ [])
  unfolding match_here
  read_found =
      let address_re = plus space (hex_number_re (star space ∷ at_end ∷ [])) in
      commit_found w.commit (plus space (lit (codes "mem") address_re)) (read_rest w)
        (gs ++ w.addr ∷ [])
        (plus_skip space (lit (codes "mem") address_re) (codes "mem" ++ behind) start gs w.gap
            w.gap_run refl (Rejects-space-letter b'm' (lit (codes "em") address_re) refl)
          ∙ address_found (star space ∷ at_end ∷ []) w.gap2 w.addr w.rest start gs
              (gs ++ w.addr ∷ []) w.gap2_run w.addr_run (blank_Outside-hex w.rest w.rest_blank)
              (star_all space (at_end ∷ []) w.rest (w.addr ++ w.rest) (gs ++ w.addr ∷ [])
                (gs ++ w.addr ∷ []) w.rest_blank refl))

  pub classify-read : classify line ≡ mem_read_line
  unfolding scan
  classify-read =
      classify-core (commit_tail w.commit (read_rest w))
      ∙ (rw (no_exception w.commit (read_rest w) Quiet-read, read_no_reg, read_no_mem, read_found)
          refl)
