-- ===== src/SpikeLog/Matched.antt =====
-- The pattern that is meant for a form of line matches it, with the numbers of the line as groups.
use risc_v_pipeline_sim.Common.{◌≡◌, refl, ◌∙◌, some, [], ◌∷◌, ◌++◌, Text, codes}
use risc_v_pipeline_sim.Regex.{
  Pattern, Groups, is, digit, hex, space, non_space, star, closing, lit, plus, group_of, match_here,
  search_in,
}
use risc_v_pipeline_sim.Regex.Runs.{
  IsRun, Outside, Outside-run, Rejects-one, Rejects-opening, plus_skip, star_skip, group_skip,
  group_take, Disjoint-space-digit, Disjoint-space-hex, Disjoint-space-non_space,
  Disjoint-non_space-space, Disjoint-digit-space,
}
use risc_v_pipeline_sim.SpikeLog.Quiet.{Quiet, Quiet-letter, search_core}
use risc_v_pipeline_sim.SpikeLog.Forms.{
  head_tail, commit_text, match_head, Disjoint-space-char, IsRun-all, Quiet-space, Quiet-digit,
  Quiet-hex,
}
use risc_v_pipeline_sim.SpikeLog.Kinds.{Rejects-space-letter, commit_found, exception_rest}
use risc_v_pipeline_sim.SpikeLog.Scan.{head_re, hex_number_re, exception_re, reg_re, mem_re}
use risc_v_pipeline_sim.SpikeLog.Printed.{
  RegWrite, reg_rest, MemWrite, mem_rest, Trap, trap_form, form_text,
}

pub trap_found : (t : Trap) → search_in exception_re (form_text (trap_form t)) ≡ some (t.name ∷ [])
unfolding match_here
trap_found t =
    let line = form_text (trap_form t) in
    let name_re = group_of (plus non_space) [] in
    let behind = t.gap ++ (t.name ++ t.rest) in
    search_core (head_re exception_rest) (head_tail t.head (codes "exception" ++ behind))
      (t.name ∷ [])
      (match_head t.head exception_rest (codes "exception" ++ behind) line [] refl
          (Rejects-space-letter b'e' (lit (codes "xception") (plus space name_re)) refl)
        ∙ plus_skip space name_re (t.name ++ t.rest) line [] t.gap t.gap_run
            (Outside-run non_space space t.name t.rest Disjoint-non_space-space t.name_run)
            (Rejects-opening space (plus non_space (closing ∷ [])) (
              Rejects-one space non_space (star non_space ∷ closing ∷ []) Disjoint-space-non_space))
        ∙ group_take non_space [] t.name t.rest line [] (t.name ∷ []) t.name_run t.rest_outside
            refl)

abbrev pub val_re : Pattern
val_re = plus space (hex_number_re [])

-- A blank-separated value at the end of a commit line.
value_found :
    (gap val rest start : Text) (gs : Groups)
    → IsRun space gap
    → IsRun hex val
    → Outside hex rest
    → match_here val_re (gap ++ (codes "0x" ++ (val ++ rest))) start gs ≡ some (gs ++ val ∷ [])
unfolding match_here
value_found gap val rest start gs hg hv o =
    plus_skip space (hex_number_re []) (codes "0x" ++ (val ++ rest)) start gs gap hg refl
      (Rejects-space-letter b'0' (lit (codes "x") (group_of (plus hex) [])) refl)
    ∙ group_take hex [] val rest start gs (gs ++ val ∷ []) hv o refl

-- A number in front of which are white space and 0x.
pub Quiet-number :
    (gap number : Text) → IsRun space gap → Quiet number → Quiet (gap ++ (codes "0x" ++ number))
Quiet-number gap number hg q =
    Quiet-space gap (codes "0x" ++ number) (IsRun-all space gap hg)
      (refl, Quiet-letter b'x' number refl q)

pub Quiet-value :
    (gap val rest : Text)
    → IsRun space gap
    → IsRun hex val
    → Outside (is b'o') rest
    → Quiet rest
    → Quiet (gap ++ (codes "0x" ++ (val ++ rest)))
Quiet-value gap val rest hg hv o q = Quiet-number gap (val ++ rest) hg (Quiet-hex val rest hv o q)

pub Quiet-reg : (w : RegWrite) → Quiet (reg_rest w)
Quiet-reg w =
    let value = w.gap2 ++ (codes "0x" ++ (w.val ++ w.rest)) in
    Quiet-space w.gap (b'x' ∷ (w.pad ++ (w.rd ++ value))) (IsRun-all space w.gap w.gap_run) (
      Quiet-letter b'x' (w.pad ++ (w.rd ++ value)) refl (
        Quiet-space w.pad (w.rd ++ value) w.pad_blank (
          Quiet-digit w.rd value w.rd_run
            (Quiet-number w.gap2 (w.val ++ w.rest) w.gap2_run w.value_quiet))))

pub reg_found :
    (w : RegWrite)
    → search_in reg_re (commit_text w.commit (reg_rest w))
      ≡ some (w.commit.place.pc ∷ w.commit.place.instr ∷ w.rd ∷ w.val ∷ [])
unfolding match_here
reg_found w =
    let l = w.commit.place in
    let gs : Groups = l.pc ∷ l.instr ∷ [] in
    let start = l.instr ++ (b')' ∷ reg_rest w) in
    let value = w.gap2 ++ (codes "0x" ++ (w.val ++ w.rest)) in
    let number = w.rd ++ value in
    let number_re = group_of (plus digit) val_re in
    commit_found w.commit (plus space (lit (codes "x") (star space ∷ number_re))) (reg_rest w)
      (gs ++ w.rd ∷ w.val ∷ [])
      (plus_skip space (lit (codes "x") (star space ∷ number_re)) (b'x' ∷ (w.pad ++ number)) start
          gs w.gap w.gap_run refl (Rejects-space-letter b'x' (star space ∷ number_re) refl)
        ∙ star_skip space number_re number start gs w.pad w.pad_blank
            (Outside-run digit space w.rd value Disjoint-digit-space w.rd_run)
            (Rejects-opening space (plus digit (closing ∷ val_re))
              (Rejects-one space digit (star digit ∷ closing ∷ val_re) Disjoint-space-digit))
        ∙ group_skip digit val_re w.rd value start gs w.rd_run
            (Outside-run space digit w.gap2 (codes "0x" ++ (w.val ++ w.rest)) Disjoint-space-digit
              w.gap2_run)
            (Rejects-one digit space (star space ∷ hex_number_re []) Disjoint-digit-space)
        ∙ value_found w.gap2 w.val w.rest number (gs ++ w.rd ∷ []) w.gap2_run w.val_run
            w.rest_outside)

pub Quiet-mem : (w : MemWrite) → Quiet (mem_rest w)
Quiet-mem w =
    let value = w.gap3 ++ (codes "0x" ++ (w.val ++ w.rest)) in
    let place = w.gap2 ++ (codes "0x" ++ (w.addr ++ value)) in
    let o =
      Outside-run space (is b'o') w.gap3 (codes "0x" ++ (w.val ++ w.rest))
        (Disjoint-space-char b'o' refl) w.gap3_run in
    Quiet-space w.gap (codes "mem" ++ place) (IsRun-all space w.gap w.gap_run) (
      refl,
      (
        refl,
        Quiet-letter b'm' place refl (
            Quiet-value w.gap2 w.addr value w.gap2_run w.addr_run o
              (Quiet-number w.gap3 (w.val ++ w.rest) w.gap3_run w.value_quiet)),
      ),
    )

-- Behind `mem`, the address.
pub address_found :
    (p : Pattern) (gap addr rest start : Text) (gs out : Groups)
    → IsRun space gap
    → IsRun hex addr
    → Outside hex rest
    → match_here p rest (addr ++ rest) (gs ++ addr ∷ []) ≡ some out
    → match_here (plus space (hex_number_re p)) (gap ++ (codes "0x" ++ (addr ++ rest))) start gs
      ≡ some out
unfolding match_here
address_found p gap addr rest start gs out hg ha o m =
    plus_skip space (hex_number_re p) (codes "0x" ++ (addr ++ rest)) start gs gap hg refl
      (Rejects-space-letter b'0' (lit (codes "x") (group_of (plus hex) p)) refl)
    ∙ group_take hex p addr rest start gs out ha o m

pub mem_found :
    (w : MemWrite)
    → search_in mem_re (commit_text w.commit (mem_rest w))
      ≡ some (w.commit.place.pc ∷ w.commit.place.instr ∷ w.addr ∷ w.val ∷ [])
unfolding match_here
mem_found w =
    let l = w.commit.place in
    let gs : Groups = l.pc ∷ l.instr ∷ [] in
    let start = l.instr ++ (b')' ∷ mem_rest w) in
    let number = codes "0x" ++ (w.val ++ w.rest) in
    let value = w.gap3 ++ number in
    let behind = w.gap2 ++ (codes "0x" ++ (w.addr ++ value)) in
    let address_re = plus space (hex_number_re val_re) in
    commit_found w.commit (plus space (lit (codes "mem") address_re)) (mem_rest w)
      (gs ++ w.addr ∷ w.val ∷ [])
      (plus_skip space (lit (codes "mem") address_re) (codes "mem" ++ behind) start gs w.gap
          w.gap_run refl (Rejects-space-letter b'm' (lit (codes "em") address_re) refl)
        ∙ address_found val_re w.gap2 w.addr value start gs (gs ++ w.addr ∷ w.val ∷ []) w.gap2_run
            w.addr_run (Outside-run space hex w.gap3 number Disjoint-space-hex w.gap3_run)
            (value_found w.gap3 w.val w.rest (w.addr ++ value) (gs ++ w.addr ∷ []) w.gap3_run
              w.val_run w.rest_outside))
