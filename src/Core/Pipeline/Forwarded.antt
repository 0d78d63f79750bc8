-- ===== src/Core/Pipeline/Forwarded.antt =====
-- The operands in EX are those of the program order.
use risc_v_pipeline_sim.Common.{
  ℕ, ◌≡◌, refl, sym, ap, ◌∙◌, ◌⊎◌, inl, inr, arith, Bool, Bool-cases, true, false, not, ◌&&◌, ◌||◌,
  ◌==◌, if◌then◌else◌,
}
use risc_v_pipeline_sim.Encoding.Decode.{rs1_of, rs2_of, rd_of}
use risc_v_pipeline_sim.Core.Control.{control_unit}
use risc_v_pipeline_sim.Core.Datapath.{control_of, wb_write_data, reg_file_write}
use risc_v_pipeline_sim.Core.Pipeline.{
  IfId, ExMem, MemWb, read_data, hazard_unit, forward_unit, ex_mem_fwd_value, wb_value, choose,
  fwd_rs, id_ex_next, ex_mem_next, mem_wb_next,
}

-- The register file behind an instruction in WB.
abbrev pub written_back : MemWb → (ℕ → ℕ) → ℕ → ℕ
written_back r rf = reg_file_write (r.valid && r.reg_write) r.rd_addr (wb_value r) rf

-- The control unit reads the memory for what it writes back from there.
loads_read : (w : ℕ) → (control_of w).mem_to_reg ≡ (control_of w).mem_read
unfolding control_unit
loads_read w = ground arith

-- An instruction writes a register.
abbrev hits : (reg_write : Bool) → (rd rs : ℕ) → Bool
hits reg_write rd rs = reg_write && not (rd == 0) && (rd == rs)

reg_file_write-hits :
    (w : Bool) (rd v rs : ℕ) (rf : ℕ → ℕ)
    → reg_file_write w rd v rf rs ≡ (if hits w rd rs then v else rf rs)
unfolding reg_file_write
reg_file_write-hits w rd v rs rf = elim (Bool-cases (w && not (rd == 0))) [
  | inl writes ↦ elim (Bool-cases (rd == rs)) [
    | inl same ↦
        let flipped : (rs == rd) ≡ true = ground (arith, same) in rw (writes, same, flipped) refl
    | inr other ↦
        let flipped : (rs == rd) ≡ false = ground (arith, other) in rw (writes, other, flipped) refl
  ]
  | inr nothing ↦ rw nothing refl
]

-- The bypass of the register file.
read_data-hits :
    (w : Bool) (rd v rs : ℕ) (rf : ℕ → ℕ)
    → rf 0 ≡ 0
    → read_data rf w rd v rs ≡ (if hits w rd rs then v else rf rs)
unfolding read_data
read_data-hits w rd v rs rf z = elim (Bool-cases (rs == 0)) [
  | inl zero ↦
      let same : rs ≡ 0 = ground (arith, zero) in
      let misses : hits w rd rs ≡ false = ground (arith, same) in
      rw (zero, misses) (sym (ap rf same ∙ z))
  | inr other ↦ elim (Bool-cases (rd == rs)) [
    | inl same ↦
        let nonzero : (rd == 0) ≡ false = ground (arith, same, other) in
        rw (other, nonzero, same) (ground arith)
    | inr apart ↦ rw (other, apart) (ground arith)
  ]
]

-- The multiplexer picks the last write.
choose_last :
    (rs : ℕ) (rf : ℕ → ℕ) (w1 w2 w3 : Bool) (d1 d2 d3 v1 v2 v3 early : ℕ)
    → rf 0 ≡ 0
    → (hits w3 d3 rs ≡ true → early ≡ v3)
    → choose (forward_unit rs w3 d3 w2 d2) early v2 (read_data rf w1 d1 v1 rs)
      ≡ reg_file_write w3 d3 v3 (reg_file_write w2 d2 v2 (reg_file_write w1 d1 v1 rf)) rs
unfolding forward_unit
choose_last rs rf w1 w2 w3 d1 d2 d3 v1 v2 v3 early z h =
    rw
      (
        reg_file_write-hits w3 d3 v3 rs (reg_file_write w2 d2 v2 (reg_file_write w1 d1 v1 rf)),
        reg_file_write-hits w2 d2 v2 rs (reg_file_write w1 d1 v1 rf),
        reg_file_write-hits w1 d1 v1 rs rf,
        read_data-hits w1 d1 v1 rs rf z,
      )
      (elim (Bool-cases (hits w3 d3 rs)) [
        | inl last ↦ rw last (h last)
        | inr older ↦ elim (Bool-cases (hits w2 d2 rs)) [
          | inl middle ↦ rw (older, middle) refl
          | inr oldest ↦ rw (older, oldest) refl
        ]
      ])

-- What an instruction behind EX forwards is what it writes back, unless the decoded one has to wait.
early_value :
    (older : IfId) (d1 d2 a b read rs1 rs2 rs : ℕ)
    → let r = id_ex_next older d1 d2 in
      let e = ex_mem_next r a b in
      hazard_unit rs1 rs2 r.control.mem_read r.rd_addr ≡ false
      → (rs ≡ rs1) ⊎ (rs ≡ rs2)
      → hits (e.valid && e.reg_write) e.rd_addr rs ≡ true
      → ex_mem_fwd_value e ≡ wb_value (mem_wb_next e read)
unfolding id_ex_next ex_mem_next mem_wb_next ex_mem_fwd_value wb_write_data hazard_unit
early_value older d1 d2 a b read rs1 rs2 rs free which hit =
    elim (Bool-cases (control_of older.instr).mem_to_reg) [
      | inl loads ↦
          let reads : (control_of older.instr).mem_read ≡ true =
            sym (loads_read older.instr) ∙ loads in
          absurd (
            waits older.valid (control_of older.instr).reg_write (control_of older.instr).mem_read
              (rd_of older.instr) rs1 rs2 rs reads free which hit)
      | inr computes ↦ rw computes refl
    ]
  where
    waits :
        (valid w reads : Bool) (rd rs1 rs2 rs : ℕ)
        → reads ≡ true
        → ((reads && valid) && not (rd == 0) && (rd == rs1 || rd == rs2)) ≡ false
        → (rs ≡ rs1) ⊎ (rs ≡ rs2)
        → hits (valid && (w && valid)) rd rs ≡ true
        → ⊥
    waits valid w reads rd rs1 rs2 rs e f which hit = ground arith

-- An instruction that leaves ID gets in EX, for both source registers, the values behind all older
-- instructions: those of the register file, of the instruction that was in WB when it was decoded,
-- of the one that was in MEM, and of the one that was in EX, whatever of these write which
-- registers, as long as x0 is zero and the hazard unit did not make it wait.
pub fwd_rs-written_back :
    (rf : ℕ → ℕ) (wb : MemWb) (em : ExMem) (older : IfId) (d1 d2 a b read0 read1 instr : ℕ)
    → rf 0 ≡ 0
    → let r = id_ex_next older d1 d2 in
      hazard_unit (rs1_of instr) (rs2_of instr) r.control.mem_read r.rd_addr ≡ false
      → let e = ex_mem_next (id_ex_next older d1 d2) a b in
        let m = mem_wb_next em read0 in
        let rs_data = read_data rf (wb.valid && wb.reg_write) wb.rd_addr (wb_value wb) in
        let in_order = written_back (mem_wb_next e read1) (written_back m (written_back wb rf)) in
        (fwd_rs e m (rs1_of instr) (rs_data (rs1_of instr)) ≡ in_order (rs1_of instr))
        × (fwd_rs e m (rs2_of instr) (rs_data (rs2_of instr)) ≡ in_order (rs2_of instr))
unfolding fwd_rs mem_wb_next ex_mem_next
fwd_rs-written_back rf wb em older d1 d2 a b read0 read1 instr z free =
    (operand (rs1_of instr) (inl refl), operand (rs2_of instr) (inr refl))
  where
    operand :
        (rs : ℕ)
        → (rs ≡ rs1_of instr) ⊎ (rs ≡ rs2_of instr)
        → let e = ex_mem_next (id_ex_next older d1 d2) a b in
          let m = mem_wb_next em read0 in
          fwd_rs e m rs (read_data rf (wb.valid && wb.reg_write) wb.rd_addr (wb_value wb) rs)
          ≡ written_back (mem_wb_next e read1) (written_back m (written_back wb rf)) rs
    operand rs which =
        let e = ex_mem_next (id_ex_next older d1 d2) a b in
        let m = mem_wb_next em read0 in
        choose_last rs rf (wb.valid && wb.reg_write) (m.valid && m.reg_write)
          (e.valid && e.reg_write) wb.rd_addr m.rd_addr e.rd_addr (wb_value wb) (wb_value m)
          (wb_value (mem_wb_next e read1)) (ex_mem_fwd_value e) z
          (early_value older d1 d2 a b read1 (rs1_of instr) (rs2_of instr) rs free which)
