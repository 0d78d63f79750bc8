-- ===== src/Tests/Isa.antt =====
-- src/main.cpp.
use risc_v_pipeline_sim.Common.{ℕ, ◌/◌, ◌^◌, ◌≡◌, arith}
use risc_v_pipeline_sim.Encoding.Decode.{imm_i, imm_s, imm_b, imm_j}
use risc_v_pipeline_sim.Isa.{fields, sign_extend_12, decode_b_imm, decode_j_imm, decode_s_imm}
use risc_v_pipeline_sim.Isa.SameFields.{core_fields, fields-core_fields}

-- bne x30, x0, -8
abbrev branch_word : ℕ
branch_word = 0xFE0F1CE3

fields-core_fields_example :
    (fields branch_word ≡ core_fields branch_word)
    × (sign_extend_12 (branch_word / 2 ^ 20) ≡ imm_i branch_word)
    × (decode_s_imm branch_word ≡ imm_s branch_word)
    × (decode_b_imm branch_word ≡ imm_b branch_word)
    × (decode_j_imm branch_word ≡ imm_j branch_word)
fields-core_fields_example = fields-core_fields branch_word (omega arith)
