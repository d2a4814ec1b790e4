-- ===== src/Decoder/RoundTrip.antt =====
-- `Decoder::decode` of src/Decoder/Decoder.cpp and `IssueArbiter::decodeOp` of
-- src/StaticArbiter/StaticArbiter.cpp give back what the manual's encoding put in.
use rv32im_simulator.Prelude.{refl, arith}
use rv32im_simulator.Decoder.{decode, format_of}
use rv32im_simulator.Arbiter.Issue.Select.{decode_op}
use rv32im_simulator.Decoder.Encode.{Mnemonic, Operands, Encodable, format, operation, encode}
use rv32im_simulator.Decoder.Classes.{
  Decodes, seen, immediate_format, register_Decodes, multiply_Decodes, shift_Decodes,
  immediate_Decodes, store_Decodes, branch_Decodes, upper_Decodes, jump_Decodes,
}

-- For each of the 45 instructions of RV32IM without fences and system calls, and operands that its
-- format can hold, the decoder gives back the format and the operands of the encoded word, and
-- `decode_op` the operation.
pub decode-encode :
    (name : Mnemonic) (o : Operands)
    → Encodable (format name) o
    → Decodes (format name) (operation name) o (decode (encode name o))
unfolding seen decode_op format_of
decode-encode Mnemonic.lui_word o e =
    upper_Decodes _ o 0b0110111 (omega arith) (λ _ _. refl) (λ _ _. refl) e
decode-encode Mnemonic.auipc_word o e =
    upper_Decodes _ o 0b0010111 (omega arith) (λ _ _. refl) (λ _ _. refl) e
decode-encode Mnemonic.jal_word o e = jump_Decodes _ o (λ _ _. refl) e
decode-encode Mnemonic.jalr_word o e =
    immediate_Decodes _ o 0b1100111 0 (omega arith) (λ _ _. refl) (λ _. refl) e
decode-encode Mnemonic.beq_word o e = branch_Decodes _ o 0 (omega arith) (λ _. refl) e
decode-encode Mnemonic.bne_word o e = branch_Decodes _ o 1 (omega arith) (λ _. refl) e
decode-encode Mnemonic.blt_word o e = branch_Decodes _ o 4 (omega arith) (λ _. refl) e
decode-encode Mnemonic.bge_word o e = branch_Decodes _ o 5 (omega arith) (λ _. refl) e
decode-encode Mnemonic.bltu_word o e = branch_Decodes _ o 6 (omega arith) (λ _. refl) e
decode-encode Mnemonic.bgeu_word o e = branch_Decodes _ o 7 (omega arith) (λ _. refl) e
decode-encode Mnemonic.lb_word o e =
    immediate_Decodes _ o 0b0000011 0 (omega arith) (λ _ _. refl) (λ _. refl) e
decode-encode Mnemonic.lh_word o e =
    immediate_Decodes _ o 0b0000011 1 (omega arith) (λ _ _. refl) (λ _. refl) e
decode-encode Mnemonic.lw_word o e =
    immediate_Decodes _ o 0b0000011 2 (omega arith) (λ _ _. refl) (λ _. refl) e
decode-encode Mnemonic.lbu_word o e =
    immediate_Decodes _ o 0b0000011 4 (omega arith) (λ _ _. refl) (λ _. refl) e
decode-encode Mnemonic.lhu_word o e =
    immediate_Decodes _ o 0b0000011 5 (omega arith) (λ _ _. refl) (λ _. refl) e
decode-encode Mnemonic.sb_word o e = store_Decodes _ o 0 (omega arith) (λ _. refl) e
decode-encode Mnemonic.sh_word o e = store_Decodes _ o 1 (omega arith) (λ _. refl) e
decode-encode Mnemonic.sw_word o e = store_Decodes _ o 2 (omega arith) (λ _. refl) e
decode-encode Mnemonic.addi_word o e =
    immediate_Decodes _ o 0b0010011 0 (omega arith)
      (λ f7 h. immediate_format 0 f7 h (omega arith) (omega arith)) (λ _. refl) e
decode-encode Mnemonic.slti_word o e =
    immediate_Decodes _ o 0b0010011 2 (omega arith)
      (λ f7 h. immediate_format 2 f7 h (omega arith) (omega arith)) (λ _. refl) e
decode-encode Mnemonic.sltiu_word o e =
    immediate_Decodes _ o 0b0010011 3 (omega arith)
      (λ f7 h. immediate_format 3 f7 h (omega arith) (omega arith)) (λ _. refl) e
decode-encode Mnemonic.xori_word o e =
    immediate_Decodes _ o 0b0010011 4 (omega arith)
      (λ f7 h. immediate_format 4 f7 h (omega arith) (omega arith)) (λ _. refl) e
decode-encode Mnemonic.ori_word o e =
    immediate_Decodes _ o 0b0010011 6 (omega arith)
      (λ f7 h. immediate_format 6 f7 h (omega arith) (omega arith)) (λ _. refl) e
decode-encode Mnemonic.andi_word o e =
    immediate_Decodes _ o 0b0010011 7 (omega arith)
      (λ f7 h. immediate_format 7 f7 h (omega arith) (omega arith)) (λ _. refl) e
decode-encode Mnemonic.slli_word o e = shift_Decodes _ o 1 0 (omega arith) refl refl e
decode-encode Mnemonic.srli_word o e = shift_Decodes _ o 5 0 (omega arith) refl refl e
decode-encode Mnemonic.srai_word o e = shift_Decodes _ o 5 32 (omega arith) refl refl e
decode-encode Mnemonic.add_word o e = register_Decodes _ o 0 0 (omega arith) refl refl e
decode-encode Mnemonic.sub_word o e = register_Decodes _ o 0 32 (omega arith) refl refl e
decode-encode Mnemonic.sll_word o e = register_Decodes _ o 1 0 (omega arith) refl refl e
decode-encode Mnemonic.slt_word o e = register_Decodes _ o 2 0 (omega arith) refl refl e
decode-encode Mnemonic.sltu_word o e = register_Decodes _ o 3 0 (omega arith) refl refl e
decode-encode Mnemonic.xor_word o e = register_Decodes _ o 4 0 (omega arith) refl refl e
decode-encode Mnemonic.srl_word o e = register_Decodes _ o 5 0 (omega arith) refl refl e
decode-encode Mnemonic.sra_word o e = register_Decodes _ o 5 32 (omega arith) refl refl e
decode-encode Mnemonic.or_word o e = register_Decodes _ o 6 0 (omega arith) refl refl e
decode-encode Mnemonic.and_word o e = register_Decodes _ o 7 0 (omega arith) refl refl e
decode-encode Mnemonic.mul_word o e = multiply_Decodes _ o 0 (omega arith) refl e
decode-encode Mnemonic.mulh_word o e = multiply_Decodes _ o 1 (omega arith) refl e
decode-encode Mnemonic.mulhsu_word o e = multiply_Decodes _ o 2 (omega arith) refl e
decode-encode Mnemonic.mulhu_word o e = multiply_Decodes _ o 3 (omega arith) refl e
decode-encode Mnemonic.div_word o e = multiply_Decodes _ o 4 (omega arith) refl e
decode-encode Mnemonic.divu_word o e = multiply_Decodes _ o 5 (omega arith) refl e
decode-encode Mnemonic.rem_word o e = multiply_Decodes _ o 6 (omega arith) refl e
decode-encode Mnemonic.remu_word o e = multiply_Decodes _ o 7 (omega arith) refl e
