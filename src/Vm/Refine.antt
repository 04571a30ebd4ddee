-- ===== src/Vm/Refine.antt =====
-- pm/vm.c, pocol_execute_inst, refines the instruction set of Vm/Isa.
use pocol_vm.Prelude.{ℕ, ◌+◌, ◌≤◌, ◌<◌, ◌≡◌, List, arith, ◌∙◌}
use mathlib.Core.Path.{subst}
use pocol_vm.Machine.{Memory, Holds, memory_size, stack_size}
use pocol_vm.Host.{Host}
use pocol_vm.State.{Vm}
use pocol_vm.Vm.{
  opr_none, opr_reg, inst_halt, inst_push, inst_pop, inst_add, inst_jmp, inst_print, inst_sys,
  exec_halt, exec_op, execute_inst,
}
use pocol_vm.Vm.Isa.{
  encode_operand, Inst, halt, push, pop, add, jmp, print, sys, operand_type, encode, inst_size,
  Fits, sem,
}
use pocol_vm.Vm.Decode.{
  operand_type-lt, execute_inst-exec_op, exec_push-at, exec_pop-at, exec_add-at, exec_jmp-at,
  exec_print-at,
}

none_lt : opr_none < 16
none_lt = omega arith

reg_lt : opr_reg < 16
reg_lt = omega arith

-- Bytes that stand at an address stand at the same address written another way.
Holds-at : (m : Memory) (vs : List ℕ) {a b : ℕ} → a ≡ b → Holds m a vs → Holds m b vs
Holds-at m vs e = subst (λ k. Holds m k vs) e

Byte-at : (m : Memory) {a b v : ℕ} → a ≡ b → m a ≡ v → m b ≡ v
Byte-at m {v} e = subst (λ k. m k ≡ v) e

module _ {W : Type 0} (host : Host W) (vm : Vm W) (sp : vm.sp ≤ stack_size) where
  -- With the stack pointer in the array, and the bytes that the assembler writes for an instruction,
  -- whose operands fit, at the program counter and before the last byte of memory, one step of the
  -- executor is the instruction: its effect on every part of the machine, and its stack errors.
  pub execute_inst-encode :
      (i : Inst)
      → Fits i
      → vm.pc + inst_size i < memory_size
      → Holds vm.memory vm.pc (encode i)
      → execute_inst host vm ≡ sem host i vm
  unfolding encode sem exec_op exec_halt
  execute_inst-encode halt f h (e, (d, _)) =
      execute_inst-exec_op host vm inst_halt opr_none opr_none (omega arith) none_lt none_lt e d
  execute_inst-encode (push o) f h (e, (d, holds)) =
      execute_inst-exec_op host vm inst_push (operand_type o) opr_none (omega arith)
        (operand_type-lt vm o) none_lt e d
      ∙ exec_push-at host vm (vm.pc + 2) sp o f (omega arith)
          (Holds-at vm.memory (encode_operand o) (omega arith) holds)
  execute_inst-encode (pop r) f h (e, (d, (r_at, _))) =
      execute_inst-exec_op host vm inst_pop opr_reg opr_none (omega arith) reg_lt none_lt e d
      ∙ exec_pop-at host vm (vm.pc + 2) sp r (omega arith) (Byte-at vm.memory (omega arith) r_at)
      ∙ (let s : vm.pc + 2 + 1 ≡ vm.pc + 3 = omega arith in rw s)
  execute_inst-encode (add r o) (fr, f) h (e, (d, (r_at, holds))) =
      execute_inst-exec_op host vm inst_add opr_reg (operand_type o) (omega arith) reg_lt
        (operand_type-lt vm o) e d
      ∙ exec_add-at host vm (vm.pc + 2) r o f (omega arith) (Byte-at vm.memory (omega arith) r_at)
          (Holds-at vm.memory (encode_operand o) (omega arith) holds)
      ∙ (let s : vm.pc + 2 + 1 ≡ vm.pc + 3 = omega arith in rw s)
  execute_inst-encode (jmp o) f h (e, (d, holds)) =
      execute_inst-exec_op host vm inst_jmp (operand_type o) opr_none (omega arith)
        (operand_type-lt vm o) none_lt e d
      ∙ exec_jmp-at host vm (vm.pc + 2) o f (omega arith)
          (Holds-at vm.memory (encode_operand o) (omega arith) holds)
  execute_inst-encode (print o) f h (e, (d, holds)) =
      execute_inst-exec_op host vm inst_print (operand_type o) opr_none (omega arith)
        (operand_type-lt vm o) none_lt e d
      ∙ exec_print-at host vm (vm.pc + 2) o f (omega arith)
          (Holds-at vm.memory (encode_operand o) (omega arith) holds)
  execute_inst-encode sys f h (e, (d, _)) =
      execute_inst-exec_op host vm inst_sys opr_none opr_none (omega arith) none_lt none_lt e d
