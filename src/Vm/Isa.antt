-- ===== src/Vm/Isa.antt =====
-- The instruction set apart from its bytes: what the assembler writes for an instruction
-- (posm/compiler.c, parse_inst), and what each instruction is to do.
use pocol_vm.Prelude.{ℕ, ◌+◌, ◌-◌, ◌^◌, ◌<◌, true, List, [], ◌∷◌, leb, ◌==◌, if◌then◌else◌, wrap64}
use pocol_vm.Machine.{desc_pack, emit64, reg_op, stack_size}
use pocol_vm.Host.{Host, stdout}
use pocol_vm.State.{Err, err_ok, stack_overflow, stack_underflow, Vm, Run, done}
use pocol_vm.Vm.{
  opr_none, opr_reg, opr_imm, inst_halt, inst_push, inst_pop, inst_add, inst_jmp, inst_print,
  inst_sys, set_word, exec_sys,
}
use pocol_vm.Vm.Decimal.{decimal}

pub data Operand : Type 0 where
  reg : ℕ → Operand
  imm : ℕ → Operand

pub data Inst : Type 0 where
  halt : Inst
  push : Operand → Inst
  pop : ℕ → Inst
  add : ℕ → Operand → Inst
  jmp : Operand → Inst
  print : Operand → Inst
  sys : Inst

abbrev pub operand_type : Operand → ℕ
operand_type (reg _) = opr_reg
operand_type (imm _) = opr_imm

abbrev pub encode_operand : Operand → List ℕ
encode_operand (reg r) = r ∷ []
encode_operand (imm v) = emit64 v

abbrev pub operand_size : Operand → ℕ
operand_size (reg _) = 1
operand_size (imm _) = 8

-- Opcode, descriptor, operands.
unfoldable pub encode : Inst → List ℕ
encode halt = inst_halt ∷ desc_pack opr_none opr_none ∷ []
encode (push o) = inst_push ∷ desc_pack (operand_type o) opr_none ∷ encode_operand o
encode (pop r) = inst_pop ∷ desc_pack opr_reg opr_none ∷ r ∷ []
encode (add r o) = inst_add ∷ desc_pack opr_reg (operand_type o) ∷ r ∷ encode_operand o
encode (jmp o) = inst_jmp ∷ desc_pack (operand_type o) opr_none ∷ encode_operand o
encode (print o) = inst_print ∷ desc_pack (operand_type o) opr_none ∷ encode_operand o
encode sys = inst_sys ∷ desc_pack opr_none opr_none ∷ []

abbrev pub inst_size : Inst → ℕ
inst_size halt = 2
inst_size (push o) = 2 + operand_size o
inst_size (pop r) = 3
inst_size (add r o) = 3 + operand_size o
inst_size (jmp o) = 2 + operand_size o
inst_size (print o) = 2 + operand_size o
inst_size sys = 2

-- A register operand is a byte, an immediate a 64-bit word.
abbrev pub OperandFits : Operand → Type 0
OperandFits (reg r) = r < 2 ^ 8
OperandFits (imm v) = v < 2 ^ 64

abbrev pub Fits : Inst → Type 0
Fits halt = Unit
Fits (push o) = OperandFits o
Fits (pop r) = r < 2 ^ 8
Fits (add r o) = (r < 2 ^ 8) × OperandFits o
Fits (jmp o) = OperandFits o
Fits (print o) = OperandFits o
Fits sys = Unit

-- The machine with its program counter at `p`.
abbrev pub at : {W : Type 0} → Vm W → ℕ → Vm W
at vm p = record vm { pc = p }

module _ {W : Type 0} where
  abbrev pub value : Vm W → Operand → ℕ
  value vm (reg r) = vm.registers (reg_op r)
  value vm (imm v) = v

module _ {W : Type 0} (host : Host W) where
  -- One instruction at the program counter. An error on the stack leaves the program counter behind
  -- the descriptor, and all else as it was.
  unfoldable pub sem : Inst → Vm W → Run (Vm W) Err
  sem halt vm = done err_ok (record vm { pc = vm.pc + 2; halt = true })
  sem (push o) vm =
      if leb stack_size vm.sp
      then done stack_overflow (at vm (vm.pc + 2))
      else done err_ok (record vm {
        pc = vm.pc + 2 + operand_size o;
        stack = set_word vm.stack vm.sp (value vm o);
        sp = vm.sp + 1;
      })
  sem (pop r) vm =
      if vm.sp == 0
      then done stack_underflow (at vm (vm.pc + 2))
      else done err_ok (record vm {
        pc = vm.pc + 3;
        sp = vm.sp - 1;
        registers = set_word vm.registers (reg_op r) (vm.stack (vm.sp - 1));
      })
  sem (add r o) vm = done err_ok (record vm {
    pc = vm.pc + 3 + operand_size o;
    registers = set_word vm.registers (reg_op r) (wrap64 (vm.registers (reg_op r) + value vm o));
  })
  sem (jmp o) vm = done err_ok (at vm (value vm o))
  sem (print o) vm = done err_ok (record vm {
    pc = vm.pc + 2 + operand_size o;
    world = (host.fwrite stdout (decimal (value vm o)) vm.world).1;
  })
  sem sys vm = exec_sys host (at vm (vm.pc + 2))
