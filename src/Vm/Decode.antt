-- ===== src/Vm/Decode.antt =====
-- pm/vm.c against the instruction set: executing the bytes of an instruction does what it says.
use pocol_vm.Prelude.{
  ℕ, ◌+◌, ◌-◌, ◌≤◌, ◌<◌, ◌≡◌, inl, inr, arith, leb, ◌==◌, if◌then◌else◌, Bool-cases, lt→leb_false,
  wrap64,
}
use pocol_vm.Machine.{memory_size, stack_size, Holds, load64, desc_pack, reg_op}
use pocol_vm.Machine.Codec.{desc_get-desc_pack, load64-emit64, reg_op-ltb}
use pocol_vm.Vm.Decimal.{decimal}
use pocol_vm.Host.{Host, stdout}
use pocol_vm.State.{err_ok, stack_overflow, stack_underflow, Vm, done}
use pocol_vm.Vm.{
  next, fetch64, fetch_operand, set_word, exec_push, exec_pop, exec_add, exec_jmp, exec_print,
  exec_op, execute_inst,
}
use pocol_vm.Vm.Isa.{
  Operand, reg, imm, operand_type, encode_operand, operand_size, OperandFits, at, value,
}

module _ {W : Type 0} (vm : Vm W) where
  pub next-at :
      (p b : ℕ) → p < memory_size → vm.memory p ≡ b → next (at vm p) ≡ done b (at vm (p + 1))
  unfolding next
  next-at p b h e = ground arith

  -- Eight bytes are fetched if the byte behind them is in memory too.
  pub fetch64-at :
      (p : ℕ) → p + 8 < memory_size → fetch64 (at vm p) ≡ done (load64 vm.memory p) (at vm (p + 8))
  unfolding fetch64
  fetch64-at p h = ground arith

  pub fetch_operand-at :
      (o : Operand) (p : ℕ)
      → OperandFits o
      → p + operand_size o < memory_size
      → Holds vm.memory p (encode_operand o)
      → fetch_operand (operand_type o) (at vm p) ≡ done (value vm o) (at vm (p + operand_size o))
  unfolding fetch_operand
  fetch_operand-at (reg r) p f h (e, _) = rw (next-at p r (omega arith) e, reg_op-ltb r)
  fetch_operand-at (imm v) p f h holds = rw (fetch64-at p h, load64-emit64 vm.memory p v f holds)

  pub operand_type-lt : (o : Operand) → operand_type o < 16
  operand_type-lt (reg r) = omega arith
  operand_type-lt (imm v) = omega arith

module _ {W : Type 0} (host : Host W) (vm : Vm W) where
  -- The opcode and the descriptor are read, and the handler runs behind them.
  pub execute_inst-exec_op :
      (op o₁ o₂ : ℕ)
      → vm.pc + 2 < memory_size
      → o₁ < 16
      → o₂ < 16
      → vm.memory vm.pc ≡ op
      → vm.memory (vm.pc + 1) ≡ desc_pack o₁ o₂
      → execute_inst host vm ≡ exec_op host op o₁ o₂ (at vm (vm.pc + 2))
  unfolding execute_inst
  execute_inst-exec_op op o₁ o₂ h h₁ h₂ e d =
      let (e₁, e₂) = desc_get-desc_pack o₁ o₂ h₁ h₂ in
      let s : vm.pc + 1 + 1 ≡ vm.pc + 2 = omega arith in
      rw (
        lt→leb_false memory_size vm.pc (omega arith),
        next-at vm vm.pc op (omega arith) e,
        next-at vm (vm.pc + 1) (desc_pack o₁ o₂) (omega arith) d,
        e₁,
        e₂,
        s,
      )

  module _ (p : ℕ) (sp : vm.sp ≤ stack_size) where
    pub exec_push-at :
        (o : Operand)
        → OperandFits o
        → p + operand_size o < memory_size
        → Holds vm.memory p (encode_operand o)
        → exec_push (operand_type o) (at vm p) ≡ (
            if leb stack_size vm.sp
            then done stack_overflow (at vm p)
            else done err_ok (record vm {
              pc = p + operand_size o;
              stack = set_word vm.stack vm.sp (value vm o);
              sp = vm.sp + 1;
            }))
    unfolding exec_push
    exec_push-at o f h holds = elim (Bool-cases (leb stack_size vm.sp)) [
      | inl full ↦ rw full
      | inr room ↦
          let s : wrap64 (vm.sp + 1) ≡ vm.sp + 1 = omega arith in
          rw (room, fetch_operand-at vm o p f h holds, room, s)
    ]

    pub exec_pop-at :
        (r : ℕ)
        → p < memory_size
        → vm.memory p ≡ r
        → exec_pop (at vm p) ≡ (
            if vm.sp == 0
            then done stack_underflow (at vm p)
            else done err_ok (record vm {
              pc = p + 1;
              sp = vm.sp - 1;
              registers = set_word vm.registers (reg_op r) (vm.stack (vm.sp - 1));
            }))
    unfolding exec_pop
    exec_pop-at r h e = elim (Bool-cases (vm.sp == 0)) [
      | inl bottom ↦ rw bottom
      | inr some ↦ rw (
        some,
        lt→leb_false stack_size (vm.sp - 1) (ground arith),
        next-at vm p r h e,
        reg_op-ltb r,
      )
    ]

  pub exec_add-at :
      (p r : ℕ) (o : Operand)
      → OperandFits o
      → p + 1 + operand_size o < memory_size
      → vm.memory p ≡ r
      → Holds vm.memory (p + 1) (encode_operand o)
      → exec_add (operand_type o) (at vm p)
        ≡ done err_ok (record vm {
          pc = p + 1 + operand_size o;
          registers =
              set_word vm.registers (reg_op r) (wrap64 (vm.registers (reg_op r) + value vm o));
        })
  unfolding exec_add
  exec_add-at p r o f h e holds = rw (
    next-at vm p r (omega arith) e,
    fetch_operand-at vm o (p + 1) f h holds,
    reg_op-ltb r,
    reg_op-ltb r,
  )

  module _ (p : ℕ) (o : Operand) (f : OperandFits o) (h : p + operand_size o < memory_size)
      (holds : Holds vm.memory p (encode_operand o)) where
    pub exec_jmp-at : exec_jmp (operand_type o) (at vm p) ≡ done err_ok (at vm (value vm o))
    unfolding exec_jmp
    exec_jmp-at = rw (fetch_operand-at vm o p f h holds)

    pub exec_print-at :
        exec_print host (operand_type o) (at vm p)
        ≡ done err_ok (record vm {
          pc = p + operand_size o;
          world = (host.fwrite stdout (decimal (value vm o)) vm.world).1;
        })
    unfolding exec_print
    exec_print-at = rw (fetch_operand-at vm o p f h holds)
