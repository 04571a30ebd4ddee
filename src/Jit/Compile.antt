-- ===== src/Jit/Compile.antt =====
-- pm/jit.c, compile_instruction and the loop of pocol_jit_compile_block. What the code contains of
-- addresses and of offsets in PocolVM is up to the platform: a parameter. A read outside `memory` and
-- a write outside the code buffer are faults.
use pocol_vm.Prelude.{
  ℕ, zero, suc, ◌+◌, ◌-◌, ◌*◌, ◌^◌, Option, none, some, List, ◌++◌, leb, ltb, ◌==◌, if◌then◌else◌,
  wrap64, wrap32, length,
}
use pocol_vm.Machine.{Memory, memory_size, stack_size, load64, desc_get_op1, desc_get_op2, reg_op}
use pocol_vm.State.{
  Err, err_ok, illegal_inst, illegal_inst_access, Run, done, exits, fault, Cmd, pure, get, ◌>>=◌,
  ◌>>◌,
}
use pocol_vm.Vm.{opr_reg, opr_imm, inst_halt, inst_push, inst_pop, inst_add, inst_jmp, inst_print}
use pocol_vm.Jit.Emit.{
  rax, rcx, rdx, rsi, rdi, mov_reg_imm64, mov_mem_reg, mov_reg_mem, add_reg_reg, call_rel32,
  cmp_rcx_rdx, inc_rcx, dec_rcx, set_byte,
}

-- Addresses of the machine, its `halt` and `stack`, and `printf`; offsets of its fields.
pub record Layout : Type 0 where
  pub vm : ℕ
  pub halt : ℕ
  pub stack : ℕ
  pub printf : ℕ
  pub registers_offset : ℕ
  pub sp_offset : ℕ
  pub pc_offset : ℕ

-- The code of a block so far, and the program counter of the compiler.
pub record Code : Type 0 where
  pub bytes : List ℕ
  pub pc : ℕ

-- The address `start` at which the block is written, and the `room` in the buffer from there on.
module _ (layout : Layout) (m : Memory) (start room : ℕ) where
  unfoldable pub emit : List ℕ → Cmd Code (Unit {0})
  emit bs c =
      if leb (length c.bytes + length bs) room
      then done tt (record c { bytes = c.bytes ++ bs })
      else fault

  -- `vm->memory[(*pc)++]`
  unfoldable pub next_byte : Cmd Code ℕ
  next_byte c =
      if ltb c.pc memory_size then done (m c.pc) (record c { pc = wrap64 (c.pc + 1) }) else fault

  -- The `memcpy` of an immediate, and `*pc += 8`.
  unfoldable pub next_imm : Cmd Code ℕ
  next_imm c =
      if ltb (c.pc + 7) memory_size
      then done (load64 m c.pc) (record c { pc = wrap64 (c.pc + 8) })
      else fault

  abbrev pub register_offset : ℕ → ℕ
  register_offset b = wrap32 (layout.registers_offset + reg_op b * 8)

  -- A register or an immediate is loaded into `dst`; with another type, nothing is.
  unfoldable pub load_operand : (dst type : ℕ) → Cmd Code (Unit {0})
  load_operand dst type =
      if type == opr_reg
      then (do b ← next_byte; emit (mov_reg_mem dst rax (register_offset b)))
      else if type == opr_imm
      then (do v ← next_imm; emit (mov_reg_imm64 dst v))
      else pure tt

  unfoldable pub compile_halt : Cmd Code Err
  compile_halt = do emit (mov_reg_imm64 rax layout.halt); emit set_byte; pure err_ok

  unfoldable pub compile_push : ℕ → Cmd Code Err
  compile_push op1 = do
    load_operand rdx op1
    emit (mov_reg_mem rcx rax layout.sp_offset)
    emit (mov_reg_imm64 rdx stack_size)
    emit cmp_rcx_rdx
    emit (mov_reg_mem rcx rax layout.sp_offset)
    emit (mov_reg_imm64 rsi layout.stack)
    emit (add_reg_reg rsi rcx)
    emit (mov_mem_reg rsi 0 rdx)
    emit inc_rcx
    emit (mov_mem_reg rax layout.sp_offset rcx)
    pure err_ok

  unfoldable pub compile_pop : Cmd Code Err
  compile_pop = do
    b ← next_byte
    emit (mov_reg_mem rcx rax layout.sp_offset)
    emit dec_rcx
    emit (mov_mem_reg rax layout.sp_offset rcx)
    emit (mov_reg_imm64 rsi layout.stack)
    emit (add_reg_reg rsi rcx)
    emit (mov_reg_mem rdx rsi 0)
    emit (mov_mem_reg rax (register_offset b) rdx)
    pure err_ok

  unfoldable pub compile_add : ℕ → Cmd Code Err
  compile_add op2 = do
    b ← next_byte
    emit (mov_reg_mem rdx rax (register_offset b))
    load_operand rcx op2
    emit (add_reg_reg rdx rcx)
    emit (mov_mem_reg rax (register_offset b) rdx)
    pure err_ok

  unfoldable pub compile_jmp : ℕ → Cmd Code Err
  compile_jmp op1 =
      if op1 == opr_imm
      then (do
        target ← next_imm
        emit (mov_reg_imm64 rdx target)
        emit (mov_mem_reg rax layout.pc_offset rdx)
        pure err_ok)
      else pure err_ok

  -- The displacement of the call counts from the address behind it.
  abbrev pub call_offset : Code → ℕ
  call_offset c = wrap32 (layout.printf + (2 ^ 64 - wrap64 (start + length c.bytes + 5)))

  unfoldable pub compile_print : ℕ → Cmd Code Err
  compile_print op1 = do
    load_operand rdi op1
    emit (mov_reg_imm64 rax layout.printf)
    c ← get
    emit (call_rel32 (call_offset c))
    pure err_ok

  unfoldable pub compile_op : (op op1 op2 : ℕ) → Cmd Code Err
  compile_op op op1 op2 =
      if op == inst_halt
      then compile_halt
      else if op == inst_push
      then compile_push op1
      else if op == inst_pop
      then compile_pop
      else if op == inst_add
      then compile_add op2
      else if op == inst_jmp
      then compile_jmp op1
      else if op == inst_print
      then compile_print op1
      else pure illegal_inst

  unfoldable pub compile_fetched : Cmd Code Err
  compile_fetched = do
    op ← next_byte
    desc ← next_byte
    compile_op op (desc_get_op1 desc) (desc_get_op2 desc)

  unfoldable pub compile_instruction : Cmd Code Err
  compile_instruction c =
      if leb memory_size c.pc then done illegal_inst_access c else compile_fetched c

  -- What the loop does after an instruction whose opcode is `op`, where `again` is the next round.
  abbrev pub after_instruction :
      ℕ → ℕ → (ℕ → Code → Option (Run Code (Err × ℕ))) → Run Code Err → Option (Run Code (Err × ℕ))
  after_instruction op end_pc again (done err_ok c) =
      if op == inst_jmp then some (done (err_ok, c.pc) c) else again c.pc c
  after_instruction op end_pc again (done e c) = some (done (e, end_pc) c)
  after_instruction op end_pc again (exits k c) = some (exits k c)
  after_instruction op end_pc again fault = some fault

  -- The loop of `pocol_jit_compile_block`: an error, and `end_pc`. `none` when the fuel runs out.
  unfoldable pub compile_loop : ℕ → ℕ → Code → Option (Run Code (Err × ℕ))
  compile_loop zero end_pc c = none
  compile_loop (suc f) end_pc c =
      let round = after_instruction (m c.pc) end_pc (compile_loop f) (compile_instruction c) in
      if leb memory_size c.pc
      then some (done (err_ok, end_pc) c)
      else if m c.pc == inst_halt
      then some (done (err_ok, c.pc) c)
      else round
