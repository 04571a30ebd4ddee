-- ===== src/Vm.antt =====
-- pm/vm.c: the loader's start state and the executor.
pub mod Decimal
pub mod Isa
pub mod Decode
pub mod Refine
pub mod Loop
pub mod Load
pub mod Start
pub mod Invariant
pub mod Safe
use pocol_vm.Prelude.{
  ℕ, zero, suc, ◌+◌, ◌-◌, ◌*◌, ◌^◌, ◌%◌, ◌≡◌, Bool, true, false, Option, none, some, List, [], ◌∷◌,
  ltb, leb, ◌==◌, if◌then◌else◌, wrap64, wrap32, minus_one64,
}
use pocol_vm.Prelude.Int.{ℤ, pos, negsuc}
use pocol_vm.Machine.{
  Memory, memory_size, stack_size, desc_get_op1, desc_get_op2, reg_op, load64, register_count,
}
use pocol_vm.Host.{Host, stdout}
use pocol_vm.State.{
  Err, err_ok, illegal_inst, illegal_inst_access, stack_overflow, stack_underflow, err_code,
  SysCallContext, Call, on_option, Vm, Run, done, exits, fault, Cmd, pure, and_then, ◌>>=◌, ◌>>◌,
  get, put, faults,
}
use pocol_vm.Syscalls.Dispatch.{syscalls_exec}
use Decimal.{decimal}

-- `OperandType`
abbrev pub opr_none : ℕ
opr_none = 0

abbrev pub opr_reg : ℕ
opr_reg = 1

abbrev pub opr_imm : ℕ
opr_imm = 2

-- `Inst_Type`
abbrev pub inst_halt : ℕ
inst_halt = 0

abbrev pub inst_push : ℕ
inst_push = 1

abbrev pub inst_pop : ℕ
inst_pop = 2

abbrev pub inst_add : ℕ
inst_add = 3

abbrev pub inst_jmp : ℕ
inst_jmp = 4

abbrev pub inst_print : ℕ
inst_print = 5

abbrev pub inst_sys : ℕ
inst_sys = 6

-- A word of a C array, read and written.
abbrev pub set_word : (ℕ → ℕ) → ℕ → ℕ → ℕ → ℕ
set_word f i v j = if i == j then v else f j

-- `--n` in a `uint64_t`
abbrev pub pred64 : ℕ → ℕ
pred64 n = if n == 0 then minus_one64 else n - 1

module _ {W : Type 0} where
  -- NEXT: `vm->memory[vm->pc++]`, which no test guards.
  unfoldable pub next : Cmd (Vm W) ℕ
  next vm =
      if ltb vm.pc memory_size
      then done (vm.memory vm.pc) (record vm { pc = wrap64 (vm.pc + 1) })
      else fault

  -- `pocol_fetch64`. The addition in its guard wraps.
  unfoldable pub fetch64 : Cmd (Vm W) ℕ
  fetch64 vm =
      if leb memory_size (wrap64 (vm.pc + 8))
      then exits (err_code illegal_inst_access) vm
      else if ltb (vm.pc + 7) memory_size
      then done (load64 vm.memory vm.pc) (record vm { pc = wrap64 (vm.pc + 8) })
      else fault

  -- A register is read and written by its index in the array; past its end is a fault.
  abbrev pub get_register : ℕ → Cmd (Vm W) ℕ
  get_register r vm = if ltb r register_count then done (vm.registers r) vm else fault

  abbrev pub set_register : ℕ → ℕ → Cmd (Vm W) (Unit {0})
  set_register r v vm =
      if ltb r register_count
      then done tt (record vm { registers = set_word vm.registers r v })
      else fault

  unfoldable pub fetch_operand : ℕ → Cmd (Vm W) ℕ
  fetch_operand type =
      if type == opr_reg
      then (do n ← next; get_register (reg_op n))
      else if type == opr_imm
      then fetch64
      else pure 0

  unfoldable pub exec_halt : Cmd (Vm W) Err
  exec_halt vm = done err_ok (record vm { halt = true })

  -- The operand is fetched before the slot is written; it does not read `sp`. A write past the array
  -- is a fault.
  unfoldable pub exec_push : ℕ → Cmd (Vm W) Err
  exec_push op1 = do
    vm ← get
    if leb stack_size vm.sp then pure stack_overflow else do
      v ← fetch_operand op1
      vm ← get
      if leb stack_size vm.sp then faults else do
        put (record vm { stack = set_word vm.stack vm.sp v; sp = wrap64 (vm.sp + 1) })
        pure err_ok

  -- `stack[--sp]` past the array is a fault; `--sp` wraps.
  unfoldable pub exec_pop : Cmd (Vm W) Err
  exec_pop = do
    vm ← get
    let top = pred64 vm.sp
    if vm.sp == 0 then pure stack_underflow else if leb stack_size top then faults else do
      n ← next
      vm ← get
      put (record vm { sp = top })
      set_register (reg_op n) (vm.stack top)
      pure err_ok

  unfoldable pub exec_add : ℕ → Cmd (Vm W) Err
  exec_add op2 = do
    n ← next
    src ← fetch_operand op2
    dest ← get_register (reg_op n)
    set_register (reg_op n) (wrap64 (dest + src))
    pure err_ok

  unfoldable pub exec_jmp : ℕ → Cmd (Vm W) Err
  exec_jmp op1 = do
    target ← fetch_operand op1
    vm ← get
    put (record vm { pc = target })
    pure err_ok

-- The machine of a system call takes its context back.
abbrev pub back : {W : Type 0} → Run (Call W) ℕ → Run (Vm W) Err
back (done _ c) = done err_ok (record c.vm { syscall_ctx = some c.ctx })
back (exits code c) = exits code c.vm
back fault = fault

module _ {W : Type 0} (host : Host W) where
  unfoldable pub exec_print : ℕ → Cmd (Vm W) Err
  exec_print op1 = do
    v ← fetch_operand op1
    vm ← get
    put (record vm { world = (host.fwrite stdout (decimal v) vm.world).1 })
    pure err_ok

  -- The handler's own result is dropped.
  unfoldable pub exec_sys : Cmd (Vm W) Err
  exec_sys vm =
      on_option vm.syscall_ctx
        (done err_ok (record vm { registers = set_word vm.registers 0 minus_one64 }))
        (λ ctx. back (syscalls_exec host (wrap32 (vm.registers 0)) (record { ctx = ctx; vm = vm })))

  -- The `switch` of pocol_execute_inst.
  unfoldable pub exec_op : (op op1 op2 : ℕ) → Cmd (Vm W) Err
  exec_op op op1 op2 =
      if op == inst_halt
      then exec_halt
      else if op == inst_push
      then exec_push op1
      else if op == inst_pop
      then exec_pop
      else if op == inst_add
      then exec_add op2
      else if op == inst_jmp
      then exec_jmp op1
      else if op == inst_print
      then exec_print op1
      else if op == inst_sys
      then exec_sys
      else pure illegal_inst

  unfoldable pub execute_inst : Cmd (Vm W) Err
  execute_inst vm =
      if leb memory_size vm.pc
      then done illegal_inst_access vm
      else (do op ← next; desc ← next; exec_op op (desc_get_op1 desc) (desc_get_op2 desc)) vm
