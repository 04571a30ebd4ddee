-- ===== src/Vm/Invariant.antt =====
-- pm/vm.c: the machine's invariant, and that an instruction with room in memory is safe.
use pocol_vm.Prelude.{
  ℕ, ◌+◌, ◌-◌, ◌^◌, ◌≢◌, ◌⊎◌, ◌≤◌, ◌<◌, ◌≡◌, refl, Bool, true, false, List, [], ◌∷◌, arith,
  Bool-cases, Option-cases, inl, inr, ltb, leb, ◌==◌, if◌then◌else◌, wrap64,
}
use mathlib.Core.Path.{subst}
use pocol_vm.Machine.{
  Memory, memory_size, stack_size, store, store_list, desc_get_op1, desc_get_op2,
}
use pocol_vm.Machine.Codec.{reg_op-ltb}
use pocol_vm.Host.{Host, AllBytes, IsHost}
use pocol_vm.State.{
  Err, Vm, Call, Run, done, exits, fault, Cmd, Ensures, on_done, on_exits, on_fault,
  Ensures-and_then, Ensures-done,
}
use pocol_vm.Syscalls.Dispatch.{syscalls_exec}
use pocol_vm.Syscalls.Keeps.{Closed, InVm}
use pocol_vm.Syscalls.Frame.{dispatch-Keeps}
use pocol_vm.Vm.{
  opr_reg, opr_imm, inst_halt, inst_push, inst_pop, inst_add, inst_jmp, inst_print, inst_sys, next,
  fetch64, fetch_operand, exec_halt, exec_push, exec_pop, exec_add, exec_jmp, exec_print, back,
  exec_sys, exec_op, execute_inst,
}
use pocol_vm.Vm.Loop.{Steps, stop, step}
use pocol_vm.Vm.Safe.{execute_inst-done}

-- The stack pointer stays in the array, and the memory holds bytes.
pub record IsValid {W : Type 0} (vm : Vm W) : Type 0 where
  pub sp : vm.sp ≤ stack_size
  pub bytes : (a : ℕ) → vm.memory a < 2 ^ 8

store_list-bytes :
    (m : Memory) (a : ℕ) (vs : List ℕ)
    → AllBytes vs
    → ((b : ℕ) → m b < 2 ^ 8)
    → (b : ℕ) → store_list m a vs b < 2 ^ 8
unfolding store_list store
store_list-bytes m a [] all h b = h b
store_list-bytes m a (v ∷ vs) (v_byte, all) h b =
    store_list-bytes (store m a v) (a + 1) vs all (λ b'. ground (arith, h b')) b

IsValid-Closed : {W : Type 0} → Closed (IsValid {W = W})
IsValid-Closed = record {
  world = λ vm w v. record { sp = v.sp; bytes = v.bytes };
  memory = λ vm a bytes all fits v. record {
    sp = v.sp;
    bytes = store_list-bytes vm.memory a bytes all v.bytes;
  };
  halt = λ vm v. record { sp = v.sp; bytes = v.bytes };
}

module _ {W : Type 0} where
  -- A fetch moves the program counter alone.
  abbrev Moved : Vm W → ℕ → Vm W → Type 0
  Moved vm v u = (u.sp ≡ vm.sp) × ((a : ℕ) → u.memory a ≡ vm.memory a)

  next-Moved : (vm : Vm W) → Ensures (Moved vm) (next vm)
  unfolding next
  next-Moved vm = elim (Bool-cases (ltb vm.pc memory_size)) [
    | inl here ↦ simp here (on_done (refl, λ a. refl))
    | inr past ↦ simp past on_fault
  ]

  fetch64-Moved : (vm : Vm W) → Ensures (Moved vm) (fetch64 vm)
  unfolding fetch64
  fetch64-Moved vm = elim (Bool-cases (leb memory_size (wrap64 (vm.pc + 8)))) [
    | inl out ↦ simp out on_exits
    | inr guarded ↦ elim (Bool-cases (ltb (vm.pc + 7) memory_size)) [
      | inl here ↦ simp (guarded, here) (on_done (refl, λ a. refl))
      | inr past ↦ simp (guarded, past) on_fault
    ]
  ]

  fetch_operand-Moved : (type : ℕ) (vm : Vm W) → Ensures (Moved vm) (fetch_operand type vm)
  unfolding fetch_operand
  fetch_operand-Moved type vm = elim (Bool-cases (type == opr_reg)) [
    | inl one ↦ simp one (Ensures-and_then (next-Moved vm) λ n u m. simp (reg_op-ltb n) (on_done m))
    | inr other ↦ elim (Bool-cases (type == opr_imm)) [
      | inl eight ↦ simp (other, eight) (fetch64-Moved vm)
      | inr wrong ↦ simp (other, wrong) (on_done (refl, λ a. refl))
    ]
  ]

  Moved-IsValid :
      (vm u : Vm W) → IsValid vm → (u.sp ≡ vm.sp) × ((a : ℕ) → u.memory a ≡ vm.memory a) → IsValid u
  Moved-IsValid vm u v (sp, memory) = record {
    sp = omega (arith, sp, v.sp);
    bytes = λ a. omega (arith, memory a, v.bytes a);
  }

  -- A run leaves a valid machine.
  abbrev Valid : {A : Type 0} → Run (Vm W) A → Type 0
  Valid r = Ensures (λ a u. IsValid u) r

  -- SYS, or an instruction at the last 11 bytes of memory or past them.
  abbrev pub MayFault : Vm W → Type 0
  MayFault vm = (memory_size ≤ vm.pc + 11) ⊎ (vm.memory vm.pc ≡ inst_sys)

  exec_push-Valid : (op : ℕ) (vm : Vm W) → IsValid vm → Valid (exec_push op vm)
  unfolding exec_push
  exec_push-Valid op vm v = elim (Bool-cases (leb stack_size vm.sp)) [
    | inl full ↦ simp full (on_done v)
    | inr room ↦ simp room (
        Ensures-and_then (fetch_operand-Moved op vm) λ n u m.
          simp (m.0, room)
            (on_done
              (record { sp = ground (arith, v.sp); bytes = (Moved-IsValid vm u v m).bytes })))
  ]

  exec_pop-Valid : (vm : Vm W) → IsValid vm → Valid (exec_pop vm)
  unfolding exec_pop
  exec_pop-Valid vm v = elim (Bool-cases (vm.sp == 0)) [
    | inl empty ↦ simp empty (on_done v)
    | inr some_left ↦ elim (Bool-cases (leb stack_size (vm.sp - 1))) [
      | inl past ↦ simp (some_left, past) on_fault
      | inr here ↦
          simp (some_left, here)
            (Ensures-and_then (next-Moved vm) λ n u m. simp (reg_op-ltb n) (
              on_done
                (record { sp = omega (arith, m.0, v.sp); bytes = (Moved-IsValid vm u v m).bytes })))
    ]
  ]

  exec_add-Valid : (op : ℕ) (vm : Vm W) → IsValid vm → Valid (exec_add op vm)
  unfolding exec_add
  exec_add-Valid op vm v = Ensures-and_then (next-Moved vm) λ n u m.
      Ensures-and_then (fetch_operand-Moved op u) λ src t m'.
        let w = Moved-IsValid u t (Moved-IsValid vm u v m) m' in
        simp (reg_op-ltb n) (on_done (record { sp = w.sp; bytes = w.bytes }))

  exec_jmp-Valid : (op : ℕ) (vm : Vm W) → IsValid vm → Valid (exec_jmp op vm)
  unfolding exec_jmp
  exec_jmp-Valid op vm v = Ensures-and_then (fetch_operand-Moved op vm) λ target u m.
      let w = Moved-IsValid vm u v m in on_done (record { sp = w.sp; bytes = w.bytes })

module _ {W : Type 0} (host : Host W) where
  exec_print-Valid : (op : ℕ) (vm : Vm W) → IsValid vm → Valid (exec_print host op vm)
  unfolding exec_print
  exec_print-Valid op vm v =
      Ensures-and_then (fetch_operand-Moved op vm)
        λ n u m. let w = Moved-IsValid vm u v m in on_done (record { sp = w.sp; bytes = w.bytes })

  back-Valid : (r : Run (Call W) ℕ) → Ensures (InVm IsValid) r → Valid (back r)
  back-Valid (done n c) (on_done v) = on_done (record { sp = v.sp; bytes = v.bytes })
  back-Valid (exits e c) h = on_exits
  back-Valid fault h = on_fault

  module _ (promises : IsHost host) where
    syscalls_exec-Valid :
        (n : ℕ) (c : Call W) → IsValid c.vm → Ensures (InVm IsValid) (syscalls_exec host n c)
    unfolding syscalls_exec
    syscalls_exec-Valid n c v =
        Ensures-and_then (dispatch-Keeps IsValid host promises IsValid-Closed n _ v)
          λ r c' v'. on_done (record { sp = v'.sp; bytes = v'.bytes })

    exec_sys-Valid : (vm : Vm W) → IsValid vm → Valid (exec_sys host vm)
    unfolding exec_sys
    exec_sys-Valid vm v = elim (Option-cases vm.syscall_ctx) [
      | inl absent ↦ simp absent (on_done (record { sp = v.sp; bytes = v.bytes }))
      | inr (ctx, here) ↦ simp here (back-Valid _ (syscalls_exec-Valid _ _ v))
    ]

    abbrev StaysValid : Cmd (Vm W) Err → Type 0
    StaysValid m = (vm : Vm W) → IsValid vm → Valid (m vm)

    if-StaysValid :
        (b : Bool) {x y : Cmd (Vm W) Err}
        → StaysValid x
        → StaysValid y
        → StaysValid (if b then x else y)
    if-StaysValid true hx hy = hx
    if-StaysValid false hx hy = hy

    exec_op-Valid : (op op1 op2 : ℕ) → StaysValid (exec_op host op op1 op2)
    unfolding exec_op exec_halt
    exec_op-Valid op op1 op2 =
        if-StaysValid (op == inst_halt) (λ vm v. on_done (record { sp = v.sp; bytes = v.bytes }))
          (if-StaysValid (op == inst_push) (exec_push-Valid op1) (
            if-StaysValid (op == inst_pop) exec_pop-Valid (
              if-StaysValid (op == inst_add) (exec_add-Valid op2) (
                if-StaysValid (op == inst_jmp) (exec_jmp-Valid op1) (
                  if-StaysValid (op == inst_print) (exec_print-Valid op1)
                    (if-StaysValid (op == inst_sys) exec_sys-Valid (λ vm v. on_done v)))))))

    execute_inst-Valid : (vm : Vm W) → IsValid vm → Valid (execute_inst host vm)
    unfolding execute_inst
    execute_inst-Valid vm v = elim (Bool-cases (leb memory_size vm.pc)) [
      | inl past ↦ simp past (on_done v)
      | inr here ↦ simp here (
          Ensures-and_then (next-Moved vm) λ op u m. Ensures-and_then (next-Moved u) λ desc t m'.
            exec_op-Valid op (desc_get_op1 desc) (desc_get_op2 desc) t
              (Moved-IsValid u t (Moved-IsValid vm u v m) m'))
    ]

    faults-MayFault : (vm : Vm W) → IsValid vm → (execute_inst host vm ≢ fault) ⊎ MayFault vm
    faults-MayFault vm v = elim (Bool-cases (leb memory_size (vm.pc + 11))) [
      | inl late ↦ inr (inl (ground arith))
      | inr early ↦ elim (Bool-cases (vm.memory vm.pc == inst_sys)) [
        | inl sys ↦ inr (inr (ground arith))
        | inr other ↦
            let (e, u, ends) = execute_inst-done host vm (ground arith) v.sp (λ q. ground arith) in
            inl (λ q. cc)
      ]
    ]

    -- On a host that stores bytes, every instruction that ends, with or without an error, leaves the
    -- stack pointer in the array and bytes in the memory, where it found them so; and no instruction faults
    -- but SYS and one that starts at the last 11 bytes of memory or past them.
    pub execute_inst-IsValid :
        (vm : Vm W)
        → IsValid vm
        → Ensures (λ e u. IsValid u) (execute_inst host vm)
          × ((execute_inst host vm ≢ fault) ⊎ MayFault vm)
    execute_inst-IsValid vm v = (execute_inst-Valid vm v, faults-MayFault vm v)

    -- On a host that stores bytes, a run of any number of instructions without an error leaves the
    -- stack pointer in the array and bytes in the memory, where it found them so.
    pub Steps-IsValid : {k : ℕ} {vm u : Vm W} → Steps host k vm u → IsValid vm → IsValid u
    Steps-IsValid stop v = v
    Steps-IsValid (step {vm} runs e s) v =
        Steps-IsValid s (Ensures-done (subst Valid e (execute_inst-Valid vm v)))
