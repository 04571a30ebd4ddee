-- ===== src/Vm/Safe.antt =====
-- pm/vm.c, pocol_execute_inst: no instruction leaves the arrays of the machine while it has room.
use pocol_vm.Prelude.{
  ◌-◌, ℕ, ◌+◌, ◌≤◌, ◌<◌, ◌≡◌, ◌≢◌, refl, sym, ◌∙◌, Bool, true, false, arith, Bool-cases, inl, inr,
  leb, ◌==◌, if◌then◌else◌, wrap64, lt→ltb, lt→leb_false,
}
use pocol_vm.Machine.{memory_size, stack_size, desc_get_op1, desc_get_op2}
use pocol_vm.Machine.Codec.{reg_op-ltb}
use pocol_vm.Host.{Host}
use pocol_vm.State.{Err, Vm, Run, done, Cmd, and_then}
use pocol_vm.Vm.{
  opr_reg, opr_imm, inst_halt, inst_push, inst_pop, inst_add, inst_jmp, inst_print, inst_sys, next,
  fetch64, fetch_operand, exec_halt, exec_push, exec_pop, exec_add, exec_jmp, exec_print, exec_op,
  execute_inst,
}

-- A run that ends with a value that satisfies `P`.
data Returns {S A : Type 0} (P : A → S → Type 0) : Run S A → Type 0 where
  returns : {a : A} {s : S} → P a s → Returns P (done a s)

Returns-and_then :
    {S A B : Type 0} {P : A → S → Type 0} {Q : B → S → Type 0} {r : Run S A} {k : A → S → Run S B}
    → Returns P r
    → ((a : A) (s : S) → P a s → Returns Q (k a s))
    → Returns Q (and_then r k)
Returns-and_then (returns p) k = k _ _ p

Returns-done :
    {S A : Type 0} {P : A → S → Type 0} {r : Run S A}
    → Returns P r
    → (a : A) × (s : S) × (r ≡ done a s)
Returns-done (returns {a} {s} p) = (a, s, refl)

-- The top of a stack that is not empty is in the array.
top-inside : (sp : ℕ) → sp ≤ stack_size → (sp == 0) ≡ false → leb stack_size (sp - 1) ≡ false
top-inside sp h some_left = ground arith

module _ {W : Type 0} where
  -- A fetch of at most `n` bytes.
  abbrev Fetched : ℕ → Vm W → ℕ → Vm W → Type 0
  Fetched n vm v u = (u.pc ≤ vm.pc + n) × (u.sp ≡ vm.sp)

  next-Returns :
      (vm : Vm W)
      → vm.pc < memory_size
      → Returns (λ v u. (u.pc ≤ vm.pc + 1) × (u.sp ≡ vm.sp) × (v ≡ vm.memory vm.pc)) (next vm)
  unfolding next
  next-Returns vm h = simp (lt→ltb vm.pc memory_size h) (returns (omega arith, refl, refl))

  fetch64-Returns : (vm : Vm W) → vm.pc + 8 < memory_size → Returns (Fetched 8 vm) (fetch64 vm)
  unfolding fetch64
  fetch64-Returns vm h =
      simp (guard, lt→ltb (vm.pc + 7) memory_size (omega arith)) (returns (omega arith, refl))
    where
      guard : leb memory_size (wrap64 (vm.pc + 8)) ≡ false
      guard = ground arith

  fetch_operand-Returns :
      (type : ℕ) (vm : Vm W)
      → vm.pc + 8 < memory_size
      → Returns (Fetched 8 vm) (fetch_operand type vm)
  unfolding fetch_operand
  fetch_operand-Returns type vm h = elim (Bool-cases (type == opr_reg)) [
    | inl one ↦ simp one (
        Returns-and_then (next-Returns vm (omega arith))
          λ n u m. simp (reg_op-ltb n) (returns (omega (arith, m.0), m.1)))
    | inr other ↦ elim (Bool-cases (type == opr_imm)) [
      | inl eight ↦ simp (other, eight) (fetch64-Returns vm h)
      | inr wrong ↦ simp (other, wrong) (returns (omega arith, refl))
    ]
  ]

  -- A run ends with a value.
  abbrev Ends : Run (Vm W) Err → Type 0
  Ends r = Returns (λ e u. Unit) r

  -- A machine with room for the operands of an instruction, whose stack pointer is in the array.
  abbrev Room : Vm W → Type 0
  Room vm = (vm.pc + 9 < memory_size) × (vm.sp ≤ stack_size)

  abbrev EndsIn : Cmd (Vm W) Err → Type 0
  EndsIn m = (vm : Vm W) → Room vm → Ends (m vm)

  if-EndsIn :
      (b : Bool) {x y : Cmd (Vm W) Err}
      → (b ≡ true → EndsIn x)
      → (b ≡ false → EndsIn y)
      → EndsIn (if b then x else y)
  if-EndsIn true hx hy = hx refl
  if-EndsIn false hx hy = hy refl

  exec_push-EndsIn : (op : ℕ) → EndsIn (exec_push op)
  unfolding exec_push
  exec_push-EndsIn op vm (pc, sp) = elim (Bool-cases (leb stack_size vm.sp)) [
    | inl full ↦ simp full (returns tt)
    | inr room ↦ simp room (
        Returns-and_then (fetch_operand-Returns op vm (omega arith))
          λ n u m. simp (m.1, room) (returns tt))
  ]

  exec_pop-EndsIn : EndsIn exec_pop
  unfolding exec_pop
  exec_pop-EndsIn vm (pc, sp) = elim (Bool-cases (vm.sp == 0)) [
    | inl empty ↦ simp empty (returns tt)
    | inr some_left ↦
        simp (some_left, top-inside vm.sp sp some_left)
          (Returns-and_then (next-Returns vm (omega arith))
            λ n u m. simp (reg_op-ltb n) (returns tt))
  ]

  exec_add-EndsIn : (op : ℕ) → EndsIn (exec_add op)
  unfolding exec_add
  exec_add-EndsIn op vm (pc, sp) = Returns-and_then (next-Returns vm (omega arith)) λ n u m.
      Returns-and_then (fetch_operand-Returns op u (omega (arith, m.0)))
        λ src t m'. simp (reg_op-ltb n) (returns tt)

  exec_jmp-EndsIn : (op : ℕ) → EndsIn (exec_jmp op)
  unfolding exec_jmp
  exec_jmp-EndsIn op vm (pc, sp) =
      Returns-and_then (fetch_operand-Returns op vm (omega arith)) λ target u m. returns tt

module _ {W : Type 0} (host : Host W) where
  exec_print-EndsIn : (op : ℕ) → EndsIn (exec_print host op)
  unfolding exec_print
  exec_print-EndsIn op vm (pc, sp) =
      Returns-and_then (fetch_operand-Returns op vm (omega arith)) λ n u m. returns tt

  exec_op-EndsIn : (op op1 op2 : ℕ) → op ≢ inst_sys → EndsIn (exec_op host op op1 op2)
  unfolding exec_op exec_halt
  exec_op-EndsIn op op1 op2 ne =
      if-EndsIn (op == inst_halt) (λ _ vm r. returns tt)
        λ _.
          if-EndsIn (op == inst_push) (λ _. exec_push-EndsIn op1)
            λ _.
              if-EndsIn (op == inst_pop) (λ _. exec_pop-EndsIn)
                λ _.
                  if-EndsIn (op == inst_add) (λ _. exec_add-EndsIn op2)
                    λ _.
                      if-EndsIn (op == inst_jmp) (λ _. exec_jmp-EndsIn op1)
                        λ _.
                          if-EndsIn (op == inst_print) (λ _. exec_print-EndsIn op1)
                            λ _.
                              if-EndsIn (op == inst_sys) (λ e. absurd (ne (ground arith)))
                                λ _ vm r. returns tt

  -- Where the longest instruction fits before the last byte of memory and the stack pointer is in the
  -- array, an instruction other than SYS, well formed or not, ends with a value: it reads and writes
  -- no byte outside the machine's arrays and does not exit.
  pub execute_inst-done :
      (vm : Vm W)
      → vm.pc + 11 < memory_size
      → vm.sp ≤ stack_size
      → vm.memory vm.pc ≢ inst_sys
      → (e : Err) × (u : Vm W) × (execute_inst host vm ≡ done e u)
  unfolding execute_inst
  execute_inst-done vm room sp ne = Returns-done {P = λ e u. Unit} (
      simp (lt→leb_false memory_size vm.pc (omega arith)) (
        Returns-and_then (next-Returns vm (omega arith)) λ op u m.
          Returns-and_then (next-Returns u (omega (arith, m.0))) λ desc t m'.
            exec_op-EndsIn op (desc_get_op1 desc) (desc_get_op2 desc) (λ q. ne (sym m.2 ∙ q)) t
              (omega (arith, m.0, m'.0), omega (arith, m.1, m'.1))))
