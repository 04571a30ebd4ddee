-- ===== src/Jit/Bounds.antt =====
-- pm/jit.c: a compiled block stays in the code buffer, and its compilation comes to an end.
use pocol_vm.Prelude.{
  ℕ, zero, suc, ◌+◌, ◌≤◌, ◌<◌, ◌≡◌, inl, inr, refl, Bool, true, false, Option, some, List, arith,
  leb, ltb, ◌==◌, if◌then◌else◌, length, length-append, Bool-cases, tests, lt→leb_false,
}
use pocol_vm.Machine.{Memory, memory_size, desc_get_op1, desc_get_op2}
use pocol_vm.State.{
  Err, err_ok, illegal_inst, illegal_inst_access, stack_overflow, stack_underflow, Run, done, exits,
  fault, Ensures, on_done, on_exits, on_fault, Ensures-and_then,
}
use pocol_vm.Vm.{opr_reg, opr_imm, inst_halt, inst_push, inst_pop, inst_add, inst_jmp, inst_print}
use pocol_vm.Jit.Emit.{rcx, rdx, rdi}
use pocol_vm.Jit.Compile.{
  Layout, Code, emit, next_byte, next_imm, load_operand, compile_halt, compile_push, compile_pop,
  compile_add, compile_jmp, compile_print, compile_op, compile_fetched, compile_instruction,
  after_instruction, compile_loop,
}

leb_false→lt : (a b : ℕ) → leb a b ≡ false → b < a
leb_false→lt a b h = ground arith

module _ (layout : Layout) (m : Memory) (start room n : ℕ) where
  -- The compiler has come to the address `n`, and its code fits.
  abbrev pub Reached : Code → Type 0
  Reached c = (n ≤ c.pc) × (length c.bytes ≤ room)

  abbrev pub Keeps : {A : Type 0} → Run Code A → Type 0
  Keeps r = Ensures (λ _ c. Reached c) r

  pub emit-Keeps : (bs : List ℕ) (c : Code) → Reached c → Keeps (emit layout m start room bs c)
  unfolding emit
  emit-Keeps bs c p = elim (Bool-cases (leb (length c.bytes + length bs) room)) [
    | inl fits ↦ simp fits (on_done (p.0, omega (tests, length-append c.bytes bs, fits)))
    | inr full ↦ simp full on_fault
  ]

  next_byte-Keeps : (c : Code) → Reached c → Keeps (next_byte layout m start room c)
  unfolding next_byte
  next_byte-Keeps c p = elim (Bool-cases (ltb c.pc memory_size)) [
    | inl inside ↦ simp inside (on_done (omega (tests, inside, p.0), p.1))
    | inr outside ↦ simp outside on_fault
  ]

  next_imm-Keeps : (c : Code) → Reached c → Keeps (next_imm layout m start room c)
  unfolding next_imm
  next_imm-Keeps c p = elim (Bool-cases (ltb (c.pc + 7) memory_size)) [
    | inl inside ↦ simp inside (on_done (omega (tests, inside, p.0), p.1))
    | inr outside ↦ simp outside on_fault
  ]

  load_operand-Keeps :
      (dst type : ℕ) (c : Code) → Reached c → Keeps (load_operand layout m start room dst type c)
  unfolding load_operand
  load_operand-Keeps dst type c p = elim (Bool-cases (type == opr_reg)) [
    | inl register ↦
        simp register (Ensures-and_then (next_byte-Keeps c p) λ b c p. emit-Keeps _ c p)
    | inr other ↦ elim (Bool-cases (type == opr_imm)) [
      | inl immediate ↦
          simp (other, immediate) (Ensures-and_then (next_imm-Keeps c p) λ b c p. emit-Keeps _ c p)
      | inr none_of_these ↦ simp (other, none_of_these) (on_done p)
    ]
  ]

  compile_halt-Keeps : (c : Code) → Reached c → Keeps (compile_halt layout m start room c)
  unfolding compile_halt
  compile_halt-Keeps c p =
      Ensures-and_then (emit-Keeps _ c p)
        λ _ c p. Ensures-and_then (emit-Keeps _ c p) λ _ c p. on_done p

  compile_push-Keeps :
      (op1 : ℕ) (c : Code) → Reached c → Keeps (compile_push layout m start room op1 c)
  unfolding compile_push
  compile_push-Keeps op1 c p = Ensures-and_then (load_operand-Keeps rdx op1 c p) λ _ c p.
      Ensures-and_then (emit-Keeps _ c p) λ _ c p. Ensures-and_then (emit-Keeps _ c p) λ _ c p.
        Ensures-and_then (emit-Keeps _ c p) λ _ c p. Ensures-and_then (emit-Keeps _ c p) λ _ c p.
          Ensures-and_then (emit-Keeps _ c p) λ _ c p. Ensures-and_then (emit-Keeps _ c p) λ _ c p.
            Ensures-and_then (emit-Keeps _ c p) λ _ c p.
              Ensures-and_then (emit-Keeps _ c p)
                λ _ c p. Ensures-and_then (emit-Keeps _ c p) λ _ c p. on_done p

  compile_pop-Keeps : (c : Code) → Reached c → Keeps (compile_pop layout m start room c)
  unfolding compile_pop
  compile_pop-Keeps c p = Ensures-and_then (next_byte-Keeps c p) λ b c p.
      Ensures-and_then (emit-Keeps _ c p) λ _ c p. Ensures-and_then (emit-Keeps _ c p) λ _ c p.
        Ensures-and_then (emit-Keeps _ c p) λ _ c p. Ensures-and_then (emit-Keeps _ c p) λ _ c p.
          Ensures-and_then (emit-Keeps _ c p) λ _ c p.
            Ensures-and_then (emit-Keeps _ c p)
              λ _ c p. Ensures-and_then (emit-Keeps _ c p) λ _ c p. on_done p

  compile_add-Keeps :
      (op2 : ℕ) (c : Code) → Reached c → Keeps (compile_add layout m start room op2 c)
  unfolding compile_add
  compile_add-Keeps op2 c p = Ensures-and_then (next_byte-Keeps c p) λ b c p.
      Ensures-and_then (emit-Keeps _ c p) λ _ c p.
        Ensures-and_then (load_operand-Keeps rcx op2 c p) λ _ c p.
          Ensures-and_then (emit-Keeps _ c p)
            λ _ c p. Ensures-and_then (emit-Keeps _ c p) λ _ c p. on_done p

  compile_jmp-Keeps :
      (op1 : ℕ) (c : Code) → Reached c → Keeps (compile_jmp layout m start room op1 c)
  unfolding compile_jmp
  compile_jmp-Keeps op1 c p = elim (Bool-cases (op1 == opr_imm)) [
    | inl immediate ↦ simp immediate (
        Ensures-and_then (next_imm-Keeps c p) λ b c p.
          Ensures-and_then (emit-Keeps _ c p)
            λ _ c p. Ensures-and_then (emit-Keeps _ c p) λ _ c p. on_done p)
    | inr other ↦ simp other (on_done p)
  ]

  compile_print-Keeps :
      (op1 : ℕ) (c : Code) → Reached c → Keeps (compile_print layout m start room op1 c)
  unfolding compile_print
  compile_print-Keeps op1 c p = Ensures-and_then (load_operand-Keeps rdi op1 c p) λ _ c p.
      Ensures-and_then (emit-Keeps _ c p)
        λ _ c p. Ensures-and_then (emit-Keeps _ c p) λ _ c p. on_done p

  Keeps-if :
      (b : Bool) (x y : Code → Run Code Err) (c : Code)
      → Keeps (x c)
      → Keeps (y c)
      → Keeps ((if b then x else y) c)
  Keeps-if true x y c p q = p
  Keeps-if false x y c p q = q

  compile_op-Keeps :
      (op op1 op2 : ℕ) (c : Code) → Reached c → Keeps (compile_op layout m start room op op1 op2 c)
  unfolding compile_op
  compile_op-Keeps op op1 op2 c p = Keeps-if (op == inst_halt) _ _ c (compile_halt-Keeps c p) (
      Keeps-if (op == inst_push) _ _ c (compile_push-Keeps op1 c p) (
        Keeps-if (op == inst_pop) _ _ c (compile_pop-Keeps c p) (
          Keeps-if (op == inst_add) _ _ c (compile_add-Keeps op2 c p) (
            Keeps-if (op == inst_jmp) _ _ c (compile_jmp-Keeps op1 c p)
              (Keeps-if (op == inst_print) _ _ c (compile_print-Keeps op1 c p) (on_done p))))))

module _ (layout : Layout) (m : Memory) (start room : ℕ) where
  -- An opcode that is read moves the compiler on.
  next_byte-further :
      (c : Code)
      → length c.bytes ≤ room
      → Keeps layout m start room (c.pc + 1) (next_byte layout m start room c)
  unfolding next_byte
  next_byte-further c fits = elim (Bool-cases (ltb c.pc memory_size)) [
    | inl inside ↦ simp inside (on_done (omega (tests, inside), fits))
    | inr outside ↦ simp outside on_fault
  ]

  -- An instruction is compiled to code that stays in the buffer, and the compiler moves on, if it is
  -- not at the end of memory already, which is an error.
  pub compile_instruction-Keeps :
      (c : Code)
      → length c.bytes ≤ room
      → c.pc < memory_size
      → Keeps layout m start room (c.pc + 1) (compile_instruction layout m start room c)
  unfolding compile_instruction compile_fetched
  compile_instruction-Keeps c fits inside = simp (lt→leb_false memory_size c.pc inside) (
      Ensures-and_then (next_byte-further c fits) λ op c₁ p₁.
        Ensures-and_then (next_byte-Keeps layout m start room (c.pc + 1) c₁ p₁) λ desc c₂ p₂.
          compile_op-Keeps layout m start room (c.pc + 1) op (desc_get_op1 desc) (desc_get_op2 desc)
            c₂ p₂)

  -- What the loop gives: an outcome, and code in the buffer, where the end of the block is no
  -- earlier than its start.
  abbrev pub LoopEnds : ℕ → Option (Run Code (Err × ℕ)) → Type 0
  LoopEnds first o =
      (r : Run Code (Err × ℕ)) × ((o ≡ some r)
        × Ensures (λ v c. (first ≤ v.1) × (length c.bytes ≤ room)) r)

  after_instruction-LoopEnds :
      (op end_pc first n : ℕ) (again : ℕ → Code → Option (Run Code (Err × ℕ))) (r : Run Code Err)
      → first ≤ end_pc
      → first ≤ n
      → Keeps layout m start room n r
      → ((c : Code) → n ≤ c.pc → length c.bytes ≤ room → LoopEnds first (again c.pc c))
      → LoopEnds first (after_instruction layout m start room op end_pc again r)
  after_instruction-LoopEnds op end_pc first n again (done err_ok c) e h (on_done p) next =
      elim (Bool-cases (op == inst_jmp)) [
        | inl jumps ↦ simp jumps (_, (refl, on_done (omega (arith, p.0), p.1)))
        | inr goes ↦ simp goes (next c p.0 p.1)
      ]
  after_instruction-LoopEnds op end_pc first n again (done illegal_inst c) e h (on_done p) next =
      (_, (refl, on_done (e, p.1)))
  after_instruction-LoopEnds op end_pc first n again (done illegal_inst_access c) e h (on_done p)
        next =
      (_, (refl, on_done (e, p.1)))
  after_instruction-LoopEnds op end_pc first n again (done stack_overflow c) e h (on_done p) next =
      (_, (refl, on_done (e, p.1)))
  after_instruction-LoopEnds op end_pc first n again (done stack_underflow c) e h (on_done p) next =
      (_, (refl, on_done (e, p.1)))
  after_instruction-LoopEnds op end_pc first n again (exits k c) e h p next = (_, (refl, on_exits))
  after_instruction-LoopEnds op end_pc first n again fault e h p next = (_, (refl, on_fault))

  pub compile_loop-LoopEnds :
      (f first end_pc : ℕ) (c : Code)
      → first ≤ end_pc
      → first ≤ c.pc
      → length c.bytes ≤ room
      → memory_size < c.pc + f
      → 0 < f
      → LoopEnds first (compile_loop layout m start room f end_pc c)
  unfolding compile_loop
  compile_loop-LoopEnds zero first end_pc c e p fits fuel some_fuel = absurd (omega arith)
  compile_loop-LoopEnds (suc f) first end_pc c e p fits fuel some_fuel =
      elim (Bool-cases (leb memory_size c.pc)) [
        | inl out ↦ simp out (_, (refl, on_done (e, fits)))
        | inr inside ↦ elim (Bool-cases (m c.pc == inst_halt)) [
          | inl halts ↦ simp (inside, halts) (_, (refl, on_done (p, fits)))
          | inr goes ↦
              simp (inside, goes)
                (let below = leb_false→lt memory_size c.pc inside in
                  after_instruction-LoopEnds (m c.pc) end_pc first (c.pc + 1)
                    (compile_loop layout m start room f) (compile_instruction layout m start room c)
                    e (omega arith) (compile_instruction-Keeps c fits below)
                    (λ c' p' fits'.
                      compile_loop-LoopEnds f first c'.pc c' (omega arith) (omega arith) fits'
                        (omega arith) (omega arith)))
        ]
      ]
