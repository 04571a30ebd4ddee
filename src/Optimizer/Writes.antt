-- ===== src/Optimizer/Writes.antt =====
-- pm/optimizer.c: what a write of an instruction leaves alone.
use pocol_vm.Prelude.{
  ℕ, ◌+◌, ◌<◌, ◌≡◌, refl, ◌∙◌, ◌⊎◌, inl, inr, Option, none, some, List, [], ◌∷◌, arith, length,
  Bool-cases, ltb,
}
use pocol_vm.Machine.{Memory, memory_size, store}
use pocol_vm.Machine.Stores.{store_list-outside}
use pocol_vm.State.{
  Err, err_ok, illegal_inst, illegal_inst_access, stack_overflow, stack_underflow, done, Cmd,
  Ensures, on_done, on_fault, Ensures-and_then,
}
use pocol_vm.Optimizer.{AnalyzedInst, write_operand, and_ok, write_instruction, write_all}

-- The byte at `a` is `b`, and after a success the next write is behind `a`.
abbrev pub Behind : (a b : ℕ) → Err × ℕ → Memory → Type 0
Behind a b r m = (m a ≡ b) × (r.0 ≡ err_ok → a < r.1)

module _ (a b : ℕ) where
  pub write_operand-Behind :
      (o : Option (List ℕ)) (w : ℕ) (m : Memory)
      → a < w
      → m a ≡ b
      → Ensures (Behind a b) (write_operand o w m)
  unfolding write_operand
  write_operand-Behind none w m h e = on_fault
  write_operand-Behind (some bs) w m h e = elim (Bool-cases (ltb 0 (length bs))) [
    | inr empty ↦ rw empty (on_done (e, λ _. h))
    | inl full ↦ elim (Bool-cases (ltb memory_size (w + length bs))) [
      | inl past ↦ rw (full, past) (on_done (e, λ q. cc))
      | inr fits ↦
          rw (full, fits) (on_done (store_list-outside m w bs a (inl h) ∙ e, λ _. omega arith))
    ]
  ]

  -- What runs on behind a write, or does not after an error.
  pub on_ok-Behind :
      (k : ℕ → Cmd Memory (Err × ℕ)) (r : Err × ℕ) (m : Memory)
      → ((w : ℕ) (m' : Memory) → a < w → m' a ≡ b → Ensures (Behind a b) (k w m'))
      → Behind a b r m
      → Ensures (Behind a b) (elim r.0 [ err_ok ↦ k r.1 m | _ ↦ done r m ])
  on_ok-Behind k (err_ok, w) m next (e, l) = next w m (l refl) e
  on_ok-Behind k (illegal_inst, w) m next s = on_done s
  on_ok-Behind k (illegal_inst_access, w) m next s = on_done s
  on_ok-Behind k (stack_overflow, w) m next s = on_done s
  on_ok-Behind k (stack_underflow, w) m next s = on_done s

  pub and_ok-Behind :
      (c : Cmd Memory (Err × ℕ)) (k : ℕ → Cmd Memory (Err × ℕ)) (m : Memory)
      → Ensures (Behind a b) (c m)
      → ((w : ℕ) (m' : Memory) → a < w → m' a ≡ b → Ensures (Behind a b) (k w m'))
      → Ensures (Behind a b) (and_ok c k m)
  and_ok-Behind c k m h next = Ensures-and_then h λ r m' s. on_ok-Behind k r m' next s

  -- An instruction that is written behind `a`, or at `a` with the opcode `b`.
  pub write_instruction-Behind :
      (inst : AnalyzedInst) (w : ℕ) (m : Memory)
      → (a < w) ⊎ ((a ≡ w) × (inst.type ≡ b))
      → m a ≡ b
      → Ensures (Behind a b) (write_instruction inst w m)
  unfolding write_instruction store
  write_instruction-Behind inst w m h e = elim (Bool-cases (ltb memory_size (w + 2))) [
    | inl past ↦ rw past (on_done (e, λ q. cc))
    | inr fits ↦ rw fits (
        and_ok-Behind (write_operand inst.operand1 (w + 2)) (write_operand inst.operand2)
          (store (store m w inst.type) (w + 1) inst.desc)
          (write_operand-Behind inst.operand1 (w + 2)
            (store (store m w inst.type) (w + 1) inst.desc) (omega arith) (ground arith))
          (write_operand-Behind inst.operand2))
  ]

-- A list of instructions read at the program counter, written from `w` on.
pub write_all-Behind :
    (a b : ℕ) (is : List AnalyzedInst) (w : ℕ) (m : Memory)
    → a < w
    → m a ≡ b
    → Ensures (Behind a b) (write_all is w m)
unfolding write_all
write_all-Behind a b [] w m h e = on_done (e, λ _. h)
write_all-Behind a b (i ∷ is) w m h e =
    and_ok-Behind a b (write_instruction i w) (write_all is) m
      (write_instruction-Behind a b i w m (inl h) e)
      λ w' m' h' e'. write_all-Behind a b is w' m' h' e'
