-- ===== src/Optimizer/Diverge.antt =====
-- pm/optimizer.c: the dead code and the peephole pass never get past their first instruction.
-- `read_instruction` leaves the field `pc` at the opcode, and the passes go on from that field.
use pocol_vm.Prelude.{
  ℕ, zero, suc, ◌+◌, ◌<◌, ◌≡◌, ◌≢◌, refl, sym, ◌∙◌, ◌⊎◌, inl, inr, Bool, true, false, Option, some,
  List, [], ◌∷◌, arith, Bool-cases, leb, if◌then◌else◌,
}
use pocol_vm.Machine.{Memory, memory_size, desc_get_op1, desc_get_op2}
use pocol_vm.State.{
  Err, err_ok, illegal_inst, illegal_inst_access, stack_overflow, stack_underflow, Run, done,
  Ensures, on_done, on_exits, on_fault,
}
use pocol_vm.Vm.{inst_halt}
use pocol_vm.Optimizer.{
  AnalyzedInst, Read, read, read_error, read_operand, read_operands, read_instruction, read_then,
  on_read, second, write_instruction, in_code, written, adds_zero, dead_loop, peephole_writes,
  write_all, peephole_loop,
}
use pocol_vm.Optimizer.Writes.{Behind, and_ok-Behind, write_instruction-Behind, write_all-Behind}

-- A pass that has not returned ERR_OK.
abbrev pub NotOk : Option (Run Memory Err) → Type 0
NotOk o = (m : Memory) → o ≢ some (done err_ok m)

written-NotOk :
    (a b : ℕ) (again : ℕ → Memory → Option (Run Memory Err)) {r : Run Memory (Err × ℕ)}
    → Ensures (Behind a b) r
    → ((w : ℕ) (m : Memory) → a < w → m a ≡ b → NotOk (again w m))
    → NotOk (written again r)
written-NotOk a b again (on_done {a = (err_ok, w)} {s = m} (e, l)) next = next w m (l refl) e
written-NotOk a b again (on_done {a = (illegal_inst, w)} s) next = λ m q. cc
written-NotOk a b again (on_done {a = (illegal_inst_access, w)} s) next = λ m q. cc
written-NotOk a b again (on_done {a = (stack_overflow, w)} s) next = λ m q. cc
written-NotOk a b again (on_done {a = (stack_underflow, w)} s) next = λ m q. cc
written-NotOk a b again on_exits next = λ m q. cc
written-NotOk a b again on_fault next = λ m q. cc

-- An instruction that was read has its opcode's address and its opcode.
abbrev IsAt : Memory → ℕ → Read AnalyzedInst → Type 0
IsAt m pc (read inst) = (inst.pc ≡ pc) × (inst.type ≡ m pc)
IsAt m pc (read_error e) = (e ≢ err_ok)

abbrev Fails : {A : Type 0} → Read A → Type 0
Fails (read a) = Unit
Fails (read_error e) = e ≢ err_ok

read_operand-Fails : (m : Memory) (op pc : ℕ) → Fails (read_operand m op pc)
unfolding read_operand
read_operand-Fails m op pc = ground arith

read_then-IsAt :
    {A : Type 0} (m : Memory) (pc : ℕ) (r : Read A) (k : A → Read AnalyzedInst)
    → Fails r
    → ((a : A) → IsAt m pc (k a))
    → IsAt m pc (read_then r k)
read_then-IsAt m pc (read a) k h next = next a
read_then-IsAt m pc (read_error e) k h next = h

read_operands-IsAt :
    (m : Memory) (pc type desc : ℕ) → type ≡ m pc → IsAt m pc (read_operands m pc type desc)
unfolding read_operands
read_operands-IsAt m pc type desc e =
    read_then-IsAt m pc (read_operand m (desc_get_op1 desc) (pc + 2)) _ (read_operand-Fails m _ _)
      λ r₁.
        read_then-IsAt m pc (read_operand m (desc_get_op2 desc) r₁.1) _ (read_operand-Fails m _ _)
          λ r₂. (refl, e)

read_instruction-IsAt : (m : Memory) (pc : ℕ) → IsAt m pc (read_instruction m pc)
unfolding read_instruction
read_instruction-IsAt m pc = elim (Bool-cases (leb memory_size pc)) [
  | inl past ↦ rw past (λ q. cc)
  | inr here ↦ elim (Bool-cases (leb memory_size (pc + 1))) [
    | inl past ↦ rw (here, past) (λ q. cc)
    | inr both ↦ rw (here, both) (read_operands-IsAt m pc (m pc) (m (pc + 1)) refl)
  ]
]

-- The start of a round: the program counter is in the code, and not behind the next write.
pub record Round (pc w : ℕ) (m : Memory) : Type 0 where
  pub in_memory : pc < memory_size
  pub running : m pc ≢ inst_halt
  pub order : (pc < w) ⊎ (pc ≡ w)

in_code-true : (pc w : ℕ) (m : Memory) → Round pc w m → in_code m pc ≡ true
in_code-true pc w m r = ground (arith, r.in_memory, r.running)

on_read-NotOk :
    (m : Memory) (pc : ℕ) (r : Read AnalyzedInst) (k : AnalyzedInst → Option (Run Memory Err))
    → IsAt m pc r
    → ((inst : AnalyzedInst) → inst.pc ≡ pc → inst.type ≡ m pc → NotOk (k inst))
    → NotOk (on_read m r k)
on_read-NotOk m pc (read inst) k (p, t) next = next inst p t
on_read-NotOk m pc (read_error e) k ne next = λ m' q. ne (ground arith)

if-NotOk :
    (b : Bool) {x y : Option (Run Memory Err)} → NotOk x → NotOk y → NotOk (if b then x else y)
if-NotOk true hx hy = hx
if-NotOk false hx hy = hy

-- The first write of a round is behind the program counter, or puts its opcode back.
first_write :
    {pc w : ℕ} (m : Memory) (inst : AnalyzedInst)
    → (pc < w) ⊎ (pc ≡ w)
    → inst.type ≡ m pc
    → (pc < w) ⊎ ((pc ≡ w) × (inst.type ≡ m pc))
first_write m inst (inl lt) t = inl lt
first_write m inst (inr eq) t = inr (eq, t)

next-Round : {pc w w' : ℕ} {m m' : Memory} → Round pc w m → pc < w' → m' pc ≡ m pc → Round pc w' m'
next-Round r lt e = record {
  in_memory = r.in_memory;
  running = λ q. r.running (sym e ∙ q);
  order = inl lt;
}

-- Dead code elimination never returns ERR_OK, with any fuel, where the first byte of the code is not
-- HALT: it reads the same instruction again and again.
pub dead_loop-NotOk : (f pc w : ℕ) (m : Memory) → Round pc w m → NotOk (dead_loop f pc w m)
unfolding dead_loop
dead_loop-NotOk zero pc w m r = λ m' q. cc
dead_loop-NotOk (suc f) pc w m r = rw (in_code-true pc w m r) (
    on_read-NotOk m pc (read_instruction m pc) _ (read_instruction-IsAt m pc) λ inst p t. simp p (
      if-NotOk (adds_zero inst) (dead_loop-NotOk f pc w m r) (
        written-NotOk pc (m pc) _
          (write_instruction-Behind pc (m pc) inst w m (first_write m inst r.order t) refl)
          λ w' m' l e. dead_loop-NotOk f pc w' m' (next-Round r l e))))

-- A round of the peephole pass writes nothing, or the first instruction first.
abbrev StartsWith : AnalyzedInst → List AnalyzedInst → Type 0
StartsWith i l = (l ≡ []) ⊎ ((rest : List AnalyzedInst) × (l ≡ i ∷ rest))

pick-StartsWith :
    (i : AnalyzedInst) (x y : List AnalyzedInst) (a b c : Bool)
    → StartsWith i (if a then (if b then [] else i ∷ x) else if c then [] else i ∷ y)
pick-StartsWith i x y true true c = inl refl
pick-StartsWith i x y true false c = inr (x, refl)
pick-StartsWith i x y false b true = inl refl
pick-StartsWith i x y false b false = inr (y, refl)

peephole_writes-StartsWith : (i₁ i₂ : AnalyzedInst) → StartsWith i₁ (peephole_writes i₁ i₂)
unfolding peephole_writes
peephole_writes-StartsWith i₁ i₂ = pick-StartsWith i₁ _ _ _ _ _

write_starts-NotOk :
    (pc w : ℕ) (m : Memory) (i : AnalyzedInst) (l : List AnalyzedInst)
    → StartsWith i l
    → (pc < w) ⊎ (pc ≡ w)
    → i.type ≡ m pc
    → (again : ℕ → Memory → Option (Run Memory Err)) → NotOk (again w m)
    → ((w' : ℕ) (m' : Memory) → pc < w' → m' pc ≡ m pc → NotOk (again w' m'))
    → NotOk (written again (write_all l w m))
unfolding write_all
write_starts-NotOk pc w m i l (inl e) o t again stay next = rw e stay
write_starts-NotOk pc w m i l (inr (rest, e)) o t again stay next = rw e (
    written-NotOk pc (m pc) again
      (and_ok-Behind pc (m pc) (write_instruction i w) (write_all rest) m
        (write_instruction-Behind pc (m pc) i w m (first_write m i o t) refl)
        (write_all-Behind pc (m pc) rest))
      next)

second-NotOk :
    (r : Read AnalyzedInst) {alone : Option (Run Memory Err)} (m : Memory) (pc : ℕ)
    (k : AnalyzedInst → Option (Run Memory Err))
    → IsAt m pc r
    → NotOk alone
    → ((inst : AnalyzedInst) → inst.pc ≡ pc → NotOk (k inst))
    → NotOk (second r alone k)
second-NotOk (read inst) m pc k (p, t) alone next = next inst p
second-NotOk (read_error e) m pc k ne alone next = alone

-- The peephole pass never returns ERR_OK, with any fuel, where the first byte of the code is not
-- HALT: it reads the first instruction as both the first and the second of a pair, again and again.
pub peephole_loop-NotOk : (f pc w : ℕ) (m : Memory) → Round pc w m → NotOk (peephole_loop f pc w m)
unfolding peephole_loop
peephole_loop-NotOk zero pc w m r = λ m' q. cc
peephole_loop-NotOk (suc f) pc w m r = rw (in_code-true pc w m r) (
    on_read-NotOk m pc (read_instruction m pc) _ (read_instruction-IsAt m pc) λ i₁ p t. simp p (
      second-NotOk (read_instruction m pc) m pc _ (read_instruction-IsAt m pc)
        (written-NotOk pc (m pc) _
          (write_instruction-Behind pc (m pc) i₁ w m (first_write m i₁ r.order t) refl)
          λ w' m' l e. peephole_loop-NotOk f pc w' m' (next-Round r l e))
        λ i₂ p₂. simp p₂ (
          write_starts-NotOk pc w m i₁ (peephole_writes i₁ i₂) (peephole_writes-StartsWith i₁ i₂)
            r.order t (peephole_loop f pc) (peephole_loop-NotOk f pc w m r)
            λ w' m' l e. peephole_loop-NotOk f pc w' m' (next-Round r l e))))
