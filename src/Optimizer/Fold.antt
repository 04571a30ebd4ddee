-- ===== src/Optimizer/Fold.antt =====
-- pm/optimizer.c, pocol_opt_fold_constants: the pass ends, and it changes no byte of memory.
use mathlib.Core.Path.{subst}
use pocol_vm.Prelude.{
  ℕ, zero, suc, ◌+◌, ◌-◌, ◌≤◌, ◌<◌, ◌≡◌, refl, sym, ap, ◌∙◌, ◌⊎◌, inl, inr, Option, none, some,
  List, [], ◌∷◌, arith, length, Bool-cases, ltb, leb, ◌==◌, le→ltb_false, lt→ltb,
}
use pocol_vm.Machine.{Memory, memory_size, Holds, desc_get_op1, desc_get_op2}
use pocol_vm.Machine.Stores.{store_same, store_list-same, Holds-load_list, length-load_list}
use pocol_vm.State.{Err, err_ok, Run, done, exits, fault}
use pocol_vm.Vm.{opr_none, opr_reg, opr_imm}
use pocol_vm.Optimizer.{
  AnalyzedInst, Read, read, read_error, read_then, on_read, read_operand, read_operands,
  read_instruction, write_operand, and_ok, write_instruction, in_code, copy_halt, written,
  fold_loop,
}

-- The bytes of an operand that was read stand in memory, and the next one starts behind them.
abbrev ReadAt : Memory → ℕ → Read (Option (List ℕ) × ℕ) → Type 0
ReadAt m a (read (none, b)) = Unit
ReadAt m a (read (some bs, b)) =
    Holds m a bs × (b ≡ a + length bs) × ((length bs ≡ 0) ⊎ (b ≤ memory_size))
ReadAt m a (read_error e) = Unit

read_operand-ReadAt : (m : Memory) (op a : ℕ) → ReadAt m a (read_operand m op a)
unfolding read_operand
read_operand-ReadAt m op a = elim (Bool-cases (op == opr_none)) [
  | inl empty ↦ rw empty (tt, omega arith, inl refl)
  | inr some_type ↦ elim (Bool-cases (leb memory_size a)) [
    | inl past ↦ rw (some_type, past) tt
    | inr here ↦ elim (Bool-cases (op == opr_reg)) [
      | inl one ↦ rw (some_type, here, one) ((refl, tt), refl, inr (ground arith))
      | inr other ↦ elim (Bool-cases (op == opr_imm)) [
        | inr wrong ↦ rw (some_type, here, other, wrong) tt
        | inl eight ↦ elim (Bool-cases (ltb memory_size (a + 8))) [
          | inl out ↦ rw (some_type, here, other, eight, out) tt
          | inr fits ↦
              rw (some_type, here, other, eight, fits)
                (Holds-load_list m a 8, omega (arith, length-load_list m a 8), inr (ground arith))
        ]
      ]
    ]
  ]
]

-- A write of what was read: nothing changes and the next write is further on, or the size of an
-- operand was never assigned.
abbrev PutBack : Memory → (least : ℕ) → Run Memory (Err × ℕ) → Type 0
PutBack m least (done (e, w) m') = (e ≡ err_ok) × (m' ≡ m) × (least ≤ w)
PutBack m least (exits c m') = ⊥
PutBack m least fault = Unit

write_operand-PutBack :
    (m : Memory) (a : ℕ) (bs : List ℕ)
    → Holds m a bs
    → (length bs ≡ 0) ⊎ (a + length bs ≤ memory_size)
    → write_operand (some bs) a m ≡ done (err_ok, a + length bs) m
unfolding write_operand
write_operand-PutBack m a [] holds fits = ground arith
write_operand-PutBack m a (v ∷ vs) holds fits = rw (
  lt→ltb 0 (length (v ∷ vs)) (omega arith),
  le→ltb_false memory_size (a + length (v ∷ vs)) (omega arith),
  store_list-same m a (v ∷ vs) holds,
)

-- The two operands of an instruction, as they stand from `a` on, up to one without a size.
abbrev Piece : Memory → ℕ → List ℕ → Type 0
Piece m a bs = Holds m a bs × ((length bs ≡ 0) ⊎ (a + length bs ≤ memory_size))

abbrev LastAt : Memory → ℕ → Option (List ℕ) → Type 0
LastAt m a none = Unit
LastAt m a (some cs) = Piece m a cs

abbrev OperandsAt : Memory → ℕ → Option (List ℕ) → Option (List ℕ) → Type 0
OperandsAt m a none o = Unit
OperandsAt m a (some bs) o = Piece m a bs × LastAt m (a + length bs) o

abbrev InstAt : Memory → ℕ → Read AnalyzedInst → Type 0
InstAt m pc (read_error e) = Unit
InstAt m pc (read inst) =
    (pc + 2 ≤ memory_size)
    × (inst.type ≡ m pc)
    × (inst.desc ≡ m (pc + 1))
    × OperandsAt m (pc + 2) inst.operand1 inst.operand2

-- An end that is known to be in memory, written another way.
ends_within : {b c n : ℕ} → b ≡ c → (n ≡ 0) ⊎ (b ≤ memory_size) → (n ≡ 0) ⊎ (c ≤ memory_size)
ends_within {n} e h = subst (λ k. (n ≡ 0) ⊎ (k ≤ memory_size)) e h

read_last-InstAt :
    (m : Memory) (pc b type desc : ℕ) (o : Option (List ℕ)) (r : Read (Option (List ℕ) × ℕ))
    → pc + 2 ≤ memory_size
    → type ≡ m pc
    → desc ≡ m (pc + 1)
    → ReadAt m (pc + 2) (read (o, b))
    → ReadAt m b r
    → InstAt m pc (
        read_then r
          λ r₂. read (record { type = type; desc = desc; operand1 = o; operand2 = r₂.0; pc = pc }))
read_last-InstAt m pc b type desc o (read_error e) le et ed h₁ h₂ = tt
read_last-InstAt m pc b type desc none (read (o₂, c)) le et ed h₁ h₂ = (le, et, ed, tt)
read_last-InstAt m pc b type desc (some bs) (read (none, c)) le et ed (holds, eb, fits) h₂ =
    (le, et, ed, ((holds, ends_within eb fits), tt))
read_last-InstAt m pc b type desc (some bs) (read (some cs, c)) le et ed (holds, eb, fits)
      (h, ec, f) =
    (
      le,
      et,
      ed,
      (
        (holds, ends_within eb fits),
        (subst (λ k. Holds m k cs) eb h, ends_within (ec ∙ ap (λ k. k + length cs) eb) f),
      ),
    )

read_first-InstAt :
    (m : Memory) (pc type desc : ℕ) (r : Read (Option (List ℕ) × ℕ))
    → pc + 2 ≤ memory_size
    → type ≡ m pc
    → desc ≡ m (pc + 1)
    → ReadAt m (pc + 2) r
    → InstAt m pc (
        read_then r λ r₁. read_then (read_operand m (desc_get_op2 desc) r₁.1) λ r₂.
          read (record { type = type; desc = desc; operand1 = r₁.0; operand2 = r₂.0; pc = pc }))
read_first-InstAt m pc type desc (read_error e) le et ed h = tt
read_first-InstAt m pc type desc (read (o, b)) le et ed h =
    read_last-InstAt m pc b type desc o (read_operand m (desc_get_op2 desc) b) le et ed h
      (read_operand-ReadAt m _ b)

read_instruction-InstAt : (m : Memory) (pc : ℕ) → InstAt m pc (read_instruction m pc)
unfolding read_instruction read_operands
read_instruction-InstAt m pc = elim (Bool-cases (leb memory_size pc)) [
  | inl past ↦ rw past tt
  | inr here ↦ elim (Bool-cases (leb memory_size (pc + 1))) [
    | inl past ↦ rw (here, past) tt
    | inr both ↦
        rw (here, both)
          (read_first-InstAt m pc (m pc) (m (pc + 1))
            (read_operand m (desc_get_op1 (m (pc + 1))) (pc + 2)) (ground arith) refl refl
            (read_operand-ReadAt m _ (pc + 2)))
  ]
]

write_last-PutBack :
    (m : Memory) (least a : ℕ) (o : Option (List ℕ))
    → LastAt m a o
    → least ≤ a
    → PutBack m least (write_operand o a m)
unfolding write_operand
write_last-PutBack m least a none h le = tt
write_last-PutBack m least a (some cs) (holds, fits) le =
    rw (write_operand-PutBack m a cs holds fits) (refl, refl, omega arith)

write_operands-PutBack :
    (m : Memory) (least a : ℕ) (o₁ o₂ : Option (List ℕ))
    → OperandsAt m a o₁ o₂
    → least ≤ a
    → PutBack m least (and_ok (write_operand o₁ a) (write_operand o₂) m)
unfolding write_operand
write_operands-PutBack m least a none o₂ h le = tt
write_operands-PutBack m least a (some bs) o₂ ((holds, fits), last) le =
    rw (write_operand-PutBack m a bs holds fits)
      (write_last-PutBack m least (a + length bs) o₂ last (omega arith))

write_instruction-PutBack :
    (m : Memory) (pc : ℕ) (inst : AnalyzedInst)
    → InstAt m pc (read inst)
    → PutBack m (pc + 2) (write_instruction inst pc m)
unfolding write_instruction
write_instruction-PutBack m pc inst (le, et, ed, ops) =
    rw
      (
        le→ltb_false memory_size (pc + 2) le,
        store_same m pc inst.type (sym et),
        store_same m (pc + 1) inst.desc (sym ed),
      )
      (write_operands-PutBack m (pc + 2) (pc + 2) inst.operand1 inst.operand2 ops (omega arith))

-- How a pass may end without a change: with any `Err`, or at an operand without a size.
abbrev pub Unchanged : Memory → Run Memory Err → Type 0
Unchanged m (done e m') = m' ≡ m
Unchanged m (exits c m') = ⊥
Unchanged m fault = Unit

abbrev pub EndsUnchanged : Memory → Option (Run Memory Err) → Type 0
EndsUnchanged m o = (r : Run Memory Err) × (o ≡ some r) × Unchanged m r

written-EndsUnchanged :
    (m : Memory) (least : ℕ) (again : ℕ → Memory → Option (Run Memory Err))
    (r : Run Memory (Err × ℕ))
    → PutBack m least r
    → ((w : ℕ) → least ≤ w → EndsUnchanged m (again w m))
    → EndsUnchanged m (written again r)
written-EndsUnchanged m least again (done (e, w) m') (ok, same, le) next = rw (ok, same) (next w le)
written-EndsUnchanged m least again (exits c m') p next = absurd p
written-EndsUnchanged m least again fault p next = (fault, refl, tt)

on_read-EndsUnchanged :
    (m : Memory) (pc : ℕ) (r : Read AnalyzedInst) (k : AnalyzedInst → Option (Run Memory Err))
    → InstAt m pc r
    → ((inst : AnalyzedInst) → InstAt m pc (read inst) → EndsUnchanged m (k inst))
    → EndsUnchanged m (on_read m r k)
on_read-EndsUnchanged m pc (read inst) k h next = next inst h
on_read-EndsUnchanged m pc (read_error e) k h next = (done e m, refl, refl)

-- The byte that is copied at the end is put back where it stands.
pub copy_halt-same : (m : Memory) (pc : ℕ) → copy_halt pc pc m ≡ done err_ok m
unfolding copy_halt
copy_halt-same m pc = elim (Bool-cases (ltb pc memory_size)) [
  | inl here ↦ rw (here, store_same m pc (m pc) refl)
  | inr past ↦ rw past
]

-- Constant folding ends, for any memory and any start, with fuel above the number of bytes from the
-- start to the end of memory. It changes no byte: when it returns, with whatever `Err`, the memory is
-- the one that it was called with. (It may also stop at an operand whose size was never assigned.)
pub fold_loop-EndsUnchanged :
    (f pc : ℕ) (m : Memory) → memory_size - pc < f → EndsUnchanged m (fold_loop f pc pc m)
unfolding fold_loop
fold_loop-EndsUnchanged zero pc m h = absurd (omega arith)
fold_loop-EndsUnchanged (suc f) pc m h = elim (Bool-cases (in_code m pc)) [
  | inr out ↦ rw out (copy_halt pc pc m, refl, rw (copy_halt-same m pc) refl)
  | inl code ↦ rw code (
      on_read-EndsUnchanged m pc (read_instruction m pc) _ (read_instruction-InstAt m pc)
        λ inst at_pc.
          written-EndsUnchanged m (pc + 2) _ (write_instruction inst pc m)
            (write_instruction-PutBack m pc inst at_pc)
            λ w le. fold_loop-EndsUnchanged f w m (omega arith))
]
