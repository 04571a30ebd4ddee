-- ===== src/Optimizer.antt =====
-- pm/optimizer.c: the bytecode passes. They work on the memory of the machine alone, so a pass runs
-- over `Memory`. Each `while` runs on fuel, and gives `none` when the fuel ends.
-- POCOL_MAGIC_SIZE, where every pass starts, is defined nowhere in the repository: it is an argument.
pub mod Fold
pub mod Writes
pub mod Diverge
pub mod Levels
use pocol_vm.Prelude.{
  ℕ, zero, suc, ◌+◌, ◌*◌, ◌%◌, Bool, true, false, not, ◌&&◌, ◌||◌, Option, none, some, List, [],
  ◌∷◌, ltb, leb, ◌==◌, if◌then◌else◌, wrap64, length, get_or,
}
use pocol_vm.Machine.{
  Memory, memory_size, store, store_list, load_list, desc_get_op1, desc_get_op2, reg_op,
}
use pocol_vm.State.{
  Err, err_ok, illegal_inst_access, Run, done, exits, fault, Cmd, pure, and_then, ◌>>=◌, ◌>>◌,
}
use pocol_vm.Vm.{opr_none, opr_reg, opr_imm, inst_halt, inst_push, inst_pop, inst_add}
use pocol_vm.Vm.Load.{le_word}

-- `AnalyzedInst`. The bytes of an operand with their number; `none` stands for an operand whose size
-- was not assigned, for a type that is none of the three.
pub record AnalyzedInst : Type 0 where
  pub type : ℕ
  pub desc : ℕ
  pub operand1 : Option (List ℕ)
  pub operand2 : Option (List ℕ)
  pub pc : ℕ

pub data Read (A : Type 0) : Type 0 where
  read : A → Read A
  read_error : Err → Read A

-- An operand of the type `op`, and where the next one starts.
unfoldable pub read_operand : Memory → (op pc : ℕ) → Read (Option (List ℕ) × ℕ)
read_operand m op pc =
    if op == opr_none
    then read (some [], pc)
    else if leb memory_size pc
    then read_error illegal_inst_access
    else if op == opr_reg
    then read (some (m pc ∷ []), pc + 1)
    else if op == opr_imm
    then (if ltb memory_size (pc + 8)
        then read_error illegal_inst_access
        else read (some (load_list m pc 8), pc + 8))
    else read (none, pc)

abbrev pub read_then : {A B : Type 0} → Read A → (A → Read B) → Read B
read_then (read a) k = k a
read_then (read_error e) k = read_error e

-- The two operands behind a descriptor. The field `pc` is the address of the opcode.
unfoldable pub read_operands : Memory → (start type desc : ℕ) → Read AnalyzedInst
read_operands m start type desc = read_then (read_operand m (desc_get_op1 desc) (start + 2)) λ r₁.
    read_then (read_operand m (desc_get_op2 desc) r₁.1)
      λ r₂. read (record { type = type; desc = desc; operand1 = r₁.0; operand2 = r₂.0; pc = start })

unfoldable pub read_instruction : Memory → ℕ → Read AnalyzedInst
read_instruction m pc =
    if leb memory_size pc
    then read_error illegal_inst_access
    else if leb memory_size (pc + 1)
    then read_error illegal_inst_access
    else read_operands m pc (m pc) (m (pc + 1))

-- A round of the loop of `write_instruction`: the `Err`, and `*pc` behind it.
unfoldable pub write_operand : Option (List ℕ) → ℕ → Cmd Memory (Err × ℕ)
write_operand none pc m = fault
write_operand (some bs) pc m =
    if ltb 0 (length bs)
    then (if ltb memory_size (pc + length bs)
        then done (illegal_inst_access, pc) m
        else done (err_ok, pc + length bs) (store_list m pc bs))
    else done (err_ok, pc) m

abbrev pub and_ok : Cmd Memory (Err × ℕ) → (ℕ → Cmd Memory (Err × ℕ)) → Cmd Memory (Err × ℕ)
and_ok c k m = and_then (c m) λ r m'. elim r.0 [ err_ok ↦ k r.1 m' | _ ↦ done r m' ]

unfoldable pub write_instruction : AnalyzedInst → ℕ → Cmd Memory (Err × ℕ)
write_instruction inst pc m =
    if ltb memory_size (pc + 2)
    then done (illegal_inst_access, pc) m
    else and_ok (write_operand inst.operand1 (pc + 2)) (write_operand inst.operand2)
        (store (store m pc inst.type) (pc + 1) inst.desc)

-- `pc < POCOL_MEMORY_SIZE && vm->memory[pc] != INST_HALT`
abbrev pub in_code : Memory → ℕ → Bool
in_code m pc = ltb pc memory_size && not (m pc == inst_halt)

-- "Copy HALT instruction", at the end of a pass.
unfoldable pub copy_halt : (pc write_pc : ℕ) → Cmd Memory Err
copy_halt pc write_pc m =
    if ltb pc memory_size
    then (if ltb write_pc memory_size then done err_ok (store m write_pc (m pc)) else fault)
    else done err_ok m

-- How a round of a pass goes on: with an error, or behind what it wrote.
abbrev pub written :
    (ℕ → Memory → Option (Run Memory Err)) → Run Memory (Err × ℕ) → Option (Run Memory Err)
written again (done (err_ok, write_pc) m) = again write_pc m
written again (done (e, _) m) = some (done e m)
written again (exits c m) = some (exits c m)
written again fault = some fault

-- `if (err != ERR_OK) return err;` after `read_instruction`.
abbrev pub on_read :
    Memory → Read AnalyzedInst → (AnalyzedInst → Option (Run Memory Err)) → Option (Run Memory Err)
on_read m (read inst) k = k inst
on_read m (read_error e) k = some (done e m)

-- `pocol_opt_fold_constants`. Both branches on an ADD of an immediate write the instruction.
unfoldable pub fold_loop : ℕ → (pc write_pc : ℕ) → Memory → Option (Run Memory Err)
fold_loop zero pc write_pc m = none
fold_loop (suc f) pc write_pc m =
    let round =
      on_read m (read_instruction m pc)
        λ inst. written (λ w m'. fold_loop f w w m') (write_instruction inst write_pc m) in
    if in_code m pc then round else some (copy_halt pc write_pc m)

-- A constant 0 as the second operand of an ADD.
abbrev pub adds_zero : AnalyzedInst → Bool
adds_zero inst = elim inst.operand2 [
  | none ↦ false
  | some bs ↦ inst.type == inst_add && (desc_get_op2 inst.desc == opr_imm) && (le_word bs == 0)
]

-- `pocol_opt_eliminate_dead_code`. The record of modified registers is never read. The next `pc` is
-- the field `pc` of the instruction.
unfoldable pub dead_loop : ℕ → (pc write_pc : ℕ) → Memory → Option (Run Memory Err)
dead_loop zero pc write_pc m = none
dead_loop (suc f) pc write_pc m =
    let round = on_read m (read_instruction m pc) λ inst.
      let skip = dead_loop f inst.pc write_pc m in
      let keep = written (λ w m'. dead_loop f inst.pc w m') (write_instruction inst write_pc m) in
      if adds_zero inst then skip else keep in
    if in_code m pc then round else some (copy_halt pc write_pc m)

-- `operands[0][0]`
abbrev pub first_byte : Option (List ℕ) → ℕ
first_byte none = 0
first_byte (some bs) = get_or bs 0 0

-- The instructions that a round of `pocol_opt_peephole` writes for two instructions read: none where
-- it drops both.
unfoldable pub peephole_writes : AnalyzedInst → AnalyzedInst → List AnalyzedInst
peephole_writes i₁ i₂ =
    if i₁.type == inst_push
      && (i₂.type == inst_pop)
      && (desc_get_op1 i₁.desc == opr_reg && (desc_get_op1 i₂.desc == opr_reg))
    then (if reg_op (first_byte i₁.operand1) == reg_op (first_byte i₂.operand1)
        then []
        else i₁ ∷ i₂ ∷ i₂ ∷ [])
    else if adds_zero i₁
    then []
    else i₁ ∷ i₂ ∷ []

unfoldable pub write_all : List AnalyzedInst → ℕ → Cmd Memory (Err × ℕ)
write_all [] pc m = done (err_ok, pc) m
write_all (i ∷ is) pc m = and_ok (write_instruction i pc) (write_all is) m

-- What follows the read of a second instruction, and what follows its error.
abbrev pub second :
    Read AnalyzedInst
    → Option (Run Memory Err)
    → (AnalyzedInst → Option (Run Memory Err))
    → Option (Run Memory Err)
second (read inst) alone k = k inst
second (read_error e) alone k = alone

-- `pocol_opt_peephole`. The second instruction is read at the field `pc` of the first, and the next
-- round starts at the field `pc` of the second.
unfoldable pub peephole_loop : ℕ → (pc write_pc : ℕ) → Memory → Option (Run Memory Err)
peephole_loop zero pc write_pc m = none
peephole_loop (suc f) pc write_pc m =
    let round = on_read m (read_instruction m pc) λ i₁.
      second (read_instruction m i₁.pc)
        (written (λ w m'. peephole_loop f i₁.pc w m') (write_instruction i₁ write_pc m))
        λ i₂.
          written (λ w m'. peephole_loop f i₂.pc w m')
            (write_all (peephole_writes i₁ i₂) write_pc m) in
    if in_code m pc then round else some (copy_halt pc write_pc m)

-- `OptLevel`
pub data OptLevel : Type 0 where
  opt_none opt_basic opt_advanced : OptLevel

-- A pass, and the next one if it returned ERR_OK.
abbrev pub then_pass :
    Option (Run Memory Err) → (Memory → Option (Run Memory Err)) → Option (Run Memory Err)
then_pass none k = none
then_pass (some (done err_ok m)) k = k m
then_pass (some r) k = some r

-- `pocol_optimize_bytecode`, from the address `magic_size` on.
unfoldable pub optimize_bytecode :
    (fuel magic_size : ℕ) → OptLevel → Memory → Option (Run Memory Err)
optimize_bytecode fuel magic_size opt_none m = some (done err_ok m)
optimize_bytecode fuel magic_size opt_basic m =
    then_pass (fold_loop fuel magic_size magic_size m)
      λ m'. then_pass (dead_loop fuel magic_size magic_size m') λ m''. some (done err_ok m'')
optimize_bytecode fuel magic_size opt_advanced m =
    then_pass (fold_loop fuel magic_size magic_size m) λ m'.
      then_pass (dead_loop fuel magic_size magic_size m')
        λ m''. then_pass (peephole_loop fuel magic_size magic_size m'') λ m₃. some (done err_ok m₃)
