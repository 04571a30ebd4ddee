-- ===== src/Tests/Optimizer.antt =====
-- The optimiser's passes on small programs.
use pocol_vm.Prelude.{◌+◌, ◌≢◌, inr, refl, arith, ◌++◌}
use pocol_vm.Machine.{Memory, memory_size, store, store_list, desc_pack, emit64}
use pocol_vm.Vm.{inst_halt}
use pocol_vm.Vm.Isa.{push, imm, halt, encode}
use pocol_vm.Optimizer.{fold_loop, peephole_loop, opt_basic, optimize_bytecode}
use pocol_vm.Optimizer.Fold.{EndsUnchanged, fold_loop-EndsUnchanged}
use pocol_vm.Optimizer.Diverge.{NotOk, Round, peephole_loop-NotOk}
use pocol_vm.Optimizer.Levels.{optimize_bytecode-NotOk}

-- PUSH 1; HALT
abbrev pushing : Memory
pushing = store_list (λ _. 0) 0 (encode (push (imm 1)) ++ encode halt)

pushing_starts : pushing 0 ≢ inst_halt
unfolding encode store_list store emit64 desc_pack
pushing_starts = omega arith

pushing-Round : Round 0 0 pushing
pushing-Round = record { in_memory = omega arith; running = pushing_starts; order = inr refl }

fold_loop-EndsUnchanged_example : EndsUnchanged pushing (fold_loop (memory_size + 1) 0 0 pushing)
fold_loop-EndsUnchanged_example = fold_loop-EndsUnchanged (memory_size + 1) 0 pushing (omega arith)

peephole_loop-NotOk_example : NotOk (peephole_loop 7 0 0 pushing)
peephole_loop-NotOk_example = peephole_loop-NotOk 7 0 0 pushing pushing-Round

optimize_bytecode-NotOk_example : NotOk (optimize_bytecode (memory_size + 1) 0 opt_basic pushing)
optimize_bytecode-NotOk_example =
    optimize_bytecode-NotOk 0 pushing (omega arith) (memory_size + 1) opt_basic (omega arith)
      pushing_starts (λ q. cc)

-- HALT alone
abbrev halting : Memory
halting = λ _. 0
