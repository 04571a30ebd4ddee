-- ===== src/Jit/Program.antt =====
-- pm/vm.c, pocol_execute_program_jit: the optimiser before the JIT.
use pocol_vm.Prelude.{ℕ, ◌-◌, ◌<◌, ◌≢◌, refl, Option, none, some, List}
use pocol_vm.Prelude.Int.{ℤ}
use pocol_vm.Machine.{Memory, memory_size}
use pocol_vm.Host.{Host}
use pocol_vm.State.{
  Err, err_ok, illegal_inst, illegal_inst_access, stack_overflow, stack_underflow, Vm, Run, done,
  exits, fault, Cmd,
}
use pocol_vm.Vm.{inst_halt}
use pocol_vm.Optimizer.{opt_basic, optimize_bytecode}
use pocol_vm.Optimizer.Diverge.{NotOk}
use pocol_vm.Optimizer.Levels.{optimize_bytecode-NotOk}
use pocol_vm.Jit.{JitContext}
use pocol_vm.Jit.Compile.{Layout}
use pocol_vm.Jit.Execute.{Jitted, run_optimized, ensure_context, execute_program_jit}

module _ {W : Type 0} (host : Host W) (layout : Layout)
    (run_code : List ℕ → Cmd (Vm W) (Unit {0})) where
  run_optimized-NotOk :
      (rounds fuel : ℕ) (limit : ℤ) (ctx : JitContext) (vm : Vm W) (o : Option (Run Memory Err))
      → NotOk o
      → (s : Jitted W)
      → run_optimized host layout run_code rounds fuel limit ctx vm o ≢ some (done err_ok s)
  run_optimized-NotOk rounds fuel limit ctx vm none h s = λ q. cc
  run_optimized-NotOk rounds fuel limit ctx vm (some (done err_ok m)) h s = absurd (h m refl)
  run_optimized-NotOk rounds fuel limit ctx vm (some (done illegal_inst m)) h s = λ q. cc
  run_optimized-NotOk rounds fuel limit ctx vm (some (done illegal_inst_access m)) h s = λ q. cc
  run_optimized-NotOk rounds fuel limit ctx vm (some (done stack_overflow m)) h s = λ q. cc
  run_optimized-NotOk rounds fuel limit ctx vm (some (done stack_underflow m)) h s = λ q. cc
  run_optimized-NotOk rounds fuel limit ctx vm (some (exits c m)) h s = λ q. cc
  run_optimized-NotOk rounds fuel limit ctx vm (some fault) h s = λ q. cc

  -- Where the code starts inside the memory with an instruction other than HALT, a run with the JIT
  -- enabled never returns ERR_OK, with any fuel above the number of bytes from there to the end,
  -- whatever the processor, the limit, and the context of an earlier run.
  pub execute_program_jit-NotOk :
      (rounds fuel p buffer : ℕ) (limit : ℤ) (jit_context : Option JitContext) (vm : Vm W)
      → p < memory_size
      → memory_size - p < fuel
      → vm.memory p ≢ inst_halt
      → (s : Jitted W)
      → execute_program_jit host layout run_code rounds fuel p buffer limit jit_context vm
        ≢ some (done err_ok s)
  unfolding execute_program_jit
  execute_program_jit-NotOk rounds fuel p buffer limit jit_context vm inside enough runs =
      run_optimized-NotOk rounds fuel limit (ensure_context buffer jit_context) vm
        (optimize_bytecode fuel p opt_basic vm.memory)
        (optimize_bytecode-NotOk p vm.memory inside fuel opt_basic enough runs (λ q. cc))
