-- ===== src/Jit/Execute.antt =====
-- pm/jit.c, pocol_jit_execute_block and pocol_jit_execute_program; pm/vm.c,
-- pocol_execute_program_jit.
use pocol_vm.Prelude.{ℕ, zero, suc, ◌+◌, ◌||◌, Option, none, some, List, if◌then◌else◌}
use pocol_vm.Prelude.Int.{ℤ}
use pocol_vm.Machine.{Memory}
use pocol_vm.Host.{Host}
use pocol_vm.State.{Err, err_ok, Vm, Run, done, exits, fault, Cmd, on_option}
use pocol_vm.Vm.{execute_inst}
use pocol_vm.Vm.Loop.{less, is_zero}
use pocol_vm.Optimizer.{opt_basic, optimize_bytecode}
use pocol_vm.Jit.{
  JitContext, JitCacheEntry, jit_enabled, jit_init, find_cache, entry_at, hit_at, compile_block,
}
use pocol_vm.Jit.Compile.{Layout}

-- The machine and the context that its `jit_context` points to.
pub record Jitted (W : Type 0) : Type 0 where
  pub ctx : JitContext
  pub vm : Vm W

-- `vm->jit_context` is NULL before the first call, which allocates it with its buffer at `buffer`.
abbrev pub ensure_context : ℕ → Option JitContext → JitContext
ensure_context buffer none = jit_init buffer jit_enabled opt_basic
ensure_context buffer (some ctx) = ctx

module _ {W : Type 0} (host : Host W) (layout : Layout)
    (run_code : List ℕ → Cmd (Vm W) (Unit {0})) where
  -- What a run of the machine alone leaves.
  abbrev pub with_ctx : JitContext → Run (Vm W) Err → Run (Jitted W) Err
  with_ctx ctx (done e vm) = done e (record { ctx = ctx; vm = vm })
  with_ctx ctx (exits k vm) = exits k (record { ctx = ctx; vm = vm })
  with_ctx ctx fault = fault

  -- `entry->code(vm); return ERR_OK;`
  abbrev pub ran : JitContext → Run (Vm W) (Unit {0}) → Run (Jitted W) Err
  ran ctx (done _ vm) = done err_ok (record { ctx = ctx; vm = vm })
  ran ctx (exits k vm) = exits k (record { ctx = ctx; vm = vm })
  ran ctx fault = fault

  -- Falls back to the interpreter.
  abbrev pub interpret : Jitted W → Run (Jitted W) Err
  interpret s = with_ctx s.ctx (execute_inst host s.vm)

  abbrev pub hit : ℕ → JitContext → JitContext
  hit i ctx = record ctx { cache = hit_at ctx.cache i; execute_count = ctx.execute_count + 1 }

  abbrev pub run_entry : Jitted W → ℕ → JitCacheEntry → Run (Jitted W) Err
  run_entry s i e = if e.compiled then ran (hit i s.ctx) (run_code e.code s.vm) else interpret s

  abbrev pub run_found : Jitted W → Option ℕ → Run (Jitted W) Err
  run_found s found =
      on_option found (interpret s)
        (λ i. on_option (entry_at s.ctx.cache i) (interpret s) (run_entry s i))

  -- After the compilation the cache is searched again.
  abbrev pub run_compiled : Vm W → Option (Run JitContext Err) → Option (Run (Jitted W) Err)
  run_compiled vm none = none
  run_compiled vm (some (done err_ok ctx)) =
      some (run_found (record { ctx = ctx; vm = vm }) (find_cache ctx vm.pc))
  run_compiled vm (some (done e ctx)) = some (done e (record { ctx = ctx; vm = vm }))
  run_compiled vm (some (exits k ctx)) = some (exits k (record { ctx = ctx; vm = vm }))
  run_compiled vm (some fault) = some fault

  -- `pocol_jit_execute_block` at the machine's program counter, with fuel for the compilation.
  unfoldable pub execute_block : ℕ → Jitted W → Option (Run (Jitted W) Err)
  execute_block fuel s =
      on_option (find_cache s.ctx s.vm.pc)
        (run_compiled s.vm (compile_block layout s.vm.memory fuel s.ctx s.vm.pc))
        (λ i. some (run_found s (some i)))

  abbrev pub after_block :
      (Jitted W → Option (Run (Jitted W) Err))
      → Option (Run (Jitted W) Err)
      → Option (Run (Jitted W) Err)
  after_block again none = none
  after_block again (some (done err_ok s)) = again s
  after_block again (some r) = some r

  -- `pocol_jit_execute_program`; `none` when the fuel runs out.
  unfoldable pub jit_loop : (rounds fuel : ℕ) → ℤ → Jitted W → Option (Run (Jitted W) Err)
  jit_loop zero fuel limit s = none
  jit_loop (suc n) fuel limit s =
      let next = after_block (jit_loop n fuel (less limit)) (execute_block fuel s) in
      if is_zero limit || s.vm.halt then some (done err_ok s) else next

  -- The JIT branch of `pocol_execute_program_jit`, once the bytecode is optimised.
  abbrev pub run_optimized :
      ℕ → ℕ → ℤ → JitContext → Vm W → Option (Run Memory Err) → Option (Run (Jitted W) Err)
  run_optimized rounds fuel limit ctx vm none = none
  run_optimized rounds fuel limit ctx vm (some (done err_ok m)) =
      jit_loop rounds fuel limit (record { ctx = ctx; vm = record vm { memory = m } })
  run_optimized rounds fuel limit ctx vm (some (done e m)) =
      some (done e (record { ctx = ctx; vm = record vm { memory = m } }))
  run_optimized rounds fuel limit ctx vm (some (exits k m)) =
      some (exits k (record { ctx = ctx; vm = record vm { memory = m } }))
  run_optimized rounds fuel limit ctx vm (some fault) = some fault

  -- `pocol_execute_program_jit` with `jit_enabled`.
  unfoldable pub execute_program_jit :
      (rounds fuel magic_size buffer : ℕ)
      → ℤ
      → Option JitContext
      → Vm W
      → Option (Run (Jitted W) Err)
  execute_program_jit rounds fuel magic_size buffer limit jit_context vm =
      run_optimized rounds fuel limit (ensure_context buffer jit_context) vm
        (optimize_bytecode fuel magic_size opt_basic vm.memory)
