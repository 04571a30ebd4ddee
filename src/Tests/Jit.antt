-- ===== src/Tests/Jit.antt =====
-- The JIT on small blocks.
use pocol_vm.Prelude.{ℕ, ◌+◌, ◌≡◌, ◌≢◌, refl, arith, none, some, List, ◌++◌}
use pocol_vm.Prelude.Int.{negsuc}
use pocol_vm.Machine.{Memory, memory_size, emit64, desc_pack, store_list, store}
use pocol_vm.State.{Err, err_ok, Vm, Run, done, Cmd, Ensures}
use pocol_vm.Vm.{inst_halt}
use pocol_vm.Vm.Isa.{halt, push, imm, encode}
use pocol_vm.Optimizer.{opt_basic}
use pocol_vm.Jit.{JitContext, jit_enabled, jit_init, compile_block, find_from}
use pocol_vm.Jit.Emit.{mov_reg_imm64}
use pocol_vm.Jit.Compile.{Layout}
use pocol_vm.Jit.Execute.{Jitted, jit_loop, execute_program_jit}
use pocol_vm.Jit.Lookup.{IsCache, jit_init-IsCache, compile_block-IsCache}
use pocol_vm.Jit.Stuck.{AtHalt, jit_loop-halt}
use pocol_vm.Jit.Program.{execute_program_jit-NotOk}
use pocol_vm.Tests.Console.{console_host, machine}

abbrev pub layout : Layout
layout = record {
  vm = 4096;
  halt = 8192;
  stack = 6144;
  printf = 65536;
  registers_offset = 1024;
  sp_offset = 512;
  pc_offset = 8;
}

abbrev context : JitContext
context = jit_init 1048576 jit_enabled opt_basic

-- PUSH 1; HALT
abbrev pushing : Memory
pushing = store_list (λ _. 0) 0 (encode (push (imm 1)) ++ encode halt)

compile_block-IsCache_example :
    (r : Run JitContext Err) × ((compile_block layout pushing (memory_size + 1) context 0 ≡ some r)
      × Ensures (λ _ ctx'. IsCache ctx') r)
compile_block-IsCache_example =
    compile_block-IsCache layout pushing context 0 (memory_size + 1)
      (jit_init-IsCache 1048576 jit_enabled opt_basic) (omega arith) (omega arith)

-- A processor that knows the empty block alone.
abbrev pub idle : List ℕ → Cmd (Vm (List ℕ)) (Unit {0})
idle code vm = done tt vm

abbrev halting : Jitted (List ℕ)
halting = record { ctx = context; vm = machine (encode halt) }

halting-AtHalt : AtHalt console_host layout idle (λ vm. refl) halting
unfolding jit_init encode mov_reg_imm64 emit64 store_list store desc_pack find_from
halting-AtHalt = record {
  live = refl;
  inside = omega arith;
  halts = refl;
  uncached = refl;
  free = omega arith;
  room = omega arith;
}

jit_loop-halt_example : jit_loop console_host layout idle 1000 1 (negsuc 0) halting ≡ none
jit_loop-halt_example =
    jit_loop-halt console_host layout idle (λ vm. refl) 1000 0 0 halting halting-AtHalt

pushing_starts : pushing 0 ≢ inst_halt
unfolding encode store_list store emit64 desc_pack
pushing_starts = omega arith

execute_program_jit-NotOk_example :
    execute_program_jit console_host layout idle 5
      (memory_size + 1)
      0
      1048576
      (negsuc 0)
      none
      (record halting.vm { memory = pushing })
    ≢ some (done err_ok halting)
execute_program_jit-NotOk_example =
    execute_program_jit-NotOk console_host layout idle 5 (memory_size + 1) 0 1048576 (negsuc 0) none
      (record halting.vm { memory = pushing }) (omega arith) (omega arith) pushing_starts halting
