-- ===== src/Tests/Vm.antt =====
-- The interpreter on small programs.
use pocol_vm.Prelude.{ℕ, ◌≡◌, ◌≢◌, ◌⊎◌, refl, arith, true, Option, some, List, [], ◌∷◌, ◌++◌}
use pocol_vm.Prelude.Int.{negsuc}
use pocol_vm.Machine.{
  store, load64, reg_op, desc_get_op1, desc_get_op2, emit64, desc_pack, store_list,
}
use pocol_vm.Machine.Stores.{Holds-store_list}
use pocol_vm.State.{Err, err_ok, Vm, Run, done, fault, Ensures}
use pocol_vm.Vm.{
  execute_inst, next, fetch64, fetch_operand, exec_op, exec_push, exec_pop, exec_halt, exec_print,
  exec_add,
}
use pocol_vm.Vm.Isa.{halt, push, pop, add, print, imm, reg, encode, sem}
use pocol_vm.Vm.Decimal.{decimal}
use pocol_vm.Vm.Refine.{execute_inst-encode}
use pocol_vm.Vm.Loop.{
  execute_loop, execute_program, Steps, stop, step, Ends, execute_program-Ends,
  execute_loop-unlimited,
}
use pocol_vm.Vm.Invariant.{IsValid, MayFault, execute_inst-IsValid}
use pocol_vm.Vm.Safe.{execute_inst-done}
use pocol_vm.Tests.Console.{console_host, console_host-IsHost, machine}

-- PUSH 300
abbrev pushing : Vm (List ℕ)
pushing = machine (encode (push (imm 300)))

execute_inst-encode_example :
    execute_inst console_host pushing ≡ sem console_host (push (imm 300)) pushing
execute_inst-encode_example =
    execute_inst-encode console_host pushing (omega arith) (push (imm 300)) (omega arith)
      (omega arith) (Holds-store_list (λ _. 0) 0 (encode (push (imm 300))))

execute_program-Ends_example :
    (r : Run (Vm (List ℕ)) Err) × (execute_program console_host 3 pushing ≡ some r)
    × Ends console_host 3 pushing r
execute_program-Ends_example = execute_program-Ends console_host 3 pushing

-- HALT
abbrev halting : Vm (List ℕ)
halting = machine (encode halt)

abbrev halted : Vm (List ℕ)
halted = record halting { pc = 2; halt = true }

halting_step : execute_inst console_host halting ≡ done err_ok halted
unfolding sem
halting_step =
    execute_inst-encode console_host halting (omega arith) halt tt (omega arith)
      (Holds-store_list (λ _. 0) 0 (encode halt))

halting-Steps : Steps console_host 1 halting halted
halting-Steps = step refl halting_step stop

execute_loop-unlimited_example :
    execute_loop console_host 2 (negsuc 0) halting ≡ some (done err_ok halted)
execute_loop-unlimited_example =
    execute_loop-unlimited console_host 0 2 halting-Steps refl (omega arith)

-- PUSH 5; POP r0; ADD r0, 7; PRINT r0; HALT
abbrev printing : Vm (List ℕ)
printing = machine (
    encode (push (imm 5))
    ++ (encode (pop 0) ++ (encode (add 0 (imm 7)) ++ (encode (print (reg 0)) ++ encode halt))))

abbrev printed : Option (Run (Vm (List ℕ)) Err) → List ℕ
printed (some (done err_ok vm)) = vm.world
printed _ = []

-- The program prints 12.
printing_test : printed (execute_program console_host 5 printing) ≡ (b'1' ∷ b'2' ∷ [])
unfolding desc_get_op1 desc_get_op2 desc_pack reg_op load64 emit64 store_list store encode
    execute_program execute_loop execute_inst next fetch64 fetch_operand exec_op exec_push exec_pop
    exec_add exec_print exec_halt decimal
printing_test = refl

halting-IsValid : IsValid halting
unfolding store_list store encode desc_pack
halting-IsValid = record { sp = omega arith; bytes = λ a. ground arith }

execute_inst-IsValid_example :
    Ensures (λ e u. IsValid u) (execute_inst console_host halting)
    × ((execute_inst console_host halting ≢ fault) ⊎ MayFault halting)
execute_inst-IsValid_example =
    execute_inst-IsValid console_host console_host-IsHost halting halting-IsValid

execute_inst-done_example :
    (e : Err) × (u : Vm (List ℕ)) × (execute_inst console_host halting ≡ done e u)
unfolding store_list store encode desc_pack
execute_inst-done_example =
    execute_inst-done console_host halting (omega arith) (omega arith) (omega arith)
