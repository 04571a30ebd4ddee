-- ===== src/Tests/Debugger.antt =====
-- The debugger with a breakpoint.
use pocol_vm.Prelude.{
  ℕ, ◌≤◌, ◌<◌, ◌≡◌, ◌≢◌, ◌↔◌, inl, inr, sym, refl, arith, true, false, none, some, List, [], ◌∷◌,
  length, ◌==◌, if◌then◌else◌,
}
use pocol_vm.Prelude.Int.{pos}
use pocol_vm.State.{Vm, fault}
use pocol_vm.Debugger.{
  debug_max_breakpoints, first_at, mode_run, mode_break, Debugger, debugger_init, new_breakpoint,
  find_breakpoint, add_breakpoint, remove_breakpoint,
}
use pocol_vm.Debugger.Control.{step_into, should_stop}
use pocol_vm.Debugger.Saved.{save_state, restore_state, restore_state-save_state}
use pocol_vm.Debugger.Break.{
  added, IsValid, find_breakpoint-add_breakpoint, find_breakpoint-remove_breakpoint,
}
use pocol_vm.Debugger.Reach.{Reachable, fresh, after_step, adds, polls, Reachable-IsValid}
use pocol_vm.Debugger.Stops.{Armed, Clear, poll, stops_last, should_stop-Armed, poll-step_into}
use pocol_vm.Tests.Console.{machine}
use pocol_vm.Prelude.Text.{codes}
use pocol_vm.Machine.{emit64, store, store_list, desc_pack}
use pocol_vm.Vm.Isa.{halt, push, imm, encode}
use pocol_vm.Debugger.Command.{
  show_state, strip, c_string, disasm_instruction, show_disasm, debugger_loop,
}
use pocol_vm.Debugger.Quit.{debugger_loop-NoQuit}

-- One breakpoint, at 40.
abbrev armed : Debugger
armed = record debugger_init { breakpoints = new_breakpoint 40 ∷ [] }

armed-IsValid : IsValid armed
unfolding first_at
armed-IsValid = record { unique = (refl, tt); fits = omega arith }

find_breakpoint-add_breakpoint_example :
    (debug_max_breakpoints ≤ length armed.breakpoints → add_breakpoint armed 50 ≡ (none, armed))
    × (length armed.breakpoints < debug_max_breakpoints
        → ((add_breakpoint armed 50).0 ≢ none)
          × (find_breakpoint (add_breakpoint armed 50).1 40 ≡ (
              if 50 == 40
              then some (added 50 (find_breakpoint armed 50))
              else find_breakpoint armed 40)))
find_breakpoint-add_breakpoint_example =
    find_breakpoint-add_breakpoint armed refl armed-IsValid 50 40

find_breakpoint-remove_breakpoint_example :
    ((remove_breakpoint armed 40).0 ≡ true ↔ (find_breakpoint armed 40 ≢ none))
    × (find_breakpoint (remove_breakpoint armed 40).1 40
        ≡ (if 40 == 40 then none else find_breakpoint armed 40))
find_breakpoint-remove_breakpoint_example =
    find_breakpoint-remove_breakpoint armed refl armed-IsValid 40 40

should_stop-Armed_example :
    (Armed 40 armed.breakpoints
      → ((should_stop 40 false armed).0 ≡ true)
        × ((should_stop 40 false armed).1.mode ≡ mode_break))
    × (¬ (Armed 40 armed.breakpoints)
        → armed.mode ≡ mode_run
        → should_stop 40 false armed ≡ (false, armed))
should_stop-Armed_example = should_stop-Armed armed refl refl 40

Armed-at : (pc : ℕ) → pc ≢ 40 → ¬ (Armed pc armed.breakpoints)
Armed-at pc ne (inl (e, at_pc)) = ne (sym at_pc)
Armed-at pc ne (inr later) = later

-- No breakpoint at 24 or 26.
clear : Clear armed.breakpoints (24 ∷ 26 ∷ [])
clear = (Armed-at 24 (omega arith), (Armed-at 26 (omega arith), tt))

poll-step_into_example : poll (24 ∷ 26 ∷ []) (step_into armed (pos 2)) ≡ stops_last 1
poll-step_into_example = poll-step_into 1 (24 ∷ 26 ∷ []) armed refl (omega arith) clear

abbrev first : Vm (List ℕ)
first = machine []

abbrev second : Vm (List ℕ)
second = record first { pc = 2; sp = 1 }

restore_state-save_state_example :
    (restore_state (save_state second (save_state first armed)) second).1
    ≡ record second { pc = first.pc; registers = first.registers; sp = first.sp }
restore_state-save_state_example = restore_state-save_state armed first second second refl

-- A fresh debugger that is given a breakpoint and is asked at its address.
abbrev asked : Debugger
asked = (should_stop 40 false (add_breakpoint debugger_init 40).1).1

asked-Reachable : Reachable (List ℕ) asked
asked-Reachable = after_step (after_step fresh (adds debugger_init 40)) (polls 40 false _)

Reachable-IsValid_example : IsValid asked
Reachable-IsValid_example = Reachable-IsValid asked-Reachable

-- Two commands, and the end of the input.
debugger_loop-NoQuit_example :
    debugger_loop 1000
      (machine (encode halt))
      (codes "break 0x20" ∷ codes "step" ∷ [])
      debugger_init
    ≡ none
unfolding strip c_string show_disasm disasm_instruction encode desc_pack store_list store
debugger_loop-NoQuit_example =
    debugger_loop-NoQuit (machine (encode halt)) refl 999 (codes "break 0x20" ∷ codes "step" ∷ [])
      debugger_init (record { initialized = refl; running = refl }) (refl, (refl, tt))

-- PUSH 300: the byte 44 is taken for the opcode of the second instruction that is shown.
push_300_test : debugger_loop 1 (machine (encode (push (imm 300)))) [] debugger_init ≡ some fault
unfolding show_disasm disasm_instruction encode desc_pack emit64 store_list store debugger_loop
    show_state
push_300_test = refl
