-- ===== src/Debugger/Saved.antt =====
-- pm/vm_debugger.c: debugger_save_state, debugger_restore_state and debugger_clear_history.
use pocol_vm.Prelude.{true, ◌+◌, ◌%◌, not, ◌||◌, ltb, ◌==◌, if◌then◌else◌, arith, ◌≡◌}
use pocol_vm.State.{Vm}
use pocol_vm.Debugger.{ExecutionState, Debugger, debug_max_history}

module _ {W : Type 0} where
  -- The snapshot of the machine over an older one, whose stack words beyond the count stay.
  unfoldable pub snapshot : Vm W → ExecutionState → ExecutionState
  snapshot vm old = record {
    pc = vm.pc;
    registers = vm.registers;
    sp = vm.sp;
    stack = λ i. if ltb i (if ltb vm.sp 16 then vm.sp else 16) then vm.stack i else old.stack i;
    stack_count = if ltb vm.sp 16 then vm.sp else 16;
    instruction_count = old.instruction_count;
  }

  unfoldable pub save_state : Vm W → Debugger → Debugger
  unfolding snapshot
  save_state vm d =
      if not d.initialized
      then d
      else (let now = snapshot vm d.current_state in
          record d {
            previous_state = d.current_state;
            current_state = now;
            history = λ i. if d.history_index % debug_max_history == i then now else d.history i;
            history_index = d.history_index + 1;
            history_count =
                if ltb d.history_count debug_max_history
                then d.history_count + 1
                else d.history_count;
          })

  unfoldable pub restore_state : Debugger → Vm W → Debugger × Vm W
  restore_state d vm = if not d.initialized || (d.history_count == 0) then (d, vm) else (
    record d { current_state = d.previous_state },
    record vm {
      pc = d.previous_state.pc;
      registers = d.previous_state.registers;
      sp = d.previous_state.sp;
    },
  )

unfoldable pub clear_history : Debugger → Debugger
clear_history d = if not d.initialized then d else record d { history_index = 0; history_count = 0 }

-- Going back after two saves gives the machine the program counter, the registers and the stack
-- pointer that it had at the first of them; its memory and stack are those of now.
pub restore_state-save_state :
    {W : Type 0} (d : Debugger) (first second now : Vm W)
    → d.initialized ≡ true
    → (restore_state (save_state second (save_state first d)) now).1
      ≡ record now { pc = first.pc; registers = first.registers; sp = first.sp }
unfolding restore_state save_state snapshot
restore_state-save_state d first second now on = ground arith
