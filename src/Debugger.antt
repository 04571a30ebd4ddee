-- ===== src/Debugger.antt =====
-- pm/vm_debugger.h and pm/vm_debugger.c: breakpoints, watchpoints, execution control and the saved
-- states. The context pointer is not NULL. A prefix of an array with its count is a list; what a
-- function returns as an index or -1 is an option. The printing functions are not here.
pub mod Break
pub mod Control
pub mod Command
pub mod Quit
pub mod Saved
pub mod Stops
pub mod Reach
use pocol_vm.Prelude.{
  ℕ, zero, suc, ◌+◌, ◌-◌, ◌%◌, Bool, true, false, not, ◌&&◌, ◌||◌, Option, none, some, List, [],
  ◌∷◌, ◌++◌, ltb, leb, ◌==◌, if◌then◌else◌, length,
}
use pocol_vm.Prelude.Int.{ℤ, pos, negsuc}
use pocol_vm.State.{Vm}

abbrev pub debug_max_breakpoints : ℕ
debug_max_breakpoints = 64

abbrev pub debug_max_watchpoints : ℕ
debug_max_watchpoints = 32

abbrev pub debug_max_history : ℕ
debug_max_history = 256

-- `DebugMode`
pub data DebugMode : Type 0 where
  mode_run mode_step_in mode_step_over mode_step_out mode_break mode_watch mode_finished : DebugMode

pub record BreakPoint : Type 0 where
  pub address : ℕ
  pub enabled : Bool
  pub one_shot : Bool
  pub hit_count : ℕ

pub data WatchType : Type 0 where
  watch_read watch_write watch_access : WatchType

pub record WatchPoint : Type 0 where
  pub address : ℕ
  pub size : ℕ
  pub type : WatchType
  pub enabled : Bool
  pub hit_count : ℕ

-- `ExecutionState`, with its array of 16 stack words
pub record ExecutionState : Type 0 where
  pub pc : ℕ
  pub registers : ℕ → ℕ
  pub sp : ℕ
  pub stack : ℕ → ℕ
  pub stack_count : ℕ
  pub instruction_count : ℕ

-- `DebuggerContext`, without the display flags. No code allocates a call frame.
pub record Debugger : Type 0 where
  pub mode : DebugMode
  pub running : Bool
  pub initialized : Bool
  pub breakpoints : List BreakPoint
  pub watchpoints : List WatchPoint
  pub current_state : ExecutionState
  pub previous_state : ExecutionState
  pub call_stack_depth : ℕ
  pub history : ℕ → ExecutionState
  pub history_index : ℕ
  pub history_count : ℕ
  pub steps_remaining : ℤ
  pub call_depth_target : ℕ

abbrev pub zero_state : ExecutionState
zero_state = record {
  pc = 0;
  registers = λ _. 0;
  sp = 0;
  stack = λ _. 0;
  stack_count = 0;
  instruction_count = 0;
}

abbrev pub debugger_init : Debugger
debugger_init = record {
  mode = mode_run;
  running = true;
  initialized = true;
  breakpoints = [];
  watchpoints = [];
  current_state = zero_state;
  previous_state = zero_state;
  call_stack_depth = 0;
  history = λ _. zero_state;
  history_index = 0;
  history_count = 0;
  steps_remaining = pos 0;
  call_depth_target = 0;
}

unfoldable pub debugger_free : Debugger → Debugger
debugger_free d = record d { initialized = false }

unfoldable pub debugger_reset : Debugger → Debugger
debugger_reset d = if not d.initialized then d else record d {
  mode = mode_run;
  running = true;
  steps_remaining = pos 0;
  breakpoints = [];
  watchpoints = [];
  history_index = 0;
  history_count = 0;
}

-- The index of the first breakpoint at an address, from `i` on.
unfoldable pub index_of : ℕ → ℕ → List BreakPoint → Option ℕ
index_of addr i [] = none
index_of addr i (b ∷ bs) = if b.address == addr then some i else index_of addr (i + 1) bs

-- `breakpoints[i].enabled = on` at the first breakpoint with the address.
unfoldable pub set_enabled : ℕ → Bool → List BreakPoint → List BreakPoint
set_enabled addr on [] = []
set_enabled addr on (b ∷ bs) =
    if b.address == addr then record b { enabled = on } ∷ bs else b ∷ set_enabled addr on bs

-- The entries behind the first breakpoint with the address move up.
unfoldable pub remove_first : ℕ → List BreakPoint → List BreakPoint
remove_first addr [] = []
remove_first addr (b ∷ bs) = if b.address == addr then bs else b ∷ remove_first addr bs

unfoldable pub first_at : ℕ → List BreakPoint → Option BreakPoint
first_at addr [] = none
first_at addr (b ∷ bs) = if b.address == addr then some b else first_at addr bs

unfoldable pub find_breakpoint : Debugger → ℕ → Option BreakPoint
find_breakpoint d addr = if not d.initialized then none else first_at addr d.breakpoints

abbrev pub new_breakpoint : ℕ → BreakPoint
new_breakpoint addr = record { address = addr; enabled = true; one_shot = false; hit_count = 0 }

unfoldable pub add_breakpoint : Debugger → ℕ → Option ℕ × Debugger
add_breakpoint d addr =
    if not d.initialized
    then (none, d)
    else if leb debug_max_breakpoints (length d.breakpoints)
    then (none, d)
    else elim (index_of addr 0 d.breakpoints) [
      | some i ↦ (some i, record d { breakpoints = set_enabled addr true d.breakpoints })
      | none ↦ (
        some (length d.breakpoints),
        record d { breakpoints = d.breakpoints ++ new_breakpoint addr ∷ [] },
      )
    ]

-- `true` for 0, `false` for -1.
unfoldable pub remove_breakpoint : Debugger → ℕ → Bool × Debugger
remove_breakpoint d addr =
    if not d.initialized then (false, d) else elim (index_of addr 0 d.breakpoints) [
      | none ↦ (false, d)
      | some i ↦ (true, record d { breakpoints = remove_first addr d.breakpoints })
    ]

abbrev pub switch_found : Bool → Debugger → ℕ → Option BreakPoint → Bool × Debugger
switch_found on d addr none = (false, d)
switch_found on d addr (some _) =
    (true, record d { breakpoints = set_enabled addr on d.breakpoints })

unfoldable pub switch_breakpoint : Bool → Debugger → ℕ → Bool × Debugger
switch_breakpoint on d addr = switch_found on d addr (find_breakpoint d addr)

unfoldable pub enable_breakpoint : Debugger → ℕ → Bool × Debugger
enable_breakpoint = switch_breakpoint true

unfoldable pub disable_breakpoint : Debugger → ℕ → Bool × Debugger
disable_breakpoint = switch_breakpoint false

unfoldable pub add_watchpoint : Debugger → (addr size : ℕ) → WatchType → Option ℕ × Debugger
add_watchpoint d addr size type =
    if not d.initialized
    then (none, d)
    else if leb debug_max_watchpoints (length d.watchpoints)
    then (none, d)
    else (
      some (length d.watchpoints),
      record d {
        watchpoints =
            d.watchpoints
            ++ record { address = addr; size = size; type = type; enabled = true; hit_count = 0 }
              ∷ [];
      },
    )

unfoldable pub remove_watch : ℕ → List WatchPoint → Option (List WatchPoint)
remove_watch addr [] = none
remove_watch addr (w ∷ ws) =
    if w.address == addr
    then some ws
    else elim (remove_watch addr ws) [ none ↦ none | some ws' ↦ some (w ∷ ws') ]

unfoldable pub remove_watchpoint : Debugger → ℕ → Bool × Debugger
remove_watchpoint d addr =
    if not d.initialized then (false, d) else elim (remove_watch addr d.watchpoints) [
      | none ↦ (false, d)
      | some ws ↦ (true, record d { watchpoints = ws })
    ]
