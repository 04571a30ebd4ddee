-- ===== src/Debugger/Control.antt =====
-- pm/vm_debugger.c: execution control, and debugger_should_stop.
use mathlib.Core.Option
use pocol_vm.Prelude.{
  ℕ, zero, suc, ◌+◌, Bool, true, false, not, ◌&&◌, ◌||◌, Option, none, some, List, [], ◌∷◌, ltb,
  leb, ◌==◌, if◌then◌else◌,
}
use pocol_vm.Prelude.Int.{ℤ, pos, negsuc}
use pocol_vm.Debugger.{
  DebugMode, mode_run, mode_step_in, mode_step_over, mode_step_out, mode_break, BreakPoint,
  Debugger,
}

unfoldable pub debugger_run : Debugger → Debugger
debugger_run d = if not d.initialized then d else record d { mode = mode_run; running = true }

unfoldable pub debugger_continue : Debugger → Debugger
debugger_continue d =
    if not d.initialized
    then d
    else record d { mode = mode_run; running = true; steps_remaining = pos 0 }

unfoldable pub step_into : Debugger → ℤ → Debugger
step_into d count =
    if not d.initialized
    then d
    else record d { mode = mode_step_in; running = true; steps_remaining = count }

unfoldable pub step_over : Debugger → ℤ → Debugger
step_over d count = if not d.initialized then d else record d {
  mode = mode_step_over;
  running = true;
  steps_remaining = count;
  call_depth_target = d.call_stack_depth;
}

unfoldable pub step_out : Debugger → Debugger
step_out d = if not d.initialized then d else record d { mode = mode_step_out; running = true }

unfoldable pub debugger_stop : Debugger → Debugger
debugger_stop d = if not d.initialized then d else record d { running = false; mode = mode_break }

-- `steps_remaining--` and `steps_remaining <= 0`
unfoldable pub minus_one : ℤ → ℤ
minus_one (pos zero) = negsuc 0
minus_one (pos (suc n)) = pos n
minus_one (negsuc n) = negsuc (suc n)

unfoldable pub not_positive : ℤ → Bool
not_positive (pos zero) = true
not_positive (pos (suc n)) = false
not_positive (negsuc n) = true

-- The first enabled breakpoint at `pc` counts a hit; `none` if there is none.
unfoldable pub hit : ℕ → List BreakPoint → Option (List BreakPoint)
hit pc [] = none
hit pc (b ∷ bs) =
    if b.enabled && (b.address == pc)
    then some (record b { hit_count = b.hit_count + 1 } ∷ bs)
    else Option.map (λ r. b ∷ r) (hit pc bs)

-- One step fewer, and a stop when none is left.
unfoldable pub count_step : Debugger → Bool × Debugger
count_step d =
    if not_positive (minus_one d.steps_remaining)
    then (true, record d { steps_remaining = minus_one d.steps_remaining; mode = mode_break })
    else (false, record d { steps_remaining = minus_one d.steps_remaining })

-- The tests on the mode, once no breakpoint was hit.
unfoldable pub stop_by_mode : DebugMode → Debugger → Bool × Debugger
stop_by_mode mode_step_in d = count_step d
stop_by_mode mode_step_over d =
    if leb d.call_stack_depth d.call_depth_target then count_step d else (false, d)
stop_by_mode mode_step_out d =
    if ltb d.call_stack_depth d.call_depth_target
    then (true, record d { mode = mode_break })
    else (false, d)
stop_by_mode _ d = (false, d)

-- `pc` and `halt` are those of the machine.
unfoldable pub should_stop : (pc : ℕ) (halt : Bool) → Debugger → Bool × Debugger
should_stop pc halt d =
    if not d.initialized || not d.running
    then (true, d)
    else if halt
    then (true, d)
    else elim (hit pc d.breakpoints) [
      | some bs ↦ (true, record d { breakpoints = bs; mode = mode_break })
      | none ↦ stop_by_mode d.mode d
    ]
