-- ===== src/Debugger/Quit.antt =====
-- pm/pm.c, debugger_loop: how the interactive debugger ends.
use pocol_vm.Prelude.{
  ℕ, zero, suc, ◌≡◌, refl, sym, ap, ◌∙◌, Bool, true, false, none, some, Bool-cases, inl, inr, List,
  [], ◌∷◌, arith, ◌==◌, if◌then◌else◌, length, drop,
}
use pocol_vm.Prelude.Text.{codes}
use pocol_vm.Prelude.Int.{ℤ, pos}
use pocol_vm.State.{Vm, fault}
use pocol_vm.Debugger.{Debugger, add_breakpoint}
use pocol_vm.Debugger.Control.{debugger_continue, step_into, step_over}
use pocol_vm.Debugger.Command.{
  show_disasm, show_state, is_command, starts_with, scan_hex, debugger_command, line_command,
  on_line, is_break, resume, debugger_loop,
}

-- An initialised debugger whose loop goes on.
pub record Live (d : Debugger) : Type 0 where
  pub initialized : d.initialized ≡ true
  pub running : d.running ≡ true

-- The command quits.
abbrev pub is_quit : List ℕ → Bool
is_quit line = is_command (line_command line) (codes "q") (codes "quit")

abbrev pub NoQuit : List (List ℕ) → Type 0
NoQuit [] = Unit
NoQuit (line ∷ lines) = (is_quit line ≡ false) × NoQuit lines

Live-if : (b : Bool) (x y : Debugger) → Live x → Live y → Live (if b then x else y)
Live-if true x y p q = p
Live-if false x y p q = q

continue-Live : (d : Debugger) → Live d → Live (debugger_continue d)
unfolding debugger_continue
continue-Live d h = simp (h.initialized) (record { initialized = refl; running = refl })

step_into-Live : (d : Debugger) (n : ℤ) → Live d → Live (step_into d n)
unfolding step_into
step_into-Live d n h = simp (h.initialized) (record { initialized = refl; running = refl })

step_over-Live : (d : Debugger) (n : ℤ) → Live d → Live (step_over d n)
unfolding step_over
step_over-Live d n h = simp (h.initialized) (record { initialized = refl; running = refl })

add_breakpoint-Live : (d : Debugger) (a : ℕ) → Live d → Live (add_breakpoint d a).1
unfolding add_breakpoint
add_breakpoint-Live d a h = record {
  initialized = ground (arith, h.initialized);
  running = ground (arith, h.running);
}

command-Live :
    (d : Debugger) (cmd : List ℕ)
    → Live d
    → is_command cmd (codes "q") (codes "quit") ≡ false
    → Live (debugger_command d cmd)
unfolding debugger_command
command-Live d cmd h goes =
    Live-if (is_command cmd (codes "r") (codes "run")) _ _ (continue-Live d h) (
      Live-if (is_command cmd (codes "c") (codes "continue")) _ _ (continue-Live d h) (
        Live-if (is_command cmd (codes "s") (codes "step")) _ _ (step_into-Live d (pos 1) h) (
          Live-if (is_command cmd (codes "n") (codes "next")) _ _ (step_over-Live d (pos 1) h) (
            Live-if (starts_with (codes "break ") cmd) _ _
              (add_breakpoint-Live d (scan_hex 0 (drop 6 cmd)) h) (simp goes h)))))

resume-Live : (d : Debugger) → Live d → Live (resume d)
unfolding resume
resume-Live d h = Live-if (is_break d.mode) d (debugger_continue d) h (continue-Live d h)

on_line-Live :
    (lines : List (List ℕ)) (d : Debugger) → Live d → NoQuit lines → Live (on_line lines d)
unfolding on_line
on_line-Live [] d h goes = h
on_line-Live (line ∷ lines) d h goes =
    Live-if (length (line_command line) == 0) d _ h (command-Live d (line_command line) h goes.0)

drop-NoQuit : (lines : List (List ℕ)) → NoQuit lines → NoQuit (drop 1 lines)
drop-NoQuit [] goes = goes
drop-NoQuit (line ∷ lines) goes = goes.1

module _ {W : Type 0} (vm : Vm W) (live : vm.halt ≡ false) where
  -- While the disassembly is shown, the loop goes on.
  debugger_loop-shown :
      (f : ℕ) (lines : List (List ℕ)) (d : Debugger)
      → Live d
      → NoQuit lines
      → show_disasm vm.memory vm.pc 5 ≡ true
      → debugger_loop f vm lines d ≡ none
  unfolding debugger_loop show_state
  debugger_loop-shown zero lines d h goes shown = refl
  debugger_loop-shown (suc f) lines d h goes shown =
      simp (h.running, h.initialized, live, shown)
        (debugger_loop-shown f (drop 1 lines) (resume (on_line lines d))
          (resume-Live (on_line lines d) (on_line-Live lines d h goes)) (drop-NoQuit lines goes)
          shown)

  -- On a machine that has not halted, with a debugger that is initialised and running, and as long as
  -- no line of the input is q or quit, the interactive debugger faults in its first round or never
  -- leaves its loop, also behind the end of the input, since no command runs an instruction. It faults
  -- where one of the five instructions that it shows, every second byte from the program counter on,
  -- is past the end of memory or is no opcode.
  pub debugger_loop-NoQuit :
      (f : ℕ) (lines : List (List ℕ)) (d : Debugger)
      → Live d
      → NoQuit lines
      → debugger_loop (suc f) vm lines d
        ≡ (if show_disasm vm.memory vm.pc 5 then none else some fault)
  unfolding debugger_loop show_state
  debugger_loop-NoQuit f lines d h goes = elim (Bool-cases (show_disasm vm.memory vm.pc 5)) [
    | inl shown ↦
        debugger_loop-shown (suc f) lines d h goes shown
        ∙ sym (ap (λ b. if b then none else some fault) shown)
    | inr lost ↦ simp (h.running, h.initialized, live, lost) refl
  ]
