-- ===== src/Debugger/Reach.antt =====
-- pm/vm_debugger.c: the operations on a debugger one after another.
use pocol_vm.Prelude.{
  ℕ, ◌+◌, ◌≡◌, refl, sym, ap, Bool, true, false, not, ◌&&◌, ◌||◌, Option, none, some, List, [], ◌∷◌,
  arith, length, Bool-cases, Option-cases, inl, inr, ◌==◌, if◌then◌else◌,
}
use mathlib.Core.Option
use mathlib.Core.Path.{subst}
use pocol_vm.Prelude.Int.{ℤ}
use pocol_vm.State.{Vm}
use pocol_vm.Debugger.{
  DebugMode, mode_run, mode_step_in, mode_step_over, mode_step_out, mode_break, mode_watch,
  mode_finished, BreakPoint, WatchType, Debugger, debugger_init, debugger_free, debugger_reset,
  first_at, add_breakpoint, remove_breakpoint, switch_breakpoint, add_watchpoint, remove_watch,
  remove_watchpoint,
}
use pocol_vm.Debugger.Control.{
  debugger_run, debugger_continue, step_into, step_over, step_out, debugger_stop, hit, count_step,
  stop_by_mode, should_stop,
}
use pocol_vm.Debugger.Saved.{save_state, restore_state, clear_history}
use pocol_vm.Debugger.Break.{
  Unique, IsValid, add_breakpoint-IsValid, remove_breakpoint-IsValid, switch_breakpoint-IsValid,
}

-- One operation on a debugger.
pub data Step (W : Type 0) : Debugger → Debugger → Type 0 where
  adds : (d : Debugger) (a : ℕ) → Step W d (add_breakpoint d a).1
  removes : (d : Debugger) (a : ℕ) → Step W d (remove_breakpoint d a).1
  switches : (on : Bool) (d : Debugger) (a : ℕ) → Step W d (switch_breakpoint on d a).1
  watches : (d : Debugger) (a size : ℕ) (t : WatchType) → Step W d (add_watchpoint d a size t).1
  unwatches : (d : Debugger) (a : ℕ) → Step W d (remove_watchpoint d a).1
  resets : (d : Debugger) → Step W d (debugger_reset d)
  frees : (d : Debugger) → Step W d (debugger_free d)
  runs : (d : Debugger) → Step W d (debugger_run d)
  continues : (d : Debugger) → Step W d (debugger_continue d)
  steps_into : (d : Debugger) (c : ℤ) → Step W d (step_into d c)
  steps_over : (d : Debugger) (c : ℤ) → Step W d (step_over d c)
  steps_out : (d : Debugger) → Step W d (step_out d)
  stops : (d : Debugger) → Step W d (debugger_stop d)
  polls : (pc : ℕ) (halt : Bool) (d : Debugger) → Step W d (should_stop pc halt d).1
  saves : (vm : Vm W) (d : Debugger) → Step W d (save_state vm d)
  restores : (vm : Vm W) (d : Debugger) → Step W d (restore_state d vm).0
  clears : (d : Debugger) → Step W d (clear_history d)

-- A debugger that a sequence of operations makes of a fresh one.
pub data Reachable (W : Type 0) : Debugger → Type 0 where
  fresh : Reachable W debugger_init
  after_step : {d d' : Debugger} → Reachable W d → Step W d d' → Reachable W d'

-- A hit changes the count of a breakpoint and no address.
record Recounted (bs bs' : List BreakPoint) : Type 0 where
  absent : (j : ℕ) → first_at j bs ≡ none → first_at j bs' ≡ none
  unique : Unique bs → Unique bs'
  size : length bs' ≡ length bs

Recounted-head :
    (b : BreakPoint) (n : ℕ) (bs : List BreakPoint)
    → Recounted (b ∷ bs) (record b { hit_count = n } ∷ bs)
unfolding first_at
Recounted-head b n bs = record { absent = λ j h. ground arith; unique = λ u. u; size = omega arith }

Recounted-tail :
    (b : BreakPoint) (bs bs' : List BreakPoint) → Recounted bs bs' → Recounted (b ∷ bs) (b ∷ bs')
unfolding first_at
Recounted-tail b bs bs' r = record {
  absent = λ j h. ground (arith, r.absent j);
  unique = λ u. (r.absent b.address u.0, r.unique u.1);
  size = omega (arith, r.size);
}

abbrev Hit : List BreakPoint → Option (List BreakPoint) → Type 0
Hit bs none = Unit
Hit bs (some bs') = Recounted bs bs'

map-Hit :
    (b : BreakPoint) (bs : List BreakPoint) (o : Option (List BreakPoint))
    → Hit bs o
    → Hit (b ∷ bs) (Option.map (λ r. b ∷ r) o)
map-Hit b bs none h = tt
map-Hit b bs (some bs') h = Recounted-tail b bs bs' h

hit-Hit : (pc : ℕ) (bs : List BreakPoint) → Hit bs (hit pc bs)
unfolding hit
hit-Hit pc [] = tt
hit-Hit pc (b ∷ bs) = elim (Bool-cases (b.enabled && (b.address == pc))) [
  | inl here ↦ simp here (Recounted-head b (b.hit_count + 1) bs)
  | inr past ↦ simp past (map-Hit b bs (hit pc bs) (hit-Hit pc bs))
]

-- The same breakpoints.
same-IsValid : (d d' : Debugger) → d'.breakpoints ≡ d.breakpoints → IsValid d → IsValid d'
same-IsValid d d' e v = record {
  unique = subst Unique (sym e) v.unique;
  fits = omega (arith, ap length e, v.fits);
}

-- An operation that does nothing where the debugger is not initialised.
if-IsValid : (b : Bool) (d x : Debugger) → IsValid d → IsValid x → IsValid (if b then d else x)
if-IsValid true d x hd hx = hd
if-IsValid false d x hd hx = hx

count_step-breakpoints : (d : Debugger) → (count_step d).1.breakpoints ≡ d.breakpoints
unfolding count_step
count_step-breakpoints d = ground arith

stop_by_mode-breakpoints :
    (m : DebugMode) (d : Debugger) → (stop_by_mode m d).1.breakpoints ≡ d.breakpoints
unfolding stop_by_mode
stop_by_mode-breakpoints mode_run d = refl
stop_by_mode-breakpoints mode_step_in d = count_step-breakpoints d
stop_by_mode-breakpoints mode_step_over d = ground (arith, count_step-breakpoints d)
stop_by_mode-breakpoints mode_step_out d = ground arith
stop_by_mode-breakpoints mode_break d = refl
stop_by_mode-breakpoints mode_watch d = refl
stop_by_mode-breakpoints mode_finished d = refl

should_stop-IsValid :
    (pc : ℕ) (halt : Bool) (d : Debugger) → IsValid d → IsValid (should_stop pc halt d).1
unfolding should_stop
should_stop-IsValid pc halt d v = elim (Bool-cases (not d.initialized || not d.running)) [
  | inl off ↦ simp off v
  | inr on ↦ elim (Bool-cases halt) [
    | inl halted ↦ simp (on, halted) v
    | inr goes ↦ elim (Option-cases (hit pc d.breakpoints)) [
      | inl no_hit ↦
          simp (on, goes, no_hit)
            (same-IsValid d (stop_by_mode d.mode d).1 (stop_by_mode-breakpoints d.mode d) v)
      | inr (bs, e) ↦
          let r = subst (Hit d.breakpoints) e (hit-Hit pc d.breakpoints) in
          simp (on, goes, e)
            (record { unique = r.unique v.unique; fits = omega (arith, r.size, v.fits) })
    ]
  ]
]

remove_watchpoint-IsValid : (d : Debugger) (a : ℕ) → IsValid d → IsValid (remove_watchpoint d a).1
unfolding remove_watchpoint
remove_watchpoint-IsValid d a v = elim (Bool-cases d.initialized) [
  | inr off ↦ simp off v
  | inl on ↦ elim (Option-cases (remove_watch a d.watchpoints)) [
    | inl absent ↦ simp (on, absent) v
    | inr (ws, found) ↦ simp (on, found) (record { unique = v.unique; fits = v.fits })
  ]
]

Step-IsValid : {W : Type 0} {d d' : Debugger} → Step W d d' → IsValid d → IsValid d'
unfolding debugger_reset debugger_free debugger_run debugger_continue step_into step_over step_out
    debugger_stop add_watchpoint save_state restore_state clear_history
Step-IsValid (adds d a) v = add_breakpoint-IsValid d a v
Step-IsValid (removes d a) v = remove_breakpoint-IsValid d a v
Step-IsValid (switches on d a) v = switch_breakpoint-IsValid on d a v
Step-IsValid (watches d a size t) v = same-IsValid d _ (ground arith) v
Step-IsValid (unwatches d a) v = remove_watchpoint-IsValid d a v
Step-IsValid (resets d) v =
    if-IsValid (not d.initialized) d _ v (record { unique = tt; fits = omega arith })
Step-IsValid (frees d) v = same-IsValid d _ refl v
Step-IsValid (runs d) v = same-IsValid d _ (ground arith) v
Step-IsValid (continues d) v = same-IsValid d _ (ground arith) v
Step-IsValid (steps_into d c) v = same-IsValid d _ (ground arith) v
Step-IsValid (steps_over d c) v = same-IsValid d _ (ground arith) v
Step-IsValid (steps_out d) v = same-IsValid d _ (ground arith) v
Step-IsValid (stops d) v = same-IsValid d _ (ground arith) v
Step-IsValid (polls pc halt d) v = should_stop-IsValid pc halt d v
Step-IsValid (saves vm d) v = same-IsValid d _ (ground arith) v
Step-IsValid (restores vm d) v = same-IsValid d _ (ground arith) v
Step-IsValid (clears d) v = same-IsValid d _ (ground arith) v

-- Whatever operations follow the start of a debugger, in whatever order, no two breakpoints have one
-- address and their number is within the array.
pub Reachable-IsValid : {W : Type 0} {d : Debugger} → Reachable W d → IsValid d
Reachable-IsValid fresh = record { unique = tt; fits = omega arith }
Reachable-IsValid (after_step r s) = Step-IsValid s (Reachable-IsValid r)
