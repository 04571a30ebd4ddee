-- ===== src/Pm.antt =====
-- pm/pm.c: main. Files, the processor and the addresses in compiled code are parameters; messages and
-- the statistics are left out.
pub mod Crash
use pocol_vm.Prelude.{
  ℕ, zero, suc, ◌+◌, ◌-◌, ◌^◌, Bool, true, false, not, ◌&&◌, ◌||◌, Option, none, some, List, [],
  ◌∷◌, ltb, leb, ◌==◌, if◌then◌else◌, length, drop, str_eq, wrap32,
}
use pocol_vm.Prelude.Text.{codes}
use pocol_vm.Prelude.Int.{ℤ, pos, negsuc}
use pocol_vm.Host.{Host}
use pocol_vm.State.{Err, err_code, Vm, Run, done, exits, fault, Cmd, on_option}
use pocol_vm.Vm.Loop.{execute_loop}
use pocol_vm.Vm.Load.{Loaded, loaded, rejected, load_fault, load_program}
use pocol_vm.Assembler.Lexer.{is_space, digits}
use pocol_vm.Debugger.{Debugger, debugger_init, add_breakpoint}
use pocol_vm.Debugger.Command.{starts_with, scan_hex, debugger_loop}
use pocol_vm.Jit.Compile.{Layout}
use pocol_vm.Jit.Execute.{Jitted, execute_program_jit}

-- `atoi`: the pattern of strtol's `long`, cut to an `int`.
abbrev pub to_int : ℕ → ℤ
to_int p = if ltb p (2 ^ 31) then pos p else negsuc (2 ^ 32 - 1 - p)

abbrev pub positive : ℕ → ℤ
positive n = to_int (wrap32 (if ltb n (2 ^ 63) then n else 2 ^ 63 - 1))

abbrev pub negative : ℕ → ℤ
negative n = to_int (wrap32 (if leb n (2 ^ 63) then 2 ^ 64 - n else 2 ^ 63))

abbrev pub number_in : List ℕ → ℕ
number_in s = (digits s 0 0).1

unfoldable pub atoi : List ℕ → ℤ
atoi [] = pos 0
atoi (c ∷ cs) =
    let rest = atoi cs in
    if is_space c
    then rest
    else if c == b'-'
    then negative (number_in cs)
    else if c == b'+'
    then positive (number_in cs)
    else positive (number_in (c ∷ cs))

-- The variables of `main` that the arguments set.
pub record PmOptions : Type 0 where
  pub jit_enabled : Bool
  pub show_stats : Bool
  pub debug_enabled : Bool
  pub program_path : Option (List ℕ)
  pub limit : ℤ
  pub initial_break : ℕ

abbrev pub no_break : ℕ
no_break = 0xFFFFFFFF

abbrev pub pm_options : PmOptions
pm_options = record {
  jit_enabled = false;
  show_stats = false;
  debug_enabled = false;
  program_path = none;
  limit = negsuc 0;
  initial_break = no_break;
}

abbrev pub is_dash : List ℕ → Bool
is_dash [] = false
is_dash (c ∷ cs) = c == b'-'

-- The first path is the program, a later one the limit.
abbrev pub set_path : Option (List ℕ) → List ℕ → PmOptions → PmOptions
set_path none a o = record o { program_path = some a }
set_path (some _) a o = record o { limit = atoi a }

-- One argument; `none` for an unknown option.
unfoldable pub set_argument : List ℕ → PmOptions → Option PmOptions
unfolding atoi
set_argument a o =
    if str_eq a (codes "--jit")
    then some (record o { jit_enabled = true })
    else if str_eq a (codes "--stats")
    then some (record o { show_stats = true })
    else if str_eq a (codes "--debug")
    then some (record o { debug_enabled = true })
    else if starts_with (codes "--break=") a
    then some (record o { initial_break = scan_hex o.initial_break (drop 8 a) })
    else if is_dash a
    then none
    else some (set_path o.program_path a o)

-- The loop over the arguments; `none` is the return of 1.
unfoldable pub parse_arguments : List (List ℕ) → PmOptions → Option PmOptions
parse_arguments [] o = some o
parse_arguments (a ∷ rest) o = on_option (set_argument a o) none (parse_arguments rest)

-- How `main` ends.
pub data PmEnd : Type 0 where
  returned exited : ℕ → PmEnd
  crashed : PmEnd
  running : PmEnd

module _ {W : Type 0} where
  abbrev pub returns_err : Option (Run (Vm W) Err) → PmEnd
  returns_err none = running
  returns_err (some (done e vm)) = returned (err_code e)
  returns_err (some (exits k vm)) = exited k
  returns_err (some fault) = crashed

  abbrev pub returns_jit : Option (Run (Jitted W) Err) → PmEnd
  returns_jit none = running
  returns_jit (some (done e s)) = returned (err_code e)
  returns_jit (some (exits k s)) = exited k
  returns_jit (some fault) = crashed

abbrev pub returns_ok : Option (Run Debugger (Unit {0})) → PmEnd
returns_ok none = running
returns_ok (some (done _ d)) = returned 0
returns_ok (some (exits k d)) = exited k
returns_ok (some fault) = crashed

-- The debugger with its first breakpoint, if one is given.
abbrev pub start_debugger : ℕ → Debugger
start_debugger address =
    if address == no_break then debugger_init else (add_breakpoint debugger_init address).1

module _ {W : Type 0} (host : Host W) (layout : Layout)
    (run_code : List ℕ → Cmd (Vm W) (Unit {0})) where
  -- `lines` is standard input, as `fgets` reads it; the other numbers are fuel, where the optimiser
  -- starts, and the address of the code buffer.
  unfoldable pub run_program :
      (fuel magic_size buffer : ℕ) → (lines : List (List ℕ)) → PmOptions → Vm W → PmEnd
  run_program fuel magic_size buffer lines o vm =
      if o.debug_enabled
      then returns_ok (debugger_loop fuel vm lines (start_debugger o.initial_break))
      else if o.jit_enabled
      then returns_jit
          (execute_program_jit host layout run_code fuel fuel magic_size buffer o.limit none vm)
      else returns_err (execute_loop host fuel o.limit vm)

  -- A refused file leaves `err` at ERR_OK.
  abbrev pub run_loaded :
      (fuel magic_size buffer : ℕ) → (lines : List (List ℕ)) → PmOptions → Loaded W → PmEnd
  run_loaded fuel magic_size buffer lines o (loaded vm) =
      run_program fuel magic_size buffer lines o vm
  run_loaded fuel magic_size buffer lines o rejected = returned 0
  run_loaded fuel magic_size buffer lines o load_fault = crashed

  -- `read` gives the content of a file that opens; `now` and `w` are the time and the world.
  unfoldable pub pm_main :
      (read : List ℕ → Option (List ℕ)) (now : ℕ) (w : W)
      → (fuel magic_size buffer : ℕ) → (lines args : List (List ℕ)) → PmEnd
  pm_main read now w fuel magic_size buffer lines args =
      on_option (parse_arguments args pm_options) (returned 1) (λ o.
        on_option o.program_path (returned 1)
          (λ path. run_loaded fuel magic_size buffer lines o (load_program none now w (read path))))
