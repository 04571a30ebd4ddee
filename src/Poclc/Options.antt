-- ===== src/Poclc/Options.antt =====
-- poclc/poclc_main.c: the arguments of main, the name of the output file, and the run. Reading and
-- opening of files are parameters; messages are left out.
pub mod Usage
use pocol_vm.Prelude.{
  ℕ, ◌+◌, Bool, true, false, not, ◌&&◌, ◌||◌, Option, none, some, List, [], ◌∷◌, ◌++◌, ltb, ◌==◌,
  if◌then◌else◌, length, str_eq,
}
use pocol_vm.Prelude.Text.{codes}
use pocol_vm.State.{on_option}
use pocol_vm.Poclc.Main.{Outcome, failed, written, crashed, running, compile}

-- The variables of `main` that the options set.
pub record Options : Type 0 where
  pub input_path : Option (List ℕ)
  pub output_path : Option (List ℕ)
  pub verbose : Bool

abbrev pub no_options : Options
no_options = record { input_path = none; output_path = none; verbose = false }

-- How the loop over the arguments ends: with a return of 1 or 0, or behind it.
pub data Parsed : Type 0 where
  bad_usage help : Parsed
  parsed : Options → Parsed

abbrev pub is_verbose : List ℕ → Bool
is_verbose a = str_eq a (codes "-v") || str_eq a (codes "--verbose")

abbrev pub is_help : List ℕ → Bool
is_help a = str_eq a (codes "-h") || str_eq a (codes "--help")

-- `argv[i][0] != '-'`
abbrev pub is_path : List ℕ → Bool
is_path [] = true
is_path (c ∷ cs) = not (c == b'-')

-- The test for an input file behind the loop.
abbrev pub check_input : Options → Parsed
check_input o = on_option o.input_path bad_usage (λ _. parsed o)

-- The arguments behind the program's name.
unfoldable pub parse_args : List (List ℕ) → Options → Parsed
parse_args [] o = check_input o
parse_args (a ∷ []) o =
    if str_eq a (codes "-o")
    then bad_usage
    else if is_verbose a
    then check_input (record o { verbose = true })
    else if is_help a
    then help
    else if is_path a
    then check_input (record o { input_path = some a })
    else bad_usage
parse_args (a ∷ b ∷ rest) o =
    let output = parse_args rest (record o { output_path = some b }) in
    let chatty = parse_args (b ∷ rest) (record o { verbose = true }) in
    let source = parse_args (b ∷ rest) (record o { input_path = some a }) in
    if str_eq a (codes "-o")
    then output
    else if is_verbose a
    then chatty
    else if is_help a
    then help
    else if is_path a
    then source
    else bad_usage

-- `strrchr(s, '.')`: what stands before the last dot, and the text from it on.
abbrev pub from_dot : ℕ → List ℕ → Option (List ℕ × List ℕ) → Option (List ℕ × List ℕ)
from_dot c cs none = if c == b'.' then some ([], c ∷ cs) else none
from_dot c cs (some (before, dot)) = some (c ∷ before, dot)

unfoldable pub split_dot : List ℕ → Option (List ℕ × List ℕ)
split_dot [] = none
split_dot (c ∷ cs) = from_dot c cs (split_dot cs)

-- The default name: ".pc" at the last dot becomes ".pob", else ".pob" is added.
abbrev pub with_extension : List ℕ → Option (List ℕ × List ℕ) → List ℕ
with_extension s none = s ++ codes ".pob"
with_extension s (some (before, dot)) =
    if str_eq dot (codes ".pc") then before ++ codes ".pob" else s ++ codes ".pob"

unfoldable pub default_output : List ℕ → List ℕ
default_output s = with_extension s (split_dot s)

abbrev pub output_name : List ℕ → Option (List ℕ) → List ℕ
output_name input none = default_output input
output_name input (some path) = path

-- How `main` ends: with a code and, once the output is open, its name and content; or by freeing an
-- argument, or not by a return.
pub data Ending : Type 0 where
  returns : (code : ℕ) → Option (List ℕ × List ℕ) → Ending
  bad_free : List ℕ × List ℕ → Ending
  no_return : Ending

-- `!argv[2] || strcmp(argv[1], "-o") != 0`
abbrev pub frees_path : List (List ℕ) → Bool
frees_path [] = true
frees_path (a ∷ []) = true
frees_path (a ∷ b ∷ rest) = not (str_eq a (codes "-o"))

abbrev pub is_given : Option (List ℕ) → Bool
is_given none = false
is_given (some _) = true

-- The clean-up frees the name that was allocated, or an argument.
abbrev pub clean_up : List (List ℕ) → Option (List ℕ) → List ℕ × List ℕ → Ending
clean_up args given file =
    if frees_path args && is_given given then bad_free file else returns 0 (some file)

abbrev pub finish_main : List (List ℕ) → Option (List ℕ) → (name : List ℕ) → Outcome → Ending
finish_main args given name (failed n) = returns 1 (some (name, []))
finish_main args given name (written bytes) = clean_up args given (name, bytes)
finish_main args given name crashed = no_return
finish_main args given name running = no_return

-- `read` gives the content of a file that opens, `creates` whether the output file opens.
module _ (read : List ℕ → Option (List ℕ)) (creates : List ℕ → Bool) where
  abbrev pub run_on : List (List ℕ) → Options → List ℕ → Ending
  run_on args o input =
      let name = output_name input o.output_path in
      on_option (read input) (returns 1 none) (λ bytes.
        if creates name
        then finish_main args o.output_path name (compile bytes)
        else returns 1 none)

  abbrev pub run_parsed : List (List ℕ) → Parsed → Ending
  run_parsed args bad_usage = returns 1 none
  run_parsed args help = returns 0 none
  run_parsed args (parsed o) = on_option o.input_path (returns 1 none) (run_on args o)

  unfoldable pub poclc_main : List (List ℕ) → Ending
  poclc_main args = run_parsed args (parse_args args no_options)
