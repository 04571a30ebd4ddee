-- ===== src/Tests/Pm.antt =====
-- pm on a program that is not there.
use pocol_vm.Prelude.{ℕ, ◌≡◌, refl, true, Option, none, some, List, [], ◌∷◌}
use pocol_vm.Prelude.Text.{codes}
use pocol_vm.Vm.Start.{missing}
use pocol_vm.Pm.{pm_options, set_argument, parse_arguments, crashed, pm_main}
use pocol_vm.Pm.Crash.{pm_main-Refused}
use pocol_vm.Tests.Console.{console_host}
use pocol_vm.Tests.Jit.{layout, idle}

abbrev no_files : List ℕ → Option (List ℕ)
no_files _ = none

abbrev arguments : List (List ℕ)
arguments = codes "--jit" ∷ codes "a.pob" ∷ []

pm_main-Refused_example :
    pm_main console_host layout idle no_files 0 [] 10 0 1048576 [] arguments ≡ crashed
unfolding parse_arguments set_argument
pm_main-Refused_example =
    pm_main-Refused console_host layout idle no_files 0 [] 10 0 1048576 [] arguments
      (record pm_options { jit_enabled = true; program_path = some (codes "a.pob") })
      (codes "a.pob") refl refl missing
