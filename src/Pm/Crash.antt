-- ===== src/Pm/Crash.antt =====
-- pm/pm.c with pm/vm.c: pm on files that the loader refuses.
use pocol_vm.Prelude.{ℕ, ◌≡◌, refl, Option, some, List}
use pocol_vm.Host.{Host}
use pocol_vm.State.{Vm, Cmd}
use pocol_vm.Vm.Start.{Refused, load_program-null}
use pocol_vm.Jit.Compile.{Layout}
use pocol_vm.Pm.{PmOptions, pm_options, parse_arguments, crashed, pm_main}

module _ {W : Type 0} (host : Host W) (layout : Layout)
    (run_code : List ℕ → Cmd (Vm W) (Unit {0})) where
  -- Whatever the options, pm crashes on a program that is missing or that the loader refuses: the
  -- error path of the loader reads through the pointer that main sets to NULL.
  pub pm_main-Refused :
      (read : List ℕ → Option (List ℕ)) (now : ℕ) (w : W) (fuel magic_size buffer : ℕ)
      (lines args : List (List ℕ)) (o : PmOptions) (path : List ℕ)
      → parse_arguments args pm_options ≡ some o
      → o.program_path ≡ some path
      → Refused (read path)
      → pm_main host layout run_code read now w fuel magic_size buffer lines args ≡ crashed
  unfolding pm_main
  pm_main-Refused read now w fuel magic_size buffer lines args o path e p r =
      simp (e, p, load_program-null now w r) refl
