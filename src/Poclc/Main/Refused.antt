-- ===== src/Poclc/Main/Refused.antt =====
-- poclc/poclc.c against pm/vm.c: the loader at the files that the generator writes.
use pocol_vm.Prelude.{ℕ, ◌≡◌, inl, inr, refl, Option, some, List, ◌++◌, length, Bool-cases, ltb}
use pocol_vm.Machine.{emit64}
use pocol_vm.State.{Vm}
use pocol_vm.Vm.Load.{header_size, read_header, give_up, load_code, load_read, load_program}
use pocol_vm.Poclc.Ast.{Nodes}
use pocol_vm.Poclc.Generate.{pocol_magic, generate_code}

module _ {W : Type 0} where
  load_read-magic :
      (old : Option (Vm W)) (now : ℕ) (w : W) (rest : List ℕ)
      → load_read old now w (read_header (emit64 pocol_magic ++ rest)) ≡ give_up old
  unfolding load_read read_header load_code emit64
  load_read-magic old now w rest =
      elim (Bool-cases (ltb (length (emit64 pocol_magic ++ rest)) header_size)) [
        | inl short ↦ simp short refl
        | inr long ↦ simp long refl
      ]

  -- The loader of pm refuses every file that the generator writes, whatever the program is: it
  -- returns -1 if the caller's pointer is to a machine, and reads through NULL if it is NULL.
  pub load_program-generate_code :
      (old : Option (Vm W)) (now : ℕ) (w : W) (program : Nodes)
      → load_program old now w (some (generate_code program)) ≡ give_up old
  unfolding load_program generate_code
  load_program-generate_code old now w program = load_read-magic old now w _
