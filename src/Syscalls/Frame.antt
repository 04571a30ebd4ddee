-- ===== src/Syscalls/Frame.antt =====
-- pm/vm_syscalls.c: the handlers act on the machine only by what `Closed` names.
use pocol_vm.Prelude.{
  ℕ, zero, suc, ◌+◌, ◌-◌, ◌≤◌, ◌<◌, ◌≡◌, refl, Bool, true, false, List, [], arith, length,
  Bool-cases, inl, inr, leb, ◌==◌, if◌then◌else◌, wrap32,
}
use mathlib.Core.Path.{subst}
use pocol_vm.Machine.{memory_size}
use pocol_vm.Host.{Host, AllBytes, OptionBytes, IsHost, stdin, stdout}
use pocol_vm.State.{err_code, illegal_inst_access, Slot, Vm, on_done, on_fault, Ensures-and_then}
use pocol_vm.Vfs.{set_slot, set_world, vfs_max_files, vfs_max_path}
use pocol_vm.Syscalls.Context.{
  enosys, out_of_range, path_length, set_error, set_return, fail, bad_fd, copy_path,
}
use pocol_vm.Syscalls.Handlers.{
  sys_exit, sys_print, sys_read, file_index, sys_open, sys_close, sys_write, sys_read_file,
  sys_seek, sys_tell, sys_time, sys_sleep, sys_chdir, sys_getcwd, sys_mkdir, sys_system,
}
use pocol_vm.Syscalls.Dispatch.{dispatch}
use pocol_vm.Syscalls.Keeps.{
  Closed, Keeps, if-Keeps, on_option-Keeps, on_slot-Keeps, faults-Keeps, read_into-Keeps,
  write_from-Keeps, vfs_open-Keeps, vfs_close-Keeps, vfs_read-Keeps, vfs_write-Keeps,
  vfs_seek-Keeps, vfs_tell-Keeps,
}

module _ {W : Type 0} (P : Vm W → Type 0) where
  fail-Keeps : (e : ℕ) → Keeps P (fail e)
  unfolding fail set_error
  fail-Keeps e c p = on_done p

  copy_path-Keeps : (ptr len : ℕ) → Keeps P (copy_path ptr len)
  unfolding copy_path
  copy_path-Keeps ptr len c p = elim (Bool-cases (leb (ptr + len) memory_size)) [
    | inl fits ↦ simp fits (on_done p)
    | inr out ↦ simp out on_fault
  ]

  file_index-Keeps : (files : ℕ → Slot) (i k j : ℕ) → Keeps P (file_index files i k j)
  unfolding file_index set_return
  file_index-Keeps files i zero j c p = on_done p
  file_index-Keeps files i (suc k) j c p =
      if-Keeps P (i == j) (λ c p. on_done p)
        (on_slot-Keeps P (files j) (file_index-Keeps files i k (j + 1))
          (λ f. file_index-Keeps files i k (j + 1)) (faults-Keeps P))
        c p

  module _ (host : Host W) (promises : IsHost host) (closed : Closed P) where
    sys_exit-Keeps : Keeps P sys_exit
    unfolding sys_exit set_return
    sys_exit-Keeps c p = on_done (closed.halt _ p)

    sys_print-Keeps : Keeps P (sys_print host)
    unfolding sys_print set_return set_world
    sys_print-Keeps o =
        if-Keeps P (out_of_range o.ctx.arg1 o.ctx.arg2) (fail-Keeps _)
          (λ c p.
            Ensures-and_then
              (write_from-Keeps P host promises closed stdout o.ctx.arg1 o.ctx.arg2 c p)
              λ n c' p'. on_done (closed.world _ _ p'))
          o

    sys_read-Keeps : Keeps P (sys_read host)
    unfolding sys_read set_return
    sys_read-Keeps o =
        if-Keeps P (out_of_range o.ctx.arg1 o.ctx.arg2) (fail-Keeps _)
          (λ c p.
            Ensures-and_then
              (read_into-Keeps P host promises closed stdin o.ctx.arg1 o.ctx.arg2 c p)
              λ n c' p'. on_done p')
          o

    sys_open-Keeps : Keeps P (sys_open host)
    unfolding sys_open
    sys_open-Keeps o =
        if-Keeps P (out_of_range o.ctx.arg1 o.ctx.arg2) (fail-Keeps _)
          (λ c p.
            Ensures-and_then (copy_path-Keeps o.ctx.arg1 (path_length o.ctx.arg2) c p) λ path c' p'.
              Ensures-and_then
                (vfs_open-Keeps P host promises closed path (wrap32 o.ctx.arg3) c' p')
                λ file c'' p''.
                  on_option-Keeps P file (λ c p. fail-Keeps _ c p)
                    (λ i e c p. file_index-Keeps c.ctx.vfs.files i vfs_max_files 0 c p) c'' p'')
          o

    sys_close-Keeps : Keeps P (sys_close host)
    unfolding sys_close set_return set_slot
    sys_close-Keeps o =
        if-Keeps P (bad_fd (wrap32 o.ctx.arg1) o) (fail-Keeps _)
          (λ c p.
            Ensures-and_then (vfs_close-Keeps P host promises closed (wrap32 o.ctx.arg1) c p)
              λ r c' p'. on_done p')
          o

    sys_write-Keeps : Keeps P (sys_write host)
    unfolding sys_write set_return
    sys_write-Keeps o =
        if-Keeps P (bad_fd (wrap32 o.ctx.arg1) o) (fail-Keeps _)
          (if-Keeps P (out_of_range o.ctx.arg2 o.ctx.arg3) (fail-Keeps _) (λ c p.
            Ensures-and_then
              (vfs_write-Keeps P host promises closed (wrap32 o.ctx.arg1) o.ctx.arg2 o.ctx.arg3 c p)
              λ r c' p'. on_done p'))
          o

    sys_read_file-Keeps : Keeps P (sys_read_file host)
    unfolding sys_read_file set_return
    sys_read_file-Keeps o =
        if-Keeps P (bad_fd (wrap32 o.ctx.arg1) o) (fail-Keeps _)
          (if-Keeps P (out_of_range o.ctx.arg2 o.ctx.arg3) (fail-Keeps _) (λ c p.
            Ensures-and_then
              (vfs_read-Keeps P host promises closed (wrap32 o.ctx.arg1) o.ctx.arg2 o.ctx.arg3 c p)
              λ r c' p'. on_done p'))
          o

    sys_seek-Keeps : Keeps P (sys_seek host)
    unfolding sys_seek set_return
    sys_seek-Keeps o =
        if-Keeps P (bad_fd (wrap32 o.ctx.arg1) o) (fail-Keeps _)
          (λ c p.
            Ensures-and_then
              (vfs_seek-Keeps P host promises closed (wrap32 o.ctx.arg1) o.ctx.arg2
                (wrap32 o.ctx.arg3) c p)
              λ r c' p'. on_done p')
          o

    sys_tell-Keeps : Keeps P (sys_tell host)
    unfolding sys_tell set_return
    sys_tell-Keeps o =
        if-Keeps P (bad_fd (wrap32 o.ctx.arg1) o) (fail-Keeps _)
          (λ c p.
            Ensures-and_then (vfs_tell-Keeps P host promises closed (wrap32 o.ctx.arg1) c p)
              λ r c' p'. on_done p')
          o

    sys_time-Keeps : Keeps P (sys_time host)
    unfolding sys_time set_return set_world
    sys_time-Keeps c p = on_done (closed.world _ _ p)

    sys_sleep-Keeps : Keeps P (sys_sleep host)
    unfolding sys_sleep set_return set_world
    sys_sleep-Keeps c p = on_done (closed.world _ _ p)

    sys_chdir-Keeps : Keeps P (sys_chdir host)
    unfolding sys_chdir set_return set_world
    sys_chdir-Keeps o =
        if-Keeps P (leb memory_size o.ctx.arg1) (fail-Keeps _)
          (λ c p.
            Ensures-and_then (copy_path-Keeps o.ctx.arg1 (path_length o.ctx.arg2) c p)
              λ path c' p'. on_done (closed.world _ _ p'))
          o

    sys_mkdir-Keeps : Keeps P (sys_mkdir host)
    unfolding sys_mkdir set_return
    sys_mkdir-Keeps o =
        if-Keeps P (leb memory_size o.ctx.arg1) (fail-Keeps _)
          (λ c p.
            Ensures-and_then (copy_path-Keeps o.ctx.arg1 (path_length o.ctx.arg2) c p)
              λ path c' p'. on_done (closed.world _ _ p'))
          o

    sys_system-Keeps : Keeps P (sys_system host)
    unfolding sys_system set_return set_world
    sys_system-Keeps o =
        if-Keeps P (leb memory_size o.ctx.arg1) (fail-Keeps _)
          (λ c p.
            Ensures-and_then (copy_path-Keeps o.ctx.arg1 (path_length o.ctx.arg2) c p)
              λ path c' p'. on_done (closed.world _ _ p'))
          o

    -- Either nothing is copied, or a path that ends before the memory does.
    copied-fits :
        (b : Bool) (buf : ℕ) (path : List ℕ)
        → buf < memory_size
        → (b ≡ true → length path < memory_size - buf)
        → buf + length (if b then path else []) ≤ memory_size
    copied-fits true buf path h fits = omega (arith, fits refl)
    copied-fits false buf path h fits = omega arith

    copied-AllBytes : (b : Bool) (path : List ℕ) → AllBytes path → AllBytes (if b then path else [])
    copied-AllBytes true path h = h
    copied-AllBytes false path h = tt

    sys_getcwd-Keeps : Keeps P (sys_getcwd host)
    unfolding sys_getcwd set_return set_world
    sys_getcwd-Keeps c p = elim (Bool-cases (leb memory_size c.ctx.arg1)) [
      | inl past ↦ simp past (fail-Keeps (err_code illegal_inst_access) c p)
      | inr here ↦ simp here (
          on_option-Keeps P (host.getcwd vfs_max_path c.vm.world).0 (λ c p. on_done p)
            (λ path e c₁ p₁. on_done (
              closed.memory _ c.ctx.arg1 _
                (copied-AllBytes _ path
                  (subst OptionBytes e (promises.getcwd_bytes vfs_max_path c.vm.world)))
                (copied-fits _ c.ctx.arg1 path (ground arith) (λ t. ground arith)) p₁))
            _ (closed.world _ _ p))
    ]

    pub dispatch-Keeps : (n : ℕ) → Keeps P (dispatch host n)
    unfolding dispatch
    dispatch-Keeps n = if-Keeps P (n == 1) sys_print-Keeps (
        if-Keeps P (n == 2) sys_read-Keeps (
          if-Keeps P (n == 3) sys_open-Keeps (
            if-Keeps P (n == 4) sys_close-Keeps (
              if-Keeps P (n == 5) sys_write-Keeps (
                if-Keeps P (n == 6) sys_read_file-Keeps (
                  if-Keeps P (n == 7) sys_seek-Keeps (
                    if-Keeps P (n == 8) sys_tell-Keeps (
                      if-Keeps P (n == 11) sys_time-Keeps (
                        if-Keeps P (n == 12) sys_sleep-Keeps (
                          if-Keeps P (n == 13) sys_exit-Keeps (
                            if-Keeps P (n == 17) sys_chdir-Keeps (
                              if-Keeps P (n == 18) sys_getcwd-Keeps (
                                if-Keeps P (n == 22) sys_mkdir-Keeps (
                                  if-Keeps P (n == 25) sys_system-Keeps
                                    (fail-Keeps enosys)))))))))))))))
