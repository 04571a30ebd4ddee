-- ===== src/Syscalls/Context.antt =====
-- pm/vm_syscalls.c: syscalls_init, and the guards and steps that the handlers share. A handler
-- returns its `int` as a 32-bit pattern; `return_value` is a 64-bit pattern.
use pocol_vm.Prelude.{
  ℕ, ◌+◌, ◌-◌, Bool, true, false, ◌||◌, List, [], ◌∷◌, ltb, leb, ◌==◌, if◌then◌else◌, wrap64,
  minus_one32, is_neg32,
}
use pocol_vm.Machine.{memory_size, load_list}
use pocol_vm.State.{SysCallContext, on_slot, Call, done, fault, Cmd, pure, ◌>>◌}
use pocol_vm.Vfs.{vfs_max_files, vfs_max_path, vfs_init}

-- EBADF and ENOSYS on Linux.
abbrev pub ebadf : ℕ
ebadf = 9

abbrev pub enosys : ℕ
enosys = 38

-- `syscalls_init`, at the time that the host tells.
unfoldable pub syscalls_init : ℕ → SysCallContext
unfolding vfs_init
syscalls_init now = record {
  return_value = 0;
  error = 0;
  arg1 = 0;
  arg2 = 0;
  arg3 = 0;
  arg4 = 0;
  vfs = vfs_init;
  start_time = now;
}

-- `ptr >= POCOL_MEMORY_SIZE || ptr + len >= POCOL_MEMORY_SIZE`; the sum wraps.
unfoldable pub out_of_range : ℕ → ℕ → Bool
out_of_range ptr len = leb memory_size ptr || leb memory_size (wrap64 (ptr + len))

-- What a C string function sees of a buffer.
unfoldable pub c_string : List ℕ → List ℕ
c_string [] = []
c_string (c ∷ cs) = if c == 0 then [] else c ∷ c_string cs

-- `(len < VFS_MAX_PATH - 1) ? len : VFS_MAX_PATH - 1`
unfoldable pub path_length : ℕ → ℕ
path_length len = if ltb len (vfs_max_path - 1) then len else vfs_max_path - 1

module _ {W : Type 0} where
  unfoldable pub set_error : ℕ → Cmd (Call W) (Unit {0})
  set_error e c = done tt (record c { ctx = record c.ctx { error = e } })

  unfoldable pub set_return : ℕ → Cmd (Call W) (Unit {0})
  set_return v c = done tt (record c { ctx = record c.ctx { return_value = v } })

  -- `ctx->error = e; return -1;`
  unfoldable pub fail : ℕ → Cmd (Call W) ℕ
  unfolding set_error
  fail e = do set_error e; pure minus_one32

  -- `fd < 0 || fd >= VFS_MAX_FILES || !files[fd]` of an `int`
  unfoldable pub bad_fd : ℕ → Call W → Bool
  bad_fd fd c =
      is_neg32 fd || leb vfs_max_files fd || on_slot (c.ctx.vfs.files fd) true (λ _. false) false

  -- The `memcpy` into `path` and its terminator: reading past the memory is a fault.
  unfoldable pub copy_path : ℕ → ℕ → Cmd (Call W) (List ℕ)
  unfolding c_string load_list
  copy_path ptr len c =
      if leb (ptr + len) memory_size
      then done (c_string (load_list c.vm.memory ptr len)) c
      else fault
