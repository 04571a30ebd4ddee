-- ===== src/Syscalls/Handlers.antt =====
-- pm/vm_syscalls.c: the system call handlers, sys_print to sys_system.
use pocol_vm.Prelude.{
  ℕ, zero, suc, ◌+◌, ◌-◌, ◌*◌, ◌/◌, ◌%◌, true, ◌&&◌, [], ltb, leb, ◌==◌, if◌then◌else◌, wrap32,
  sext64, minus_one32, minus_one64, is_neg64, take, length,
}
use pocol_vm.Machine.{memory_size, store_list}
use pocol_vm.Host.{Host, stdin, stdout}
use pocol_vm.State.{
  err_code, illegal_inst_access, on_option, on_slot, Slot, null, Call, Cmd, pure, faults, ◌>>=◌,
  ◌>>◌, get, put,
}
use pocol_vm.Vfs.{vfs_max_files, vfs_max_path, set_slot, set_world}
use pocol_vm.Vfs.Files.{
  vfs_open, vfs_close, vfs_read, vfs_write, vfs_seek, vfs_tell, vfs_mkdir, read_into, write_from,
}
use pocol_vm.Syscalls.Context.{
  ebadf, out_of_range, path_length, set_return, fail, bad_fd, copy_path,
}

module _ {W : Type 0} where
  unfoldable pub sys_exit : Cmd (Call W) ℕ
  unfolding set_return
  sys_exit = do
    c ← get
    put (record c { vm = record c.vm { halt = true } })
    set_return c.ctx.arg1
    pure 0

  -- The search of sys_open for the entry `i`, from `j` on. An entry that points to freed memory may
  -- equal any new pointer: its value is indeterminate.
  unfoldable pub file_index : (ℕ → Slot) → (i k j : ℕ) → Cmd (Call W) ℕ
  unfolding set_return
  file_index files i zero j = do set_return minus_one64; pure minus_one32
  file_index files i (suc k) j =
      let rest = file_index files i k (j + 1) in
      if i == j then (do set_return i; pure 0) else on_slot (files j) rest (λ _. rest) faults

module _ {W : Type 0} (host : Host W) where
  unfoldable pub sys_print : Cmd (Call W) ℕ
  unfolding set_return fail out_of_range write_from set_world
  sys_print = do
    c ← get
    let ptr = c.ctx.arg1
    let len = c.ctx.arg2
    if out_of_range ptr len then fail (err_code illegal_inst_access) else do
      _ ← write_from host stdout ptr len
      c ← get
      set_world (host.fflush stdout c.vm.world)
      set_return len
      pure 0

  unfoldable pub sys_read : Cmd (Call W) ℕ
  unfolding set_return fail out_of_range read_into
  sys_read = do
    c ← get
    let ptr = c.ctx.arg1
    let len = c.ctx.arg2
    if out_of_range ptr len
        then fail (err_code illegal_inst_access)
        else do n ← read_into host stdin ptr len; set_return n; pure 0

  unfoldable pub sys_open : Cmd (Call W) ℕ
  unfolding set_return fail out_of_range path_length copy_path vfs_open
  sys_open = do
    c ← get
    let ptr = c.ctx.arg1
    let len = c.ctx.arg2
    let mode = wrap32 c.ctx.arg3
    if out_of_range ptr len then fail (err_code illegal_inst_access) else do
      path ← copy_path ptr (path_length len)
      file ← vfs_open host path mode
      on_option file (do c ← get; fail (host.errno c.vm.world))
          (λ i. do c ← get; file_index c.ctx.vfs.files i vfs_max_files 0)

  unfoldable pub sys_close : Cmd (Call W) ℕ
  unfolding set_return fail bad_fd vfs_close set_slot
  sys_close = do
    c ← get
    let fd = wrap32 c.ctx.arg1
    if bad_fd fd c
        then fail ebadf
        else do r ← vfs_close host fd; set_slot fd null; set_return (sext64 r); pure r

  unfoldable pub sys_write : Cmd (Call W) ℕ
  unfolding set_return fail bad_fd out_of_range vfs_write
  sys_write = do
    c ← get
    let fd = wrap32 c.ctx.arg1
    let ptr = c.ctx.arg2
    let size = c.ctx.arg3
    if bad_fd fd c
        then fail ebadf
        else if out_of_range ptr size
        then fail (err_code illegal_inst_access)
        else do
          n ← vfs_write host fd ptr size
          set_return n
          pure (if is_neg64 n then minus_one32 else 0)

  unfoldable pub sys_read_file : Cmd (Call W) ℕ
  unfolding set_return fail bad_fd out_of_range vfs_read
  sys_read_file = do
    c ← get
    let fd = wrap32 c.ctx.arg1
    let ptr = c.ctx.arg2
    let size = c.ctx.arg3
    if bad_fd fd c
        then fail ebadf
        else if out_of_range ptr size
        then fail (err_code illegal_inst_access)
        else do
          n ← vfs_read host fd ptr size
          set_return n
          pure (if is_neg64 n then minus_one32 else 0)

  unfoldable pub sys_seek : Cmd (Call W) ℕ
  unfolding set_return fail bad_fd vfs_seek
  sys_seek = do
    c ← get
    let fd = wrap32 c.ctx.arg1
    if bad_fd fd c then fail ebadf else do
      r ← vfs_seek host fd c.ctx.arg2 (wrap32 c.ctx.arg3)
      set_return r
      pure (if is_neg64 r then minus_one32 else 0)

  unfoldable pub sys_tell : Cmd (Call W) ℕ
  unfolding set_return fail bad_fd vfs_tell
  sys_tell = do
    c ← get
    let fd = wrap32 c.ctx.arg1
    if bad_fd fd c
        then fail ebadf
        else do p ← vfs_tell host fd; set_return p; pure (if is_neg64 p then minus_one32 else 0)

  unfoldable pub sys_time : Cmd (Call W) ℕ
  unfolding set_return set_world
  sys_time = do c ← get; let (now, w) = host.time c.vm.world; set_world w; set_return now; pure 0

  unfoldable pub sys_sleep : Cmd (Call W) ℕ
  unfolding set_return set_world
  sys_sleep = do
    c ← get
    let ms = c.ctx.arg1
    set_world (host.nanosleep (ms / 1000) (ms % 1000 * 1000000) c.vm.world)
    set_return 0
    pure 0

  unfoldable pub sys_chdir : Cmd (Call W) ℕ
  unfolding set_return set_world fail path_length copy_path
  sys_chdir = do
    c ← get
    let ptr = c.ctx.arg1
    if leb memory_size ptr then fail (err_code illegal_inst_access) else do
      path ← copy_path ptr (path_length c.ctx.arg2)
      c ← get
      let (r, w) = host.chdir path c.vm.world
      set_world w
      c ← get
      put (record c {
        ctx = record c.ctx {
          vfs = record c.ctx.vfs {
            current_path = if r == 0 then take (vfs_max_path - 1) path else c.ctx.vfs.current_path;
          };
        };
      })
      set_return (sext64 r)
      pure r

  unfoldable pub sys_getcwd : Cmd (Call W) ℕ
  unfolding set_return set_world fail
  sys_getcwd = do
    c ← get
    let buf = c.ctx.arg1
    let size = c.ctx.arg2
    if leb memory_size buf then fail (err_code illegal_inst_access) else do
      let (cwd, w) = host.getcwd vfs_max_path c.vm.world
      set_world w
      on_option cwd (do set_return minus_one64; pure minus_one32)
          (λ path.
            let len = length path in
            let copied = if ltb len size && ltb len (memory_size - buf) then path else [] in
            do
              c ← get
              put (record c { vm = record c.vm { memory = store_list c.vm.memory buf copied } })
              set_return (length copied)
              pure 0)

  unfoldable pub sys_mkdir : Cmd (Call W) ℕ
  unfolding set_return fail path_length copy_path vfs_mkdir
  sys_mkdir = do
    c ← get
    let ptr = c.ctx.arg1
    if leb memory_size ptr then fail (err_code illegal_inst_access) else do
      path ← copy_path ptr (path_length c.ctx.arg2)
      r ← vfs_mkdir host path
      set_return (sext64 r)
      pure r

  unfoldable pub sys_system : Cmd (Call W) ℕ
  unfolding set_return set_world fail path_length copy_path
  sys_system = do
    c ← get
    let ptr = c.ctx.arg1
    if leb memory_size ptr then fail (err_code illegal_inst_access) else do
      cmd ← copy_path ptr (path_length c.ctx.arg2)
      c ← get
      let (r, w) = host.system cmd c.vm.world
      set_world w
      set_return (sext64 r)
      pure r
