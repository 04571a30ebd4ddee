-- ===== src/Syscalls/Dispatch.antt =====
-- pm/vm_syscalls.c: syscalls_exec, which picks the handler.
use pocol_vm.Prelude.{ℕ, ◌==◌, if◌then◌else◌}
use pocol_vm.Host.{Host}
use pocol_vm.State.{Call, Cmd, pure, ◌>>=◌, ◌>>◌, get, put}
use pocol_vm.Syscalls.Context.{enosys, fail}
use pocol_vm.Syscalls.Handlers.{
  sys_exit, sys_print, sys_read, sys_open, sys_close, sys_write, sys_read_file, sys_seek, sys_tell,
  sys_time, sys_sleep, sys_chdir, sys_getcwd, sys_mkdir, sys_system,
}

module _ {W : Type 0} (host : Host W) where
  -- The `switch` over SYS_*.
  unfoldable pub dispatch : ℕ → Cmd (Call W) ℕ
  dispatch n =
      if n == 1
      then sys_print host
      else if n == 2
      then sys_read host
      else if n == 3
      then sys_open host
      else if n == 4
      then sys_close host
      else if n == 5
      then sys_write host
      else if n == 6
      then sys_read_file host
      else if n == 7
      then sys_seek host
      else if n == 8
      then sys_tell host
      else if n == 11
      then sys_time host
      else if n == 12
      then sys_sleep host
      else if n == 13
      then sys_exit
      else if n == 17
      then sys_chdir host
      else if n == 18
      then sys_getcwd host
      else if n == 22
      then sys_mkdir host
      else if n == 25
      then sys_system host
      else fail enosys

  -- The arguments are taken from the registers, and the return value goes to r0.
  unfoldable pub syscalls_exec : ℕ → Cmd (Call W) ℕ
  syscalls_exec n = do
    c ← get
    put (record c {
      ctx = record c.ctx {
        arg1 = c.vm.registers 1;
        arg2 = c.vm.registers 2;
        arg3 = c.vm.registers 3;
        arg4 = c.vm.registers 4;
        error = 0;
        return_value = 0;
      };
    })
    result ← dispatch n
    c ← get
    put (record c {
      vm = record c.vm { registers = λ r. if 0 == r then c.ctx.return_value else c.vm.registers r };
    })
    pure result
