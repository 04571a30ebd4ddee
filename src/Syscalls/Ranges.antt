-- ===== src/Syscalls/Ranges.antt =====
-- pm/vm_syscalls.c: the test on a buffer of the machine's memory.
use pocol_vm.Prelude.{◌+◌, ◌^◌, ◌≤◌, ◌<◌, ◌≡◌, arith, minus_one32}
use pocol_vm.Machine.{memory_size, load_list}
use pocol_vm.Host.{Host, stdout}
use pocol_vm.State.{err_code, illegal_inst_access, Call, done, fault}
use pocol_vm.Vfs.{set_world}
use pocol_vm.Vfs.Files.{write_from}
use pocol_vm.Syscalls.Context.{out_of_range, fail, set_error, set_return}
use pocol_vm.Syscalls.Handlers.{sys_print}

module _ {W : Type 0} (host : Host W) (c : Call W) (ptr : c.ctx.arg1 < 2 ^ 64)
    (len : c.ctx.arg2 < 2 ^ 64) where
  -- SYS_PRINT of 64-bit arguments. A buffer that ends before the last byte of memory is written to
  -- standard output, and its length returned. One that does not, without a wrap of its end, is
  -- refused with an error. But where it starts inside memory and its end wraps around 2 ^ 64, the
  -- test lets it pass, and bytes far outside the memory are read: a fault.
  pub sys_print-cases :
      (c.ctx.arg1 + c.ctx.arg2 < memory_size
        → sys_print host c
          ≡ done 0 (record {
            ctx = record c.ctx { return_value = c.ctx.arg2 };
            vm = record c.vm {
              world =
                  host.fflush stdout
                    (host.fwrite stdout (load_list c.vm.memory c.ctx.arg1 c.ctx.arg2) c.vm.world).1;
            };
          }))
      × (memory_size ≤ c.ctx.arg1 + c.ctx.arg2
          → c.ctx.arg1 + c.ctx.arg2 < 2 ^ 64
          → sys_print host c
            ≡ done minus_one32
                (record c { ctx = record c.ctx { error = err_code illegal_inst_access } }))
      × (c.ctx.arg1 < memory_size → 2 ^ 64 ≤ c.ctx.arg1 + c.ctx.arg2 → sys_print host c ≡ fault)
  unfolding sys_print out_of_range write_from set_world set_return fail set_error
  sys_print-cases =
      ((λ inside. ground arith), (λ past no_wrap. ground arith), λ start wraps. ground arith)
