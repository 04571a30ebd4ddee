-- ===== src/Tests/Syscalls.antt =====
-- System calls on a machine without code.
use pocol_vm.Prelude.{ℕ, ◌+◌, ◌^◌, ◌≤◌, ◌<◌, ◌≡◌, refl, arith, none, some, List, [], ◌∷◌}
use pocol_vm.Machine.{memory_size, load_list}
use pocol_vm.Prelude.{minus_one32}
use pocol_vm.Host.{stdout}
use pocol_vm.State.{Call, done, fault, freed, err_code, illegal_inst_access, Ensures}
use pocol_vm.Vfs.{vfs_max_files, find_null, vfs_init}
use pocol_vm.Vfs.Files.{special, open_new, vfs_close, vfs_read, vfs_write, vfs_seek, vfs_tell}
use pocol_vm.Vfs.Dangling.{open_new-dangling}
use pocol_vm.Syscalls.Context.{syscalls_init}
use pocol_vm.Syscalls.Handlers.{sys_print}
use pocol_vm.Syscalls.Dispatch.{syscalls_exec}
use pocol_vm.Syscalls.Framed.{Framed, syscalls_exec-Framed}
use pocol_vm.Syscalls.Ranges.{sys_print-cases}
use pocol_vm.Tests.Console.{console_host, console_host-IsHost, call}

syscalls_exec-Framed_example :
    Ensures
      (λ result c'. Framed call.vm c'.vm × (c'.vm.registers 0 ≡ c'.ctx.return_value))
      (syscalls_exec console_host 11 call)
syscalls_exec-Framed_example = syscalls_exec-Framed console_host 11 call console_host-IsHost

-- SYS_PRINT of two bytes at 5.
abbrev print_two : Call (List ℕ)
print_two = record call { ctx = record call.ctx { arg1 = 5; arg2 = 2 } }

sys_print-cases_example :
    (print_two.ctx.arg1 + print_two.ctx.arg2 < memory_size
      → sys_print console_host print_two
        ≡ done 0 (record {
          ctx = record print_two.ctx { return_value = print_two.ctx.arg2 };
          vm = record print_two.vm {
            world =
                console_host.fflush stdout
                  (console_host.fwrite stdout
                    (load_list print_two.vm.memory print_two.ctx.arg1 print_two.ctx.arg2)
                    print_two.vm.world).1;
          };
        }))
    × (memory_size ≤ print_two.ctx.arg1 + print_two.ctx.arg2
        → print_two.ctx.arg1 + print_two.ctx.arg2 < 2 ^ 64
        → sys_print console_host print_two
          ≡ done minus_one32 (record print_two {
            ctx = record print_two.ctx { error = err_code illegal_inst_access };
          }))
    × (print_two.ctx.arg1 < memory_size
        → 2 ^ 64 ≤ print_two.ctx.arg1 + print_two.ctx.arg2
        → sys_print console_host print_two ≡ fault)
sys_print-cases_example = sys_print-cases console_host print_two (omega arith) (omega arith)

-- "x", which the host does not open.
abbrev missing : List ℕ
missing = b'x' ∷ []

free_three : find_null call.ctx.vfs.files vfs_max_files 0 ≡ some 3
unfolding syscalls_init vfs_init find_null
free_three = refl

missing-plain : special missing ≡ none
unfolding special
missing-plain = refl

open_new-dangling_example :
    (c' : Call (List ℕ)) × (open_new console_host missing 0 call ≡ done none c')
    × (c'.ctx.vfs.files 3 ≡ freed)
    × (vfs_close console_host 3 c' ≡ fault)
    × ((buf size : ℕ) → vfs_read console_host 3 buf size c' ≡ fault)
    × ((buf size : ℕ) → vfs_write console_host 3 buf size c' ≡ fault)
    × ((offset whence : ℕ) → vfs_seek console_host 3 offset whence c' ≡ fault)
    × (vfs_tell console_host 3 c' ≡ fault)
open_new-dangling_example =
    open_new-dangling console_host missing 0 3 call free_three missing-plain refl
