-- ===== src/Syscalls/Framed.antt =====
-- pm/vm_syscalls.c, syscalls_exec: what a system call may change of the machine.
use pocol_vm.Prelude.{ℕ, ◌≡◌, ◌≢◌, refl, true, arith, ◌==◌, if◌then◌else◌}
use pocol_vm.Host.{Host, IsHost}
use pocol_vm.State.{Vm, Call, Ensures, on_done, Ensures-and_then}
use pocol_vm.Syscalls.Dispatch.{syscalls_exec}
use pocol_vm.Syscalls.Keeps.{Closed}
use pocol_vm.Syscalls.Frame.{dispatch-Keeps}

-- What a system call leaves of a machine: all but the memory, r0, a halt, and the world.
pub record Framed {W : Type 0} (old new : Vm W) : Type 0 where
  pub pc : new.pc ≡ old.pc
  pub sp : new.sp ≡ old.sp
  pub stack : new.stack ≡ old.stack
  pub registers : (r : ℕ) → r ≢ 0 → new.registers r ≡ old.registers r
  pub halt : old.halt ≡ true → new.halt ≡ true

Framed-Closed : {W : Type 0} (old : Vm W) → Closed (Framed old)
Framed-Closed old = record {
  world = λ vm w f. record {
    pc = f.pc;
    sp = f.sp;
    stack = f.stack;
    registers = f.registers;
    halt = f.halt;
  };
  memory = λ vm a bytes all fits f. record {
    pc = f.pc;
    sp = f.sp;
    stack = f.stack;
    registers = f.registers;
    halt = f.halt;
  };
  halt = λ vm f. record {
    pc = f.pc;
    sp = f.sp;
    stack = f.stack;
    registers = f.registers;
    halt = λ h. refl;
  };
}

Framed-return :
    {W : Type 0} (old vm : Vm W) (v : ℕ)
    → Framed old vm
    → Framed old (record vm { registers = λ r. if 0 == r then v else vm.registers r })
Framed-return old vm v f = record {
  pc = f.pc;
  sp = f.sp;
  stack = f.stack;
  registers = λ r ne. ground (arith, f.registers r ne);
  halt = f.halt;
}

-- On a host that stores bytes, a system call that ends, whatever its number and its arguments, leaves
-- the program counter, the stack with its pointer, and the registers other than r0 as they were, and
-- r0 is the return value.
pub syscalls_exec-Framed :
    {W : Type 0} (host : Host W) (n : ℕ) (c : Call W)
    → IsHost host
    → Ensures
        (λ result c'. Framed c.vm c'.vm × (c'.vm.registers 0 ≡ c'.ctx.return_value))
        (syscalls_exec host n c)
unfolding syscalls_exec
syscalls_exec-Framed host n c promises =
    Ensures-and_then
      (dispatch-Keeps (Framed c.vm) host promises (Framed-Closed c.vm) n _
        (record { pc = refl; sp = refl; stack = refl; registers = λ r ne. refl; halt = λ h. h }))
      λ result c' f. on_done (Framed-return c.vm c'.vm c'.ctx.return_value f, refl)
