-- ===== src/Tests/Console.antt =====
-- A host for the tests: its world is what was written to standard output. It has no other files, and
-- standard input is empty.
use pocol_vm.Prelude.{ℕ, false, none, List, [], ◌++◌, length}
use pocol_vm.Host.{Handle, stdout, Host, IsHost}
use pocol_vm.State.{Vm, Call}
use pocol_vm.Machine.{store_list}
use pocol_vm.Syscalls.Context.{syscalls_init}

abbrev pub written_to : Handle → List ℕ → List ℕ → List ℕ
written_to stdout bytes w = w ++ bytes
written_to _ bytes w = w

abbrev pub console_host : Host (List ℕ)
console_host = record {
  fread = λ h n w. ([], w);
  fwrite = λ h bytes w. (length bytes, written_to h bytes w);
  fflush = λ h w. w;
  fopen = λ path mode w. (none, w);
  fclose = λ h w. w;
  fseek = λ h offset whence w. (false, w);
  ftell = λ h w. (0, w);
  errno = λ w. 2;
  time = λ w. (7, w);
  nanosleep = λ s ns w. w;
  chdir = λ path w. (1, w);
  getcwd = λ n w. (none, w);
  mkdir = λ path mode w. (1, w);
  system = λ cmd w. (0, w);
}

-- A machine with code at address 0, and an empty stack.
abbrev pub machine : List ℕ → Vm (List ℕ)
machine code = record {
  memory = store_list (λ _. 0) 0 code;
  pc = 0;
  stack = λ _. 0;
  sp = 0;
  registers = λ _. 0;
  halt = false;
  syscall_ctx = none;
  world = [];
}

pub console_host-IsHost : IsHost console_host
console_host-IsHost = record { fread_bytes = λ h n w. tt; getcwd_bytes = λ n w. tt }

-- A call of a machine without code.
abbrev pub call : Call (List ℕ)
call = record { ctx = syscalls_init 0; vm = machine [] }
