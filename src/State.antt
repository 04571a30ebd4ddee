-- ===== src/State.antt =====
-- The state of pm/vm.h and pm/vm_syscalls.h: error codes, the virtual machine, the system call
-- context with its file table, and the outcomes of a run of C code over such a state.
use pocol_vm.Prelude.{ℕ, Bool, true, false, Option, none, some, List}
use pocol_vm.Machine.{Memory}
use pocol_vm.Host.{Handle}

-- `Err`
pub data Err : Type 0 where
  err_ok illegal_inst illegal_inst_access stack_overflow stack_underflow : Err

-- The values of the enumeration, from 0.
abbrev pub err_code : Err → ℕ
err_code err_ok = 0
err_code illegal_inst = 1
err_code illegal_inst_access = 2
err_code stack_overflow = 3
err_code stack_underflow = 4

-- FTYPE_*
pub data FileType : Type 0 where
  ftype_unknown ftype_file ftype_dir ftype_device : FileType

-- `VFile`. `buffer` stays NULL from `calloc` on, and `buffer_size` 0, so they have no field here.
pub record VFile : Type 0 where
  pub name : List ℕ
  pub path : List ℕ
  pub type : FileType
  pub size : ℕ
  pub position : ℕ
  pub mode : ℕ
  pub is_open : Bool
  pub is_console : Bool
  pub host_handle : Option Handle

-- What an entry of `files` points to: nothing, a file, or memory that was freed.
pub data Slot : Type 0 where
  null : Slot
  live : VFile → Slot
  freed : Slot

-- `VFS`. `current_dir` is NULL throughout.
pub record Vfs : Type 0 where
  pub files : ℕ → Slot
  pub file_count : ℕ
  pub current_path : List ℕ

-- `SysCallContext`. The console streams, the instruction count and the debug flag are never read.
pub record SysCallContext : Type 0 where
  pub return_value : ℕ
  pub error : ℕ
  pub arg1 : ℕ
  pub arg2 : ℕ
  pub arg3 : ℕ
  pub arg4 : ℕ
  pub vfs : Vfs
  pub start_time : ℕ

-- `PocolVM`, with the world that its calls act on. `stack` and `registers` are arrays of 1024 and 8
-- words; the code that indexes them tests or masks the index. `jit_context` belongs to the JIT.
pub record Vm (W : Type 0) : Type 0 where
  pub memory : Memory
  pub pc : ℕ
  pub stack : ℕ → ℕ
  pub sp : ℕ
  pub registers : ℕ → ℕ
  pub halt : Bool
  pub syscall_ctx : Option SysCallContext
  pub world : W

-- How a run of C code ends: with a value; by `exit(code)`; or by an access outside its object, to
-- freed memory or through NULL, or a use of an indeterminate value, where C defines nothing.
pub data Run (S A : Type 0) : Type 0 where
  done : A → S → Run S A
  exits : ℕ → S → Run S A
  fault : Run S A

abbrev pub Cmd : Type 0 → Type 0 → Type 0
Cmd S A = S → Run S A

abbrev pub pure : {S A : Type 0} → A → Cmd S A
pure a s = done a s

-- What follows a run that ended with a value.
abbrev pub and_then : {S A B : Type 0} → Run S A → (A → S → Run S B) → Run S B
and_then (done a s) k = k a s
and_then (exits c s) k = exits c s
and_then fault k = fault

infixl 5 ◌>>=◌ ◌>>◌
abbrev pub ◌>>=◌ : {S A B : Type 0} → Cmd S A → (A → Cmd S B) → Cmd S B
◌>>=◌ m k s = and_then (m s) k

abbrev pub ◌>>◌ : {S B : Type 0} → Cmd S (Unit {0}) → Cmd S B → Cmd S B
m >> k = m >>= λ _. k

abbrev pub get : {S : Type 0} → Cmd S S
get s = done s s

abbrev pub put : {S : Type 0} → S → Cmd S (Unit {0})
put s' s = done tt s'

abbrev pub faults : {S A : Type 0} → Cmd S A
faults s = fault

-- The two cases of an optional result.
abbrev pub on_option : {A B : Type 0} → Option A → B → (A → B) → B
on_option none b k = b
on_option (some a) b k = k a

-- The three cases of an entry of `files`: NULL, a file, and a pointer to freed memory.
abbrev pub on_slot : {B : Type 0} → Slot → B → (VFile → B) → B → B
on_slot null b k c = b
on_slot (live f) b k c = k f
on_slot freed b k c = c

abbrev pub is_file : FileType → Bool
is_file ftype_file = true
is_file _ = false

-- What a system call works on: the context and the machine that it belongs to.
pub record Call (W : Type 0) : Type 0 where
  pub ctx : SysCallContext
  pub vm : Vm W

-- Every value that a run ends with satisfies `P`, in the state that it leaves. Nothing is said of a
-- run that exits or faults.
pub data Ensures {S A : Type 0} (P : A → S → Type 0) : Run S A → Type 0 where
  on_done : {a : A} {s : S} → P a s → Ensures P (done a s)
  on_exits : {c : ℕ} {s : S} → Ensures P (exits c s)
  on_fault : Ensures P fault

pub Ensures-and_then :
    {S A B : Type 0} {P : A → S → Type 0} {Q : B → S → Type 0} {r : Run S A} {k : A → S → Run S B}
    → Ensures P r
    → ((a : A) (s : S) → P a s → Ensures Q (k a s))
    → Ensures Q (and_then r k)
Ensures-and_then (on_done p) k = k _ _ p
Ensures-and_then on_exits k = on_exits
Ensures-and_then on_fault k = on_fault

pub Ensures-done :
    {S A : Type 0} {P : A → S → Type 0} {a : A} {s : S} → Ensures P (done a s) → P a s
Ensures-done (on_done p) = p
