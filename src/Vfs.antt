-- ===== src/Vfs.antt =====
-- pm/vm_syscalls.c: the virtual file system. A `VFile *` is the index of its entry in `files`,
-- which is the only place that holds it; allocation succeeds.
pub mod Files
pub mod Dangling
use Prim.Native.Nat.{min}
use pocol_vm.Prelude.{
  ℕ, zero, suc, ◌+◌, ◌-◌, ◌*◌, ◌/◌, ◌%◌, ◌≡◌, Bool, true, false, not, ◌&&◌, ◌||◌, Option, none,
  some, List, [], ◌∷◌, ltb, leb, ◌==◌, if◌then◌else◌, wrap64, wrap8, minus_one64, take, length,
  str_eq,
}
use pocol_vm.Machine.{memory_size, store_list}
use pocol_vm.Host.{Host, Handle, stdin, stdout, stderr, OpenMode, rb, wb, r_plus_b, w_plus_b}
use pocol_vm.State.{
  FileType, ftype_unknown, ftype_file, ftype_device, VFile, on_option, on_slot, Slot, null, live,
  freed, Vfs, Vm, Call, Run, done, fault, Cmd, pure, and_then, ◌>>=◌, ◌>>◌, get, put, faults,
}

abbrev pub vfs_max_files : ℕ
vfs_max_files = 256

abbrev pub vfs_max_filename : ℕ
vfs_max_filename = 64

abbrev pub vfs_max_path : ℕ
vfs_max_path = 256

-- "/dev/"
abbrev dev : List ℕ → List ℕ
dev name = b'/' ∷ b'd' ∷ b'e' ∷ b'v' ∷ b'/' ∷ name

abbrev pub name_stdin : List ℕ
name_stdin = b's' ∷ b't' ∷ b'd' ∷ b'i' ∷ b'n' ∷ []

abbrev pub name_stdout : List ℕ
name_stdout = b's' ∷ b't' ∷ b'd' ∷ b'o' ∷ b'u' ∷ b't' ∷ []

abbrev pub name_stderr : List ℕ
name_stderr = b's' ∷ b't' ∷ b'd' ∷ b'e' ∷ b'r' ∷ b'r' ∷ []

-- A `VFile` from `calloc`, or after `memset(file, 0, …)`.
abbrev pub blank : VFile
blank = record {
  name = [];
  path = [];
  type = ftype_unknown;
  size = 0;
  position = 0;
  mode = 0;
  is_open = false;
  is_console = false;
  host_handle = none;
}

-- The file that `vfs_init` makes for a standard stream.
abbrev pub console : List ℕ → Handle → VFile
console name h = record blank {
  name = name;
  path = dev name;
  type = ftype_device;
  is_open = true;
  is_console = true;
  host_handle = some h;
}

unfoldable pub vfs_init : Vfs
vfs_init = record {
  files = λ i.
      if i == 0
      then live (console name_stdin stdin)
      else if i == 1
      then live (console name_stdout stdout)
      else if i == 2
      then live (console name_stderr stderr)
      else null;
  file_count = 3;
  current_path = b'/' ∷ [];
}

abbrev pub is_stdin : Option Handle → Bool
is_stdin none = false
is_stdin (some stdin) = true
is_stdin (some _) = false

abbrev pub slot_is_null : Slot → Bool
slot_is_null null = true
slot_is_null _ = false

-- The loop of `vfs_find_free_slot`, with `k` entries left from `i` on.
unfoldable pub find_null : (ℕ → Slot) → (k i : ℕ) → Option ℕ
find_null files zero i = none
find_null files (suc k) i =
    let rest = find_null files k (i + 1) in if slot_is_null (files i) then some i else rest

module _ {W : Type 0} where
  -- `files[i]` is given a new target.
  unfoldable pub set_slot : ℕ → Slot → Cmd (Call W) (Unit {0})
  set_slot i s c = done tt (record c {
    ctx = record c.ctx {
      vfs = record c.ctx.vfs { files = λ j. if i == j then s else c.ctx.vfs.files j };
    };
  })

  unfoldable pub set_world : W → Cmd (Call W) (Unit {0})
  set_world w c = done tt (record c { vm = record c.vm { world = w } })

  unfoldable pub vfs_find_free_slot : Cmd (Call W) (Option ℕ)
  unfolding set_slot find_null
  vfs_find_free_slot c =
      on_option (find_null c.ctx.vfs.files vfs_max_files 0) (pure none)
        (λ i. set_slot i (live blank) >> pure (some i)) c

  -- The loop of `vfs_find_file`: a freed entry is read.
  unfoldable pub find_path : (ℕ → Slot) → List ℕ → (k i : ℕ) → Cmd (Call W) (Option ℕ)
  find_path files path zero i = pure none
  find_path files path (suc k) i =
      let rest = find_path files path k (i + 1) in
      on_slot (files i) rest (λ f. if str_eq f.path path then pure (some i) else rest) faults

  unfoldable pub vfs_find_file : List ℕ → Cmd (Call W) (Option ℕ)
  unfolding find_path
  vfs_find_file path c = find_path c.ctx.vfs.files path c.ctx.vfs.file_count 0 c
