-- ===== src/Vfs/Files.antt =====
-- pm/vm_syscalls.c: vfs_open, vfs_close, vfs_read, vfs_write, vfs_seek, vfs_tell and vfs_mkdir.
use pocol_vm.Prelude.{
  ℕ, ◌+◌, ◌-◌, ◌/◌, ◌%◌, true, not, ◌||◌, Option, none, some, List, [], ◌∷◌, ltb, leb, ◌==◌,
  if◌then◌else◌, wrap64, wrap8, minus_one64, minus_one32, take, length, str_eq,
}
use pocol_vm.Machine.{memory_size, store_list, load_list}
use pocol_vm.Host.{Host, Handle, stdin, stdout, stderr, OpenMode, rb, wb, r_plus_b, w_plus_b}
use pocol_vm.State.{
  on_option, on_slot, is_file, ftype_file, ftype_device, VFile, live, freed, Call, done, fault, Cmd,
  pure, ◌>>=◌, ◌>>◌, get, faults,
}
use pocol_vm.Vfs.{
  vfs_max_filename, vfs_max_path, dev, name_stdin, name_stdout, name_stderr, blank, is_stdin,
  set_slot, set_world, vfs_find_free_slot, vfs_find_file,
}

-- What follows the last '/' of a path, or the whole path: `acc` is the answer so far.
basename_from : List ℕ → List ℕ → List ℕ
basename_from acc [] = acc
basename_from acc (c ∷ cs) = basename_from (if c == b'/' then cs else acc) cs

unfoldable pub basename : List ℕ → List ℕ
unfolding basename_from
basename path = basename_from path path

-- The stream that a special path stands for.
unfoldable pub special : List ℕ → Option Handle
special path =
    if str_eq path (dev name_stdin) || str_eq path name_stdin
    then some stdin
    else if str_eq path (dev name_stdout) || str_eq path name_stdout
    then some stdout
    else if str_eq path (dev name_stderr) || str_eq path name_stderr
    then some stderr
    else none

-- `mode & 3`, then O_CREAT, which is 4.
unfoldable pub open_mode : ℕ → OpenMode
open_mode mode =
    if mode / 4 % 2 == 1
    then w_plus_b
    else if mode % 4 == 0
    then rb
    else if mode % 4 == 1
    then wb
    else if mode % 4 == 2
    then r_plus_b
    else rb

-- The entry that `vfs_open` takes, with its path and its name.
unfoldable pub new_file : List ℕ → VFile
unfolding basename
new_file path = record blank {
  path = take (vfs_max_path - 1) path;
  name = take (vfs_max_filename - 1) (basename path);
}

abbrev pub seek_set : ℕ
seek_set = 0

abbrev pub seek_end : ℕ
seek_end = 2

module _ {W : Type 0} where
  -- What is done with a file, and what is returned where it is NULL: reading a freed entry is a fault.
  abbrev pub with_file : {A : Type 0} → ℕ → (bad : A) → (VFile → Cmd (Call W) A) → Cmd (Call W) A
  with_file i bad k c = on_slot (c.ctx.vfs.files i) (pure bad) k faults c

module _ {W : Type 0} (host : Host W) where
  -- The file that `vfs_open` fills in the entry `i`, from the host's `fopen` on. When that fails the
  -- file is freed, and the entry still points to it.
  unfoldable pub open_host : ℕ → VFile → List ℕ → ℕ → Cmd (Call W) (Option ℕ)
  unfolding set_slot set_world open_mode
  open_host i file path mode c =
      let (fp, w) = host.fopen path (open_mode mode) c.vm.world in
      on_option fp (do set_world w; set_slot i freed; pure none)
        (λ h. do
          let w₁ = (host.fseek h 0 seek_end w).1
          let (size, w₂) = host.ftell h w₁
          let w₃ = (host.fseek h 0 seek_set w₂).1
          set_world w₃
          set_slot i (
              live (record file {
                size = size;
                type = ftype_file;
                host_handle = some h;
                is_open = true;
                position = 0;
                mode = wrap8 mode;
              }))
          pure (some i))
        c

  -- The part of `vfs_open` that follows the search for an open file.
  unfoldable pub open_new : List ℕ → ℕ → Cmd (Call W) (Option ℕ)
  unfolding set_slot new_file special open_host vfs_find_free_slot
  open_new path mode = do
    slot ← vfs_find_free_slot
    on_option slot (pure none) (λ i.
        on_option (special path) (open_host i (new_file path) path mode) (λ h. do
          set_slot i (
              live (record (new_file path) {
                type = ftype_device;
                is_console = true;
                host_handle = some h;
                is_open = true;
              }))
          pure (some i)))

  -- An open file with the path is returned as it is. The entry was read by the search.
  unfoldable pub vfs_open : List ℕ → ℕ → Cmd (Call W) (Option ℕ)
  unfolding open_new vfs_find_file
  vfs_open path mode = do
    existing ← vfs_find_file path
    c ← get
    on_option existing (open_new path mode) (λ i.
        on_slot (c.ctx.vfs.files i) faults
          (λ f. if f.is_open then pure (some i) else open_new path mode) faults)

  -- The result is a C `int`.
  unfoldable pub vfs_close : ℕ → Cmd (Call W) ℕ
  unfolding set_slot set_world
  vfs_close i = with_file i minus_one32 λ f. do
    c ← get
    let w = c.vm.world
    set_world (on_option f.host_handle w (λ h. if f.is_console then w else host.fclose h w))
    set_slot i (live blank)
    pure 0

  -- `fread` into the machine's memory from `buf` on; bytes past its end are a fault.
  unfoldable pub read_into : Handle → (buf size : ℕ) → Cmd (Call W) ℕ
  read_into h buf size c =
      let (bytes, w) = host.fread h size c.vm.world in
      if leb (buf + length bytes) memory_size
      then done (length bytes)
          (record c { vm = record c.vm { memory = store_list c.vm.memory buf bytes; world = w } })
      else fault

  -- `fwrite` of `size` bytes of the machine's memory from `buf` on.
  unfoldable pub write_from : Handle → (buf size : ℕ) → Cmd (Call W) ℕ
  write_from h buf size c =
      if leb (buf + size) memory_size
      then (let (n, w) = host.fwrite h (load_list c.vm.memory buf size) c.vm.world in
          done n (record c { vm = record c.vm { world = w } }))
      else fault

  unfoldable pub vfs_read : (i buf size : ℕ) → Cmd (Call W) ℕ
  unfolding set_slot read_into
  vfs_read i buf size = with_file i minus_one64 λ f.
      if not f.is_open
      then pure minus_one64
      else if f.is_console
      then (if is_stdin f.host_handle then read_into stdin buf size else pure minus_one64)
      else if is_file f.type
      then on_option f.host_handle (pure minus_one64) (λ h. do
        n ← read_into h buf size
        set_slot i (live (record f { position = wrap64 (f.position + n) }))
        pure n)
      else pure minus_one64

  -- A console file always has a handle; `fwrite` to a null stream would be a fault.
  unfoldable pub vfs_write : (i buf size : ℕ) → Cmd (Call W) ℕ
  unfolding set_slot write_from
  vfs_write i buf size = with_file i minus_one64 λ f.
      if not f.is_open
      then pure minus_one64
      else if f.is_console
      then on_option f.host_handle faults
          (λ h. write_from (if is_stdin (some h) then stdout else h) buf size)
      else if is_file f.type
      then on_option f.host_handle (pure minus_one64) (λ h. do
        n ← write_from h buf size
        let p = wrap64 (f.position + n)
        set_slot i (live (record f { position = p; size = if ltb f.size p then p else f.size }))
        pure n)
      else pure minus_one64

  unfoldable pub vfs_seek : (i offset whence : ℕ) → Cmd (Call W) ℕ
  unfolding set_slot set_world
  vfs_seek i offset whence = with_file i minus_one64 λ f.
      if not f.is_open
      then pure minus_one64
      else if is_file f.type
      then on_option f.host_handle (pure minus_one64) (λ h. do
        c ← get
        let (ok, w) = host.fseek h offset whence c.vm.world
        set_world w
        if not ok then pure minus_one64 else do
          let (p, w') = host.ftell h w
          set_world w'
          set_slot i (live (record f { position = p }))
          pure p)
      else pure minus_one64

  unfoldable pub vfs_tell : ℕ → Cmd (Call W) ℕ
  vfs_tell i =
      with_file i minus_one64 λ f. if not f.is_open then pure minus_one64 else pure f.position

  -- 0755, an octal number
  unfoldable pub vfs_mkdir : List ℕ → Cmd (Call W) ℕ
  unfolding set_world
  vfs_mkdir path = do c ← get; let (r, w) = host.mkdir path 0o755 c.vm.world; set_world w; pure r
