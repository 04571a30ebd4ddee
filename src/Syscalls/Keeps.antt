-- ===== src/Syscalls/Keeps.antt =====
-- pm/vm_syscalls.c: the ways in which the file system and the handlers act on the machine.
use pocol_vm.Prelude.{
  ℕ, zero, suc, ◌+◌, ◌≤◌, ◌≡◌, refl, Bool, true, false, Option, none, some, List, arith, length,
  Bool-cases, inl, inr, leb, if◌then◌else◌, str_eq, not,
}
use pocol_vm.Machine.{memory_size, store_list}
use pocol_vm.Host.{Host, Handle, AllBytes, IsHost}
use pocol_vm.State.{
  VFile, Slot, null, live, freed, is_file, on_option, on_slot, pure, faults, Vm, Call, Cmd, Ensures,
  on_done, on_fault, Ensures-and_then,
}
use pocol_vm.Vfs.{
  is_stdin, set_slot, set_world, find_null, vfs_max_files, find_path, vfs_find_file,
  vfs_find_free_slot,
}
use pocol_vm.Vfs.Files.{
  open_mode, new_file, with_file, open_host, open_new, vfs_open, vfs_close, read_into, write_from,
  vfs_read, vfs_write, vfs_seek, vfs_tell, special,
}

-- A predicate on machines that a change of the world keeps, and storing bytes inside the memory, and
-- halting.
pub record Closed {W : Type 0} (P : Vm W → Type 0) : Type 0 where
  pub world : (vm : Vm W) (w : W) → P vm → P (record vm { world = w })
  pub memory :
      (vm : Vm W) (a : ℕ) (bytes : List ℕ)
      → AllBytes bytes
      → a + length bytes ≤ memory_size
      → P vm
      → P (record vm { memory = store_list vm.memory a bytes })
  pub halt : (vm : Vm W) → P vm → P (record vm { halt = true })

module _ {W : Type 0} (P : Vm W → Type 0) where
  abbrev pub InVm : {A : Type 0} → A → Call W → Type 0
  InVm a c = P c.vm

  -- A command keeps `P` of the machine, whatever it returns.
  abbrev pub Keeps : {A : Type 0} → Cmd (Call W) A → Type 0
  Keeps m = (c : Call W) → P c.vm → Ensures InVm (m c)

  pub if-Keeps :
      {A : Type 0} (b : Bool) {x y : Cmd (Call W) A}
      → Keeps x
      → Keeps y
      → Keeps (if b then x else y)
  if-Keeps true hx hy = hx
  if-Keeps false hx hy = hy

  pub on_option-Keeps :
      {A B : Type 0} (o : Option B) {x : Cmd (Call W) A} {k : B → Cmd (Call W) A}
      → Keeps x
      → ((b : B) → o ≡ some b → Keeps (k b))
      → Keeps (on_option o x k)
  on_option-Keeps none hx hk = hx
  on_option-Keeps (some b) hx hk = hk b refl

  pub on_slot-Keeps :
      {A : Type 0} (s : Slot) {x y : Cmd (Call W) A} {k : VFile → Cmd (Call W) A}
      → Keeps x
      → ((f : VFile) → Keeps (k f))
      → Keeps y
      → Keeps (on_slot s x k y)
  on_slot-Keeps null hx hk hy = hx
  on_slot-Keeps (live f) hx hk hy = hk f
  on_slot-Keeps freed hx hk hy = hy

  pub faults-Keeps : {A : Type 0} → Keeps (faults {S = Call W} {A = A})
  faults-Keeps c p = on_fault

  pub pure-Keeps : {A : Type 0} (a : A) → Keeps (pure {S = Call W} a)
  pure-Keeps a c p = on_done p

  pub with_file-Keeps :
      {A : Type 0} (i : ℕ) (bad : A) (k : VFile → Cmd (Call W) A)
      → ((f : VFile) → Keeps (k f))
      → Keeps (with_file i bad k)
  with_file-Keeps i bad k h c = on_slot-Keeps (c.ctx.vfs.files i) (pure-Keeps bad) h faults-Keeps c

  pub find_path-Keeps :
      (files : ℕ → Slot) (path : List ℕ) (k i : ℕ) → Keeps (find_path files path k i)
  unfolding find_path
  find_path-Keeps files path zero i = pure-Keeps none
  find_path-Keeps files path (suc k) i =
      on_slot-Keeps (files i) (find_path-Keeps files path k (i + 1))
        (λ f.
          if-Keeps (str_eq f.path path) (pure-Keeps (some i))
            (find_path-Keeps files path k (i + 1)))
        faults-Keeps

  pub vfs_find_file-Keeps : (path : List ℕ) → Keeps (vfs_find_file path)
  unfolding vfs_find_file
  vfs_find_file-Keeps path c = find_path-Keeps c.ctx.vfs.files path c.ctx.vfs.file_count 0 c

  pub vfs_find_free_slot-Keeps : Keeps vfs_find_free_slot
  unfolding vfs_find_free_slot set_slot
  vfs_find_free_slot-Keeps c =
      on_option-Keeps (find_null c.ctx.vfs.files vfs_max_files 0) (pure-Keeps none)
        (λ i e c p. on_done p) c

  module _ (host : Host W) (promises : IsHost host) (closed : Closed P) where
    pub read_into-Keeps : (h : Handle) (buf size : ℕ) → Keeps (read_into host h buf size)
    unfolding read_into
    read_into-Keeps h buf size c p =
        elim (Bool-cases (leb (buf + length (host.fread h size c.vm.world).0) memory_size)) [
          | inl fits ↦ simp fits (
              on_done (
                closed.world _ _ (
                  closed.memory _ buf _ (promises.fread_bytes h size c.vm.world) (ground arith) p)))
          | inr out ↦ simp out on_fault
        ]

    pub write_from-Keeps : (h : Handle) (buf size : ℕ) → Keeps (write_from host h buf size)
    unfolding write_from
    write_from-Keeps h buf size c p = elim (Bool-cases (leb (buf + size) memory_size)) [
      | inl fits ↦ simp fits (on_done (closed.world _ _ p))
      | inr out ↦ simp out on_fault
    ]

    pub vfs_read-Keeps : (i buf size : ℕ) → Keeps (vfs_read host i buf size)
    unfolding vfs_read set_slot
    vfs_read-Keeps i buf size = with_file-Keeps i _ _ λ f. if-Keeps (not f.is_open) (pure-Keeps _) (
        if-Keeps f.is_console
          (if-Keeps (is_stdin f.host_handle) (read_into-Keeps _ buf size) (pure-Keeps _))
          (if-Keeps (is_file f.type)
            (on_option-Keeps f.host_handle (pure-Keeps _)
              λ h e c p. Ensures-and_then (read_into-Keeps h buf size c p) λ n c' p'. on_done p')
            (pure-Keeps _)))

    pub vfs_write-Keeps : (i buf size : ℕ) → Keeps (vfs_write host i buf size)
    unfolding vfs_write set_slot
    vfs_write-Keeps i buf size = with_file-Keeps i _ _ λ f.
        if-Keeps (not f.is_open) (pure-Keeps _) (
          if-Keeps f.is_console
            (on_option-Keeps f.host_handle faults-Keeps λ h e. write_from-Keeps _ buf size)
            (if-Keeps (is_file f.type)
              (on_option-Keeps f.host_handle (pure-Keeps _)
                λ h e c p. Ensures-and_then (write_from-Keeps h buf size c p) λ n c' p'. on_done p')
              (pure-Keeps _)))

    pub vfs_seek-Keeps : (i offset whence : ℕ) → Keeps (vfs_seek host i offset whence)
    unfolding vfs_seek set_slot set_world
    vfs_seek-Keeps i offset whence = with_file-Keeps i _ _ λ f.
        if-Keeps (not f.is_open) (pure-Keeps _) (
          if-Keeps (is_file f.type)
            (on_option-Keeps f.host_handle (pure-Keeps _) λ h e c p.
              if-Keeps (not (host.fseek h offset whence c.vm.world).0) (pure-Keeps _)
                (λ c p. on_done (closed.world _ _ p)) _ (closed.world _ _ p))
            (pure-Keeps _))

    pub vfs_tell-Keeps : (i : ℕ) → Keeps (vfs_tell host i)
    unfolding vfs_tell
    vfs_tell-Keeps i =
        with_file-Keeps i _ _ λ f. if-Keeps (not f.is_open) (pure-Keeps _) (pure-Keeps _)

    pub vfs_close-Keeps : (i : ℕ) → Keeps (vfs_close host i)
    unfolding vfs_close set_slot set_world
    vfs_close-Keeps i = with_file-Keeps i _ _ λ f c p. on_done (closed.world _ _ p)

    open_host-Keeps :
        (i : ℕ) (file : VFile) (path : List ℕ) (mode : ℕ) → Keeps (open_host host i file path mode)
    unfolding open_host set_world set_slot
    open_host-Keeps i file path mode c =
        on_option-Keeps (host.fopen path (open_mode mode) c.vm.world).0
          (λ c p. on_done (closed.world _ _ p)) (λ h e c p. on_done (closed.world _ _ p)) c

    open_new-Keeps : (path : List ℕ) (mode : ℕ) → Keeps (open_new host path mode)
    unfolding open_new set_slot
    open_new-Keeps path mode c p = Ensures-and_then (vfs_find_free_slot-Keeps c p) λ slot c' p'.
        on_option-Keeps slot (pure-Keeps _)
          (λ i e.
            on_option-Keeps (special path) (open_host-Keeps i (new_file path) path mode)
              λ h e' c p. on_done p)
          c' p'

    pub vfs_open-Keeps : (path : List ℕ) (mode : ℕ) → Keeps (vfs_open host path mode)
    unfolding vfs_open
    vfs_open-Keeps path mode c p = Ensures-and_then (vfs_find_file-Keeps path c p) λ existing c' p'.
        on_option-Keeps existing (open_new-Keeps path mode)
          (λ i e.
            on_slot-Keeps (c'.ctx.vfs.files i) faults-Keeps
              (λ f. if-Keeps f.is_open (pure-Keeps _) (open_new-Keeps path mode)) faults-Keeps)
          c' p'
