-- ===== src/Vfs/Dangling.antt =====
-- pm/vm_syscalls.c: what a failed vfs_open leaves in the table of files.
use pocol_vm.Prelude.{ℕ, ◌≡◌, refl, ap, none, some, List, ◌==◌, ==_iff, if◌then◌else◌}
use pocol_vm.Host.{Host}
use pocol_vm.State.{VFile, live, freed, on_slot, faults, Call, Cmd, pure, done, fault}
use pocol_vm.Vfs.{blank, vfs_max_files, find_null, vfs_find_free_slot, set_slot, set_world}
use pocol_vm.Vfs.Files.{
  with_file, special, open_mode, open_host, open_new, vfs_close, vfs_read, vfs_write, vfs_seek,
  vfs_tell,
}

with_file-freed :
    {W A : Type 0} (i : ℕ) (bad : A) (k : VFile → Cmd (Call W) A) (c : Call W)
    → c.ctx.vfs.files i ≡ freed
    → with_file i bad k c ≡ fault
with_file-freed i bad k c gone = ap (λ s. on_slot s (pure bad) k faults c) gone

-- The call after the search has taken the entry `i` and the file was freed.
abbrev left_behind : {W : Type 0} → ℕ → W → Call W → Call W
left_behind i w c = record {
  ctx = record c.ctx {
    vfs = record c.ctx.vfs {
      files = λ j. if i == j then freed else if i == j then live blank else c.ctx.vfs.files j;
    };
  };
  vm = record c.vm { world = w };
}

-- Where the host cannot open a file, the search for it takes a free entry of the table and returns
-- NULL. The entry then points to memory that was freed: closing, reading, writing, seeking or telling
-- on that file descriptor, which is not NULL, reads freed memory.
pub open_new-dangling :
    {W : Type 0} (host : Host W) (path : List ℕ) (mode i : ℕ) (c : Call W)
    → find_null c.ctx.vfs.files vfs_max_files 0 ≡ some i
    → special path ≡ none
    → (host.fopen path (open_mode mode) c.vm.world).0 ≡ none
    → (c' : Call W) × (open_new host path mode c ≡ done none c')
      × (c'.ctx.vfs.files i ≡ freed)
      × (vfs_close host i c' ≡ fault)
      × ((buf size : ℕ) → vfs_read host i buf size c' ≡ fault)
      × ((buf size : ℕ) → vfs_write host i buf size c' ≡ fault)
      × ((offset whence : ℕ) → vfs_seek host i offset whence c' ≡ fault)
      × (vfs_tell host i c' ≡ fault)
unfolding open_new open_host vfs_find_free_slot set_slot set_world vfs_close vfs_read vfs_write
    vfs_seek vfs_tell
open_new-dangling host path mode i c free plain fails =
    let c' = left_behind i (host.fopen path (open_mode mode) c.vm.world).1 c in
    let gone : c'.ctx.vfs.files i ≡ freed =
      ap (λ b. if b then freed else if b then live blank else c.ctx.vfs.files i)
        ((==_iff i i).1 refl) in
    (
      c',
      simp (free, plain, fails),
      gone,
      with_file-freed i _ _ c' gone,
      (λ buf size. with_file-freed i _ _ c' gone),
      (λ buf size. with_file-freed i _ _ c' gone),
      (λ offset whence. with_file-freed i _ _ c' gone),
      with_file-freed i _ _ c' gone,
    )
