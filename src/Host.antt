-- ===== src/Host.antt =====
-- The C library and operating system under pm/vm.c and pm/vm_syscalls.c: calls whose code is not in
-- this repository. A world `W` is whatever those calls read and change. Every `int` and `int64_t`
-- that crosses the interface is its two's complement pattern, 32 and 64 bits wide.
use pocol_vm.Prelude.{ℕ, ◌<◌, ◌^◌, Bool, Option, none, some, List, [], ◌∷◌}

-- `FILE *`: the three standard streams, and streams that `fopen` returned.
pub data Handle : Type 0 where
  stdin stdout stderr : Handle
  file : ℕ → Handle

-- The mode strings that vfs_open passes to `fopen`.
pub data OpenMode : Type 0 where
  rb wb r_plus_b w_plus_b : OpenMode

pub record Host (W : Type 0) : Type 0 where
  -- the bytes read, at most as many as asked for
  pub fread : Handle → ℕ → W → List ℕ × W
  -- how many of the bytes were written
  pub fwrite : Handle → List ℕ → W → ℕ × W
  pub fflush : Handle → W → W
  pub fopen : List ℕ → OpenMode → W → Option Handle × W
  pub fclose : Handle → W → W
  -- whether `fseek` returned 0; offset and whence
  pub fseek : Handle → ℕ → ℕ → W → Bool × W
  pub ftell : Handle → W → ℕ × W
  pub errno : W → ℕ
  pub time : W → ℕ × W
  -- seconds and nanoseconds
  pub nanosleep : ℕ → ℕ → W → W
  pub chdir : List ℕ → W → ℕ × W
  -- the current directory, if it fits the buffer with its terminator
  pub getcwd : ℕ → W → Option (List ℕ) × W
  pub mkdir : List ℕ → ℕ → W → ℕ × W
  pub system : List ℕ → W → ℕ × W

abbrev pub AllBytes : List ℕ → Type 0
AllBytes [] = Unit
AllBytes (b ∷ bs) = (b < 2 ^ 8) × AllBytes bs

abbrev pub OptionBytes : Option (List ℕ) → Type 0
OptionBytes none = Unit
OptionBytes (some bs) = AllBytes bs

-- What the C standard promises of the calls that store in memory: they store bytes.
pub record IsHost {W : Type 0} (host : Host W) : Type 0 where
  pub fread_bytes : (h : Handle) (n : ℕ) (w : W) → AllBytes (host.fread h n w).0
  pub getcwd_bytes : (n : ℕ) (w : W) → OptionBytes (host.getcwd n w).0
