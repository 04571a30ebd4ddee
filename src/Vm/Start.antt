-- ===== src/Vm/Start.antt =====
-- pm/vm.c: what the loader makes of a program file, and the first instruction that runs.
use pocol_vm.Prelude.{
  ℕ, ◌+◌, ◌^◌, ◌≤◌, ◌<◌, ◌≡◌, ◌≢◌, ◌⊎◌, inr, refl, ◌∙◌, true, false, Option, none, some, List, ◌++◌,
  arith, length, le→ltb_false, lt→ltb,
}
use pocol_vm.Machine.{Holds, memory_size, emit64, desc_pack}
use pocol_vm.Machine.Stores.{Holds-store_list, store_list-outside}
use pocol_vm.Host.{Host}
use pocol_vm.State.{Vm, done, err_ok}
use pocol_vm.Vm.{execute_inst}
use pocol_vm.Vm.Isa.{halt, encode, sem}
use pocol_vm.Vm.Refine.{execute_inst-encode}
use pocol_vm.Vm.Load.{
  pocol_magic, pocol_version, header_size, Header, header_bytes, emit32, read_header, loaded,
  load_fault, give_up, fresh, load_code, load_read, load_program, le_word,
}

-- The fields of a header fit their types.
pub record HeaderFits (h : Header) : Type 0 where
  pub magic : h.magic < 2 ^ 32
  pub version : h.version < 2 ^ 32
  pub entry_point : h.entry_point < 2 ^ 64
  pub code_size : h.code_size < 2 ^ 64

le_word-emit32 : (v : ℕ) → v < 2 ^ 32 → le_word (emit32 v) ≡ v
unfolding emit32
le_word-emit32 v h = omega arith

le_word-emit64 : (v : ℕ) → v < 2 ^ 64 → le_word (emit64 v) ≡ v
unfolding emit64
le_word-emit64 v h = omega arith

-- Reading the header of a file gives back the header that was written, and what follows it.
pub read_header-header_bytes :
    (h : Header) (rest : List ℕ)
    → HeaderFits h
    → read_header (header_bytes h ++ rest) ≡ some (h, rest)
unfolding read_header header_bytes
read_header-header_bytes h rest f = rw (
  le→ltb_false (length (header_bytes h ++ rest)) header_size (omega arith),
  le_word-emit32 h.magic f.magic,
  le_word-emit32 h.version f.version,
  le_word-emit64 h.entry_point f.entry_point,
  le_word-emit64 h.code_size f.code_size,
)

-- The headers that the loader takes.
pub record Accepted (h : Header) : Type 0 where
  pub magic : h.magic ≡ pocol_magic
  pub version : h.version ≡ pocol_version
  pub code_size : h.code_size ≤ memory_size

-- What the loader refuses: a missing or short file, or a header that it does not take.
pub data Refused : Option (List ℕ) → Type 0 where
  missing : Refused none
  short : {content : List ℕ} → length content < header_size → Refused (some content)
  wrong_header :
      {content code : List ℕ} {h : Header}
      → read_header content ≡ some (h, code)
      → (h.magic ≢ pocol_magic) ⊎ ((h.version ≢ pocol_version) ⊎ (memory_size < h.code_size))
      → Refused (some content)

module _ {W : Type 0} (old : Option (Vm W)) (now : ℕ) (w : W) where
  load_code-Accepted :
      (h : Header) (code : List ℕ)
      → Accepted h
      → length code ≤ memory_size
      → load_code old now w h code ≡ loaded (fresh h code now w)
  unfolding load_code
  load_code-Accepted h code a le = ground arith

  pub load_program-Accepted :
      (h : Header) (code : List ℕ)
      → HeaderFits h
      → Accepted h
      → length code ≤ memory_size
      → (vm : Vm W) × (load_program old now w (some (header_bytes h ++ code)) ≡ loaded vm)
        × Holds vm.memory 0 code
        × ((a : ℕ) → length code ≤ a → vm.memory a ≡ 0)
        × (vm.pc ≡ h.entry_point)
        × (vm.sp ≡ 0)
        × (vm.halt ≡ false)
  unfolding load_program load_read fresh
  load_program-Accepted h code f a le = (
    fresh h code now w,
    rw (read_header-header_bytes h code f) (load_code-Accepted h code a le),
    Holds-store_list _ 0 code,
    (λ b past. store_list-outside _ 0 code b (inr (omega arith))),
    refl,
    refl,
    refl,
  )

  load_code-wrong :
      (h : Header) (code : List ℕ)
      → (h.magic ≢ pocol_magic) ⊎ ((h.version ≢ pocol_version) ⊎ (memory_size < h.code_size))
      → load_code old now w h code ≡ give_up old
  unfolding load_code
  load_code-wrong h code bad = ground arith

  read_header-short : (content : List ℕ) → length content < header_size → read_header content ≡ none
  unfolding read_header
  read_header-short content lt = rw (lt→ltb (length content) header_size lt)

  -- A missing or short file, and one whose header has another magic number, another version or a size
  -- of code above that of memory, takes the error path.
  pub load_program-Refused :
      {file : Option (List ℕ)} → Refused file → load_program old now w file ≡ give_up old
  unfolding load_program load_read
  load_program-Refused missing = refl
  load_program-Refused (short {content} lt) = rw (read_header-short content lt)
  load_program-Refused (wrong_header {content} {code} {h} e bad) = rw e (load_code-wrong h code bad)

-- The program `pm` passes a pointer to NULL: whatever the loader refuses, its error path then reads
-- through NULL, where it is to return -1.
pub load_program-null :
    {W : Type 0} (now : ℕ) (w : W) {file : Option (List ℕ)}
    → Refused file
    → load_program none now w file ≡ load_fault
load_program-null now w r = load_program-Refused none now w r

module _ {W : Type 0} (host : Host W) (now : ℕ) (w : W) where
  -- For a header that the loader accepts, whose entry point is at least the length of the code and
  -- lies more than two bytes before the end of memory, the machine that the loader makes halts at
  -- its first instruction, and so runs none of the code: the entry point counts from the start of
  -- the file and the memory from the end of the header.
  pub load_program-halts :
      (h : Header) (code : List ℕ)
      → HeaderFits h
      → Accepted h
      → length code ≤ h.entry_point
      → h.entry_point + 2 < memory_size
      → (vm : Vm W) × (load_program none now w (some (header_bytes h ++ code)) ≡ loaded vm)
        × (execute_inst host vm ≡ done err_ok (record vm { pc = h.entry_point + 2; halt = true }))
  unfolding encode sem desc_pack
  load_program-halts h code f a le room =
      let (vm, e, holds, zeros, pc, sp, _) =
        load_program-Accepted none now w h code f a (omega arith) in
      (
        vm,
        e,
        execute_inst-encode host vm (omega arith) halt tt (omega arith)
              (zeros vm.pc (omega arith), (zeros (vm.pc + 1) (omega arith), tt))
            ∙ (rw pc),
      )
