-- ===== src/Vm/Load.antt =====
-- pm/vm.c, pocol_load_program_into_vm: the header of a program file and the machine made from it.
-- Allocation succeeds; the content of the file is an argument.
use pocol_vm.Prelude.{
  ℕ, ◌+◌, ◌*◌, false, Option, none, some, List, [], ◌∷◌, ◌++◌, ltb, not, ◌==◌, if◌then◌else◌,
  length, take, drop,
}
use pocol_vm.Machine.{byte_at, emit64, memory_size, store_list}
use pocol_vm.State.{Vm}
use pocol_vm.Syscalls.Context.{syscalls_init}

-- POCOL_MAGIC, POCOL_VERSION and `sizeof(PocolHeader)`
abbrev pub pocol_magic : ℕ
pocol_magic = 0x6f636f70

abbrev pub pocol_version : ℕ
pocol_version = 1

abbrev pub header_size : ℕ
header_size = 24

-- `PocolHeader`
pub record Header : Type 0 where
  pub magic : ℕ
  pub version : ℕ
  pub entry_point : ℕ
  pub code_size : ℕ

-- The bytes of a header in memory, as `fwrite(&header, …)` writes them.
unfoldable pub emit32 : ℕ → List ℕ
emit32 v = byte_at v 0 ∷ byte_at v 1 ∷ byte_at v 2 ∷ byte_at v 3 ∷ []

unfoldable pub header_bytes : Header → List ℕ
unfolding emit32 emit64
header_bytes h =
    emit32 h.magic ++ (emit32 h.version ++ (emit64 h.entry_point ++ emit64 h.code_size))

abbrev pub le_word : List ℕ → ℕ
le_word [] = 0
le_word (b ∷ bs) = b + 256 * le_word bs

-- `fread(&header, sizeof(PocolHeader), 1, fp)`, and the rest of the file.
unfoldable pub read_header : List ℕ → Option (Header × List ℕ)
read_header content =
    if ltb (length content) header_size
    then none
    else some (
      record {
        magic = le_word (take 4 content);
        version = le_word (take 4 (drop 4 content));
        entry_point = le_word (take 8 (drop 8 content));
        code_size = le_word (take 8 (drop 16 content));
      },
      drop 24 content,
    )

-- How the loader ends: with 0 and a machine, with -1, or with an access outside an object.
pub data Loaded (W : Type 0) : Type 0 where
  loaded : Vm W → Loaded W
  rejected : Loaded W
  load_fault : Loaded W

module _ {W : Type 0} where
  -- The label `error`: `pocol_free_vm(*vm)` reads through the caller's pointer.
  abbrev pub give_up : Option (Vm W) → Loaded W
  give_up none = load_fault
  give_up (some vm) = rejected

  -- The machine after `memset`, the read of the code, and the initial values.
  unfoldable pub fresh : Header → List ℕ → ℕ → W → Vm W
  fresh h code now w = record {
    memory = store_list (λ _. 0) 0 code;
    pc = h.entry_point;
    stack = λ _. 0;
    sp = 0;
    registers = λ _. 0;
    halt = false;
    syscall_ctx = some (syscalls_init now);
    world = w;
  }

  -- The tests on the header, and the read of all that follows it in the file.
  unfoldable pub load_code : Option (Vm W) → ℕ → W → Header → List ℕ → Loaded W
  load_code old now w h code =
      if not (h.magic == pocol_magic)
      then give_up old
      else if not (h.version == pocol_version)
      then give_up old
      else if ltb memory_size h.code_size
      then give_up old
      else if ltb memory_size (length code)
      then load_fault
      else loaded (fresh h code now w)

  -- `old` is what `*vm` points to at the call; `none` for the content is a failed `fopen`.
  unfoldable pub load_read : Option (Vm W) → ℕ → W → Option (Header × List ℕ) → Loaded W
  load_read old now w none = give_up old
  load_read old now w (some (h, code)) = load_code old now w h code

  unfoldable pub load_program : Option (Vm W) → ℕ → W → Option (List ℕ) → Loaded W
  load_program old now w none = give_up old
  load_program old now w (some content) = load_read old now w (read_header content)
