-- ===== src/Machine.antt =====
-- pm/vm.h and posm/emit.h: sizes, operand descriptors and the little-endian byte order.
pub mod Codec
pub mod Stores
use Prim.Native.Nat.{bit_or}
use pocol_vm.Prelude.{
  ℕ, zero, suc, ◌+◌, ◌*◌, ◌/◌, ◌%◌, ◌^◌, ◌≡◌, List, [], ◌∷◌, wrap8, ◌==◌, if◌then◌else◌,
}

-- `Memory` is the byte at each address; that an address is below `memory_size` is tested by its user.
abbrev pub Memory : Type 0
Memory = ℕ → ℕ

-- POCOL_MEMORY_SIZE and POCOL_STACK_SIZE
abbrev pub memory_size : ℕ
memory_size = 640 * 1000

abbrev pub stack_size : ℕ
stack_size = 1024

-- The length of `registers`
abbrev pub register_count : ℕ
register_count = 8

-- DESC_PACK, as it is stored in a `uint8_t`.
unfoldable pub desc_pack : ℕ → ℕ → ℕ
desc_pack op1 op2 = wrap8 (bit_or (op2 * 16) op1)

-- `desc & 0x0F` and `desc >> 4`
unfoldable pub desc_get_op1 : ℕ → ℕ
desc_get_op1 desc = desc % 16

unfoldable pub desc_get_op2 : ℕ → ℕ
desc_get_op2 desc = desc / 16

-- REG_OP: `operand & 0x07`
unfoldable pub reg_op : ℕ → ℕ
reg_op operand = operand % 8

-- `(val >> (i * 8)) & 0xFF`
abbrev pub byte_at : ℕ → ℕ → ℕ
byte_at val i = val / 2 ^ (i * 8) % 256

-- The eight bytes that `emit64` writes.
unfoldable pub emit64 : ℕ → List ℕ
emit64 v =
    byte_at v 0
    ∷ byte_at v 1
    ∷ byte_at v 2
    ∷ byte_at v 3
    ∷ byte_at v 4
    ∷ byte_at v 5
    ∷ byte_at v 6
    ∷ byte_at v 7
    ∷ []

-- `memcpy(&val, &memory[a], 8)` on a little-endian host.
unfoldable pub load64 : Memory → ℕ → ℕ
load64 m a =
    m a
    + m (a + 1) * 2 ^ 8
    + m (a + 2) * 2 ^ 16
    + m (a + 3) * 2 ^ 24
    + m (a + 4) * 2 ^ 32
    + m (a + 5) * 2 ^ 40
    + m (a + 6) * 2 ^ 48
    + m (a + 7) * 2 ^ 56

-- The bytes `bs` stand in memory from `a` on.
abbrev pub Holds : Memory → ℕ → List ℕ → Type 0
Holds m a [] = Unit
Holds m a (b ∷ bs) = (m a ≡ b) × Holds m (a + 1) bs

-- Storing a byte, and storing a list of bytes from an address on.
unfoldable pub store : Memory → ℕ → ℕ → Memory
store m a v b = if a == b then v else m b

unfoldable pub store_list : Memory → ℕ → List ℕ → Memory
store_list m a [] = m
store_list m a (v ∷ vs) = store_list (store m a v) (a + 1) vs

-- The `n` bytes from `a` on.
unfoldable pub load_list : Memory → ℕ → ℕ → List ℕ
load_list m a zero = []
load_list m a (suc n) = m a ∷ load_list m (a + 1) n
