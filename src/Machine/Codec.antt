-- ===== src/Machine/Codec.antt =====
-- pm/vm.h, posm/emit.h: descriptors and 64-bit words survive being written and read back.
use Prim.Native.Nat.{bit_or}
use pocol_vm.Prelude.{
  ℕ, zero, suc, ◌+◌, ◌*◌, ◌^◌, ◌<◌, ◌≤◌, ◌⊎◌, inl, inr, ◌≡◌, refl, Bool, true, ◌&&◌, arith, ◌==◌,
  ltb, ==_iff,
}
use pocol_vm.Machine.{
  Memory, reg_op, register_count, desc_pack, desc_get_op1, desc_get_op2, emit64, load64, byte_at,
  Holds,
}

le_cases : (a n : ℕ) → a ≤ n → (a ≡ n) ⊎ (a < n)
le_cases a n h = omega arith

-- Whether `|` with a multiple of 16 is a sum: at one pair, along a row, and in a grid of rows.
adds : ℕ → ℕ → Bool
adds b a = bit_or (b * 16) a == b * 16 + a

row : ℕ → ℕ → Bool
unfolding adds
row b zero = true
row b (suc k) = row b k && adds b k

grid : ℕ → Bool
unfolding row
grid zero = true
grid (suc n) = grid n && row n 16

row-adds : (k a b : ℕ) → a < k → row b k ≡ true → adds b a ≡ true
unfolding row
row-adds zero a b lt h = absurd (omega arith)
row-adds (suc k) a b lt h = elim (le_cases a k (omega arith)) [
  | inl eq ↦ ground (arith, eq, h)
  | inr below ↦ row-adds k a b below (ground arith)
]

grid-row : (n b : ℕ) → b < n → grid n ≡ true → row b 16 ≡ true
unfolding grid
grid-row zero b lt h = absurd (omega arith)
grid-row (suc n) b lt h = elim (le_cases b n (omega arith)) [
  | inl eq ↦ ground (arith, eq, h)
  | inr below ↦ grid-row n b below (ground arith)
]

whole_grid : grid 16 ≡ true
unfolding grid
whole_grid = refl

bit_or-add : (a b : ℕ) → a < 16 → b < 16 → bit_or (b * 16) a ≡ b * 16 + a
unfolding adds
bit_or-add a b ha hb = (==_iff _ _).0 (row-adds 16 a b ha (grid-row 16 b hb whole_grid))

-- A packed descriptor gives back both operand types, for types that fit four bits.
pub desc_get-desc_pack :
    (op1 op2 : ℕ)
    → op1 < 16
    → op2 < 16
    → (desc_get_op1 (desc_pack op1 op2) ≡ op1) × (desc_get_op2 (desc_pack op1 op2) ≡ op2)
unfolding desc_pack desc_get_op1 desc_get_op2
desc_get-desc_pack op1 op2 h₁ h₂ = omega (arith, bit_or-add op1 op2 h₁ h₂)

-- The digits of a number to the base 256, from eight of its bytes on.
word-digits :
    (v : ℕ)
    → v < 2 ^ 64
    → v
      ≡ byte_at v 0
        + byte_at v 1 * 2 ^ 8
        + byte_at v 2 * 2 ^ 16
        + byte_at v 3 * 2 ^ 24
        + byte_at v 4 * 2 ^ 32
        + byte_at v 5 * 2 ^ 40
        + byte_at v 6 * 2 ^ 48
        + byte_at v 7 * 2 ^ 56
word-digits v h = omega arith

-- Reading back, as `memcpy` does, the eight bytes that emit64 wrote gives the word.
pub load64-emit64 : (m : Memory) (a v : ℕ) → v < 2 ^ 64 → Holds m a (emit64 v) → load64 m a ≡ v
unfolding load64 emit64
load64-emit64 m a v h holds = ground (arith, word-digits v h)

-- The mask keeps a register's number in the array.
pub reg_op-ltb : (n : ℕ) → ltb (reg_op n) register_count ≡ true
unfolding reg_op
reg_op-ltb n = ground arith
