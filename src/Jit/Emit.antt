-- ===== src/Jit/Emit.antt =====
-- pm/jit.c: the x86-64 instructions that the compiler emits, as their bytes. An offset is the pattern
-- of the `int32_t`.
use pocol_vm.Prelude.{
  ℕ, ◌+◌, ◌-◌, ◌*◌, ◌^◌, Bool, ◌||◌, List, [], ◌∷◌, leb, ◌==◌, if◌then◌else◌, wrap8,
}
use pocol_vm.Machine.{emit64}
use pocol_vm.Vm.Load.{emit32}

abbrev pub rax : ℕ
rax = 0

abbrev pub rcx : ℕ
rcx = 1

abbrev pub rdx : ℕ
rdx = 2

abbrev pub rsi : ℕ
rsi = 6

abbrev pub rdi : ℕ
rdi = 7

unfoldable pub mov_reg_imm64 : (reg imm : ℕ) → List ℕ
mov_reg_imm64 reg imm = 0x48 ∷ wrap8 (0xB8 + reg) ∷ emit64 imm

-- `offset >= -128 && offset <= 127`
abbrev pub is_disp8 : ℕ → Bool
is_disp8 offset = leb offset 127 || leb (2 ^ 32 - 128) offset

-- The ModR/M byte and the displacement.
unfoldable pub mem_operand : (reg base offset : ℕ) → List ℕ
mem_operand reg base offset =
    if offset == 0
    then wrap8 (0x00 + reg * 8 + base) ∷ []
    else if is_disp8 offset
    then wrap8 (0x40 + reg * 8 + base) ∷ wrap8 offset ∷ []
    else wrap8 (0x80 + reg * 8 + base) ∷ emit32 offset

unfoldable pub mov_mem_reg : (base offset src : ℕ) → List ℕ
mov_mem_reg base offset src = 0x48 ∷ 0x89 ∷ mem_operand src base offset

unfoldable pub mov_reg_mem : (dst base offset : ℕ) → List ℕ
mov_reg_mem dst base offset = 0x48 ∷ 0x8B ∷ mem_operand dst base offset

unfoldable pub add_reg_reg : (dst src : ℕ) → List ℕ
add_reg_reg dst src = 0x48 ∷ 0x01 ∷ wrap8 (0xC0 + src * 8 + dst) ∷ []

unfoldable pub call_rel32 : (offset : ℕ) → List ℕ
call_rel32 offset = 0xE8 ∷ emit32 offset

abbrev pub ret : List ℕ
ret = 0xC3 ∷ []

abbrev pub cmp_rcx_rdx : List ℕ
cmp_rcx_rdx = 0x48 ∷ 0x39 ∷ 0xD1 ∷ []

abbrev pub inc_rcx : List ℕ
inc_rcx = 0x48 ∷ 0xFF ∷ 0xC1 ∷ []

abbrev pub dec_rcx : List ℕ
dec_rcx = 0x48 ∷ 0xFF ∷ 0xC9 ∷ []

-- `mov byte ptr [rax], 1`
abbrev pub set_byte : List ℕ
set_byte = 0xC6 ∷ 0x00 ∷ 0x01 ∷ []
