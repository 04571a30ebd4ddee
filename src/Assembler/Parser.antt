-- ===== src/Assembler/Parser.antt =====
-- posm/compiler.c: parse_inst, pocol_parse_file and the two passes of pocol_compile_file.
-- The bytes written to the output behind its header are a list; output that fails is not modelled.
pub mod Emit
pub mod Passes
pub mod Known
pub mod Operand
pub mod Encode
pub mod Spelled
pub mod Output
pub mod Total
pub mod Compiled
use pocol_vm.Prelude.{
  ℕ, zero, suc, ◌+◌, ◌-◌, ◌*◌, Bool, true, false, not, ◌&&◌, ◌||◌, Option, none, some, List, [],
  ◌∷◌, ◌++◌, ltb, leb, ◌==◌, if◌then◌else◌, wrap8, length, str_eq,
}
use pocol_vm.Machine.{desc_pack, emit64}
use pocol_vm.State.{Run, done, fault, Cmd, pure, and_then, ◌>>=◌, ◌>>◌, get, put, faults}
use pocol_vm.Vm.{opr_none, opr_reg, opr_imm}
use pocol_vm.Vm.Load.{header_size}
use pocol_vm.Assembler.Symbol.{
  compiler_max_symbol_name, SymData, Symbols, symfind, Push, pushed, duplicate, push_fault, sympush,
}
use pocol_vm.Assembler.Lexer.{
  TokenType, tok_eof, tok_illegal, tok_int, tok_label, tok_ident, tok_register, Token, Lexer,
  compiler_error, consume_until_newline, next, peek, text,
}

-- `CompilerCtx`, without its paths and streams
pub record Asm : Type 0 where
  pub lexer : Lexer
  pub lookahead : Token
  pub pass : ℕ
  pub virtual_pc : ℕ
  pub symbols : Symbols
  pub out : List ℕ

-- `Inst_Def`. A name may be NULL.
pub record InstDef : Type 0 where
  pub type : ℕ
  pub name : Option (List ℕ)
  pub operand : ℕ

abbrev pub named : ℕ → List ℕ → ℕ → InstDef
named type name operand = record { type = type; name = some name; operand = operand }

-- `inst_table`. Its last entry, for INST_SYS, has no initialiser.
abbrev pub inst_table : List InstDef
inst_table =
    named 0 (b'h' ∷ b'a' ∷ b'l' ∷ b't' ∷ []) 0
    ∷ named 1 (b'p' ∷ b'u' ∷ b's' ∷ b'h' ∷ []) 1
    ∷ named 2 (b'p' ∷ b'o' ∷ b'p' ∷ []) 1
    ∷ named 3 (b'a' ∷ b'd' ∷ b'd' ∷ []) 2
    ∷ named 4 (b'j' ∷ b'm' ∷ b'p' ∷ []) 1
    ∷ named 5 (b'p' ∷ b'r' ∷ b'i' ∷ b'n' ∷ b't' ∷ []) 1
    ∷ record { type = 0; name = none; operand = 0 }
    ∷ []

-- How the search ends: with an entry, without one, or with `strncmp(NULL, …)`.
pub data Found : Type 0 where
  found : InstDef → Found
  not_found : Found
  found_fault : Found

abbrev pub found_name : List ℕ → InstDef → Found → Option (List ℕ) → Found
found_name mnemonic d rest none = found_fault
found_name mnemonic d rest (some name) = if str_eq name mnemonic then found d else rest

-- For a mnemonic of letters, digits and '_', the two tests of the loop hold together exactly where
-- it is the name.
unfoldable pub find_inst : List InstDef → List ℕ → Found
find_inst [] mnemonic = not_found
find_inst (d ∷ ds) mnemonic = found_name mnemonic d (find_inst ds mnemonic) d.name

-- The operand type that a token stands for.
unfoldable pub type_of : TokenType → ℕ
type_of tok_register = opr_reg
type_of tok_int = opr_imm
type_of tok_ident = opr_imm
type_of _ = opr_none

unfoldable pub advance : Asm → Asm
advance a = let (t, lx) = next a.lexer in record a { lookahead = t; lexer = lx }

abbrev pub emit : List ℕ → Asm → Asm
emit bytes a = if a.pass == 2 then record a { out = a.out ++ bytes } else a

abbrev pub asm_error : Asm → Asm
asm_error a = record a { lexer = compiler_error a.lexer }

-- The types of the first `n` operands, by looking ahead. The errors that this meets are counted.
unfoldable pub peek_type : ℕ → Bool → Asm → ℕ × Asm
peek_type i wanted a =
    if wanted
    then (let (t, lx) = peek a.lexer i in (type_of t.type, record a { lexer = lx }))
    else (opr_none, a)

-- The value of an operand that is a name: the address of its label, or the token's own value, which
-- is an error in the second pass.
abbrev pub label_value : Asm → Option SymData → ℕ × Asm
label_value a (some s) = (s.pc, a)
label_value a none = (a.lookahead.value, if a.pass == 2 then asm_error a else a)

abbrev pub is_ident : TokenType → Bool
is_ident tok_ident = true
is_ident _ = false

unfoldable pub operand_value : Asm → ℕ × Asm
operand_value a =
    if is_ident a.lookahead.type
    then label_value a (symfind a.symbols (text a.lookahead))
    else (a.lookahead.value, a)

-- A round of the operand loop: the bytes of the lookahead, and the next token.
unfoldable pub parse_operand : ℕ → Asm → Asm
parse_operand type a =
    let (val, a') = operand_value a in
    advance (
      if type == opr_reg
      then emit (wrap8 val ∷ []) (record a' { virtual_pc = a'.virtual_pc + 1 })
      else emit (emit64 val) (record a' { virtual_pc = a'.virtual_pc + 8 }))

-- parse_inst, once the mnemonic is found.
unfoldable pub parse_found : InstDef → Asm → Asm
parse_found d a =
    let (t₁, a₁) = peek_type 0 (ltb 0 d.operand) a in
    let (t₂, a₂) = peek_type 1 (ltb 1 d.operand) a₁ in
    let a₃ = emit (d.type ∷ desc_pack t₁ t₂ ∷ []) a₂ in
    let a₄ = advance (record a₃ { virtual_pc = a₃.virtual_pc + 2 }) in
    let a₅ = if ltb 0 d.operand then parse_operand t₁ a₄ else a₄ in
    if ltb 1 d.operand then parse_operand t₂ a₅ else a₅

-- 0 is `true` and -1 is `false`.
abbrev pub on_found : Found → Cmd Asm Bool
on_found (found d) a = done true (parse_found d a)
on_found not_found a = done false a
on_found found_fault a = fault

unfoldable pub parse_inst : Cmd Asm Bool
parse_inst a = on_found (find_inst inst_table (text a.lookahead)) a
