-- ===== src/Assembler/Parser/Operand.antt =====
-- posm/compiler.c, parse_inst: the operands that tokens stand for, and how they are written.
use pocol_vm.Prelude.{
  ℕ, ◌+◌, ◌≡◌, ap, ◌∙◌, true, false, Option, none, some, List, [], ◌∷◌, ◌++◌, ==_iff, wrap8,
}
use mathlib.Core.Path.{subst}
use pocol_vm.Machine.{emit64}
use pocol_vm.Vm.{opr_reg, opr_imm}
use pocol_vm.Vm.Isa.{Operand, reg, imm, operand_type, encode_operand, operand_size}
use pocol_vm.Assembler.Symbol.{SymData, Symbols, symfind}
use pocol_vm.Assembler.Lexer.{
  TokenType, tok_eof, tok_illegal, tok_int, tok_label, tok_ident, tok_register, Token, Lexer, next,
  text,
}
use pocol_vm.Assembler.Lexer.Errors.{counting, next-counting}
use pocol_vm.Assembler.Parser.{Asm, type_of, advance, emit, is_ident, operand_value, parse_operand}

-- What a token stands for as an operand, given the table of labels.
abbrev pub label_operand : Option SymData → Option Operand
label_operand none = none
label_operand (some s) = some (imm s.pc)

abbrev pub token_operand : Symbols → Token → TokenType → Option Operand
token_operand table t tok_register = some (reg (wrap8 t.value))
token_operand table t tok_int = some (imm t.value)
token_operand table t tok_ident = label_operand (symfind table (text t))
token_operand table t _ = none

-- The tokens from the cursor on stand for the operands.
abbrev pub Operands : Symbols → Lexer → List Operand → Type 0
Operands table lx [] = Unit
Operands table lx (o ∷ os) =
    (token_operand table (next lx).0 (next lx).0.type ≡ some o) × Operands table (next lx).1 os

-- A context of the second pass at a token, with the lexer behind it, up to the count of errors.
pub record At (table : Symbols) (bytes : List ℕ) (pc : ℕ) (t : Token) (lx : Lexer) (b : Asm)
    : Type 0 where
  pub pass : b.pass ≡ 2
  pub symbols : b.symbols ≡ table
  pub out : b.out ≡ bytes
  pub virtual_pc : b.virtual_pc ≡ pc
  pub lookahead : b.lookahead ≡ t
  pub lexer : (n : ℕ) × (b.lexer ≡ counting n lx)

from_some : {A : Type 0} → A → Option A → A
from_some d none = d
from_some d (some a) = a

some-injective : {A : Type 0} {a b : A} → some a ≡ some b → a ≡ b
unfolding from_some
some-injective {a} e = ap (from_some a) e

module _ (table : Symbols) where
  pub advance-At :
      (out : List ℕ) (pc : ℕ) (t : Token) (lx : Lexer) (b : Asm)
      → At table out pc t lx b
      → At table out pc (next lx).0 (next lx).1 (advance b)
  unfolding advance
  advance-At out pc t lx b at =
      let (n, e) = at.lexer in
      let (m, e') = next-counting n lx in
      let both = ap next e ∙ e' in
      record {
        pass = at.pass;
        symbols = at.symbols;
        out = at.out;
        virtual_pc = at.virtual_pc;
        lookahead = ap (λ r. r.0) both;
        lexer = (m, ap (λ r. r.1) both);
      }

  pub emit-At :
      (out : List ℕ) (pc : ℕ) (t : Token) (lx : Lexer) (b : Asm) (bytes : List ℕ)
      → At table out pc t lx b
      → At table (out ++ bytes) pc t lx (emit bytes b)
  emit-At out pc t lx b bytes at = simp ((==_iff b.pass 2).1 at.pass) (record {
    pass = at.pass;
    symbols = at.symbols;
    out = ap (λ o. o ++ bytes) at.out;
    virtual_pc = at.virtual_pc;
    lookahead = at.lookahead;
    lexer = at.lexer;
  })

  pub counted-At :
      (out : List ℕ) (pc n : ℕ) (t : Token) (lx : Lexer) (b : Asm)
      → At table out pc t lx b
      → At table out (pc + n) t lx (record b { virtual_pc = b.virtual_pc + n })
  counted-At out pc n t lx b at = record {
    pass = at.pass;
    symbols = at.symbols;
    out = at.out;
    virtual_pc = ap (λ p. p + n) at.virtual_pc;
    lookahead = at.lookahead;
    lexer = at.lexer;
  }

  -- The value of an operand that is known, and no error.
  value_of : Operand → ℕ
  value_of (reg r) = r
  value_of (imm v) = v

  plain_value :
      (b : Asm) → is_ident b.lookahead.type ≡ false → operand_value b ≡ (b.lookahead.value, b)
  unfolding operand_value
  plain_value b plain = simp plain

  known_value :
      (b : Asm) (s : SymData)
      → is_ident b.lookahead.type ≡ true
      → symfind b.symbols (text b.lookahead) ≡ some s
      → operand_value b ≡ (s.pc, b)
  unfolding operand_value
  known_value b s name known = simp (name, known)

  -- A register is a byte, and a number or a label a word.
  reg-At :
      (out : List ℕ) (pc v : ℕ) (t : Token) (lx : Lexer) (b : Asm)
      → At table out pc t lx b
      → operand_value b ≡ (v, b)
      → At table (out ++ wrap8 v ∷ []) (pc + 1) (next lx).0 (next lx).1 (parse_operand opr_reg b)
  unfolding parse_operand
  reg-At out pc v t lx b at e = rw e (
      advance-At _ _ t lx _ (
        emit-At out (pc + 1) t lx (record b { virtual_pc = b.virtual_pc + 1 }) (wrap8 v ∷ [])
          (counted-At out pc 1 t lx b at)))

  imm-At :
      (out : List ℕ) (pc v : ℕ) (t : Token) (lx : Lexer) (b : Asm)
      → At table out pc t lx b
      → operand_value b ≡ (v, b)
      → At table (out ++ emit64 v) (pc + 8) (next lx).0 (next lx).1 (parse_operand opr_imm b)
  unfolding parse_operand
  imm-At out pc v t lx b at e = rw e (
      advance-At _ _ t lx _ (
        emit-At out (pc + 8) t lx (record b { virtual_pc = b.virtual_pc + 8 }) (emit64 v)
          (counted-At out pc 8 t lx b at)))

  -- An operand is written as its encoding.
  abbrev Written : List ℕ → ℕ → Lexer → Asm → Operand → Type 0
  Written out pc lx b o =
      At table (out ++ encode_operand o) (pc + operand_size o) (next lx).0 (next lx).1
        (parse_operand (operand_type o) b)

  label-Written :
      (out : List ℕ) (pc : ℕ) (t : Token) (lx : Lexer) (b : Asm) (o : Operand) (s : Option SymData)
      → At table out pc t lx b
      → is_ident b.lookahead.type ≡ true
      → symfind b.symbols (text b.lookahead) ≡ s
      → label_operand s ≡ some o
      → Written out pc lx b o
  label-Written out pc t lx b o none at name e h = absurd cc
  label-Written out pc t lx b o (some s) at name e h =
      subst (Written out pc lx b) (some-injective h)
        (imm-At out pc s.pc t lx b at (known_value b s name e))

  pub operand-Written :
      (out : List ℕ) (pc : ℕ) (t : Token) (lx : Lexer) (b : Asm) (o : Operand) (ty : TokenType)
      → At table out pc t lx b
      → t.type ≡ ty
      → token_operand table t ty ≡ some o
      → Written out pc lx b o
  operand-Written out pc t lx b o tok_eof at e h = absurd cc
  operand-Written out pc t lx b o tok_illegal at e h = absurd cc
  operand-Written out pc t lx b o tok_label at e h = absurd cc
  operand-Written out pc t lx b o tok_register at e h =
      subst (Written out pc lx b) (some-injective h) (
        reg-At out pc t.value t lx b at (
          plain_value b (ap (λ x. is_ident x.type) at.lookahead ∙ ap is_ident e)
          ∙ ap (λ x. (x.value, b)) at.lookahead))
  operand-Written out pc t lx b o tok_int at e h = subst (Written out pc lx b) (some-injective h) (
      imm-At out pc t.value t lx b at (
        plain_value b (ap (λ x. is_ident x.type) at.lookahead ∙ ap is_ident e)
        ∙ ap (λ x. (x.value, b)) at.lookahead))
  operand-Written out pc t lx b o tok_ident at e h =
      label-Written out pc t lx b o (symfind table (text t)) at
        (ap (λ x. is_ident x.type) at.lookahead ∙ ap is_ident e)
        (ap (λ x. symfind x (text b.lookahead)) at.symbols
          ∙ ap (λ x. symfind table (text x)) at.lookahead)
        h

  label_type :
      (s : Option SymData) (o : Operand) → label_operand s ≡ some o → opr_imm ≡ operand_type o
  label_type none o h = absurd cc
  label_type (some s) o h = ap operand_type (some-injective h)

  -- The type in the descriptor is the operand's.
  pub type_of-operand :
      (t : Token) (o : Operand) (ty : TokenType)
      → token_operand table t ty ≡ some o
      → type_of ty ≡ operand_type o
  unfolding type_of
  type_of-operand t o tok_eof h = absurd cc
  type_of-operand t o tok_illegal h = absurd cc
  type_of-operand t o tok_label h = absurd cc
  type_of-operand t o tok_register h = ap operand_type (some-injective h)
  type_of-operand t o tok_int h = ap operand_type (some-injective h)
  type_of-operand t o tok_ident h = label_type (symfind table (text t)) o h
