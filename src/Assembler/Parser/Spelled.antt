-- ===== src/Assembler/Parser/Spelled.antt =====
-- posm/compiler.c, parse_inst: an instruction in the source and its encoding.
use pocol_vm.Prelude.{ℕ, ◌+◌, ◌≡◌, refl, ap, ◌∙◌, true, List, [], ◌∷◌, ◌++◌, arith, append_assoc}
use pocol_vm.State.{done}
use pocol_vm.Vm.Isa.{
  reg, Inst, halt, push, pop, add, jmp, print, sys, encode_operand, encode, inst_size,
}
use pocol_vm.Assembler.Lexer.{text}
use pocol_vm.Assembler.Parser.{
  Asm, InstDef, named, inst_table, found, find_inst, parse_found, on_found, parse_inst,
}
use pocol_vm.Assembler.Parser.Operand.{Operands, At}
use pocol_vm.Assembler.Parser.Encode.{Leaves, none-Leaves, one-Leaves, two-Leaves}

abbrev pub name_halt : List ℕ
name_halt = b'h' ∷ b'a' ∷ b'l' ∷ b't' ∷ []

abbrev pub name_push : List ℕ
name_push = b'p' ∷ b'u' ∷ b's' ∷ b'h' ∷ []

abbrev pub name_pop : List ℕ
name_pop = b'p' ∷ b'o' ∷ b'p' ∷ []

abbrev pub name_add : List ℕ
name_add = b'a' ∷ b'd' ∷ b'd' ∷ []

abbrev pub name_jmp : List ℕ
name_jmp = b'j' ∷ b'm' ∷ b'p' ∷ []

abbrev pub name_print : List ℕ
name_print = b'p' ∷ b'r' ∷ b'i' ∷ b'n' ∷ b't' ∷ []

-- The lookahead and the tokens behind it spell an instruction, in a table of labels. No source spells
-- SYS.
abbrev pub Spells : Asm → Inst → Type 0
Spells a halt = text a.lookahead ≡ name_halt
Spells a (push o) = (text a.lookahead ≡ name_push) × Operands a.symbols a.lexer (o ∷ [])
Spells a (pop r) = (text a.lookahead ≡ name_pop) × Operands a.symbols a.lexer (reg r ∷ [])
Spells a (add r o) = (text a.lookahead ≡ name_add) × Operands a.symbols a.lexer (reg r ∷ o ∷ [])
Spells a (jmp o) = (text a.lookahead ≡ name_jmp) × Operands a.symbols a.lexer (o ∷ [])
Spells a (print o) = (text a.lookahead ≡ name_print) × Operands a.symbols a.lexer (o ∷ [])
Spells a sys = ⊥

abbrev Encoded : Asm → Inst → Type 0
Encoded a i =
    (b : Asm) × (parse_inst a ≡ done true b)
    × (b.out ≡ a.out ++ encode i)
    × (b.virtual_pc ≡ a.virtual_pc + inst_size i)

-- The second pass starts at the context itself.
start-At : (a : Asm) → a.pass ≡ 2 → At a.symbols a.out a.virtual_pc a.lookahead a.lexer a
start-At a second = record {
  pass = second;
  symbols = refl;
  out = refl;
  virtual_pc = refl;
  lookahead = refl;
  lexer = (a.lexer.total_error, refl);
}

-- From what the entry of the table leaves to what parse_inst leaves.
found-Encoded :
    (a : Asm) (i : Inst) (d : InstDef) (bytes : List ℕ) (pc : ℕ)
    → find_inst inst_table (text a.lookahead) ≡ found d
    → Leaves a.symbols bytes pc d a
    → bytes ≡ a.out ++ encode i
    → pc ≡ a.virtual_pc + inst_size i
    → Encoded a i
unfolding parse_inst
found-Encoded a i d bytes pc e (out, vpc) same size =
    (parse_found d a, ap (λ f. on_found f a) e, out ∙ same, vpc ∙ size)

-- In the second pass, where the lookahead and the tokens behind it spell an instruction, parse_inst
-- writes that instruction's encoding behind the output and counts its size. A name stands for the
-- address of its label, and must be defined.
pub parse_inst-encode :
    (a : Asm) (i : Inst)
    → a.pass ≡ 2
    → Spells a i
    → (b : Asm) × (parse_inst a ≡ done true b)
      × (b.out ≡ a.out ++ encode i)
      × (b.virtual_pc ≡ a.virtual_pc + inst_size i)
unfolding find_inst encode
parse_inst-encode a halt second h =
    found-Encoded a halt (named 0 name_halt 0) _ _ (ap (find_inst inst_table) h)
      (none-Leaves a.symbols a.out a.virtual_pc a.lookahead a.lexer a 0 name_halt
        (start-At a second))
      refl refl
parse_inst-encode a (push o) second (h, (h₁, _)) =
    found-Encoded a (push o) (named 1 name_push 1) _ _ (ap (find_inst inst_table) h)
      (one-Leaves a.symbols a.out a.virtual_pc a.lookahead a.lexer a 1 name_push o
        (start-At a second) h₁)
      (append_assoc a.out _ (encode_operand o)) (omega arith)
parse_inst-encode a (pop r) second (h, (h₁, _)) =
    found-Encoded a (pop r) (named 2 name_pop 1) _ _ (ap (find_inst inst_table) h)
      (one-Leaves a.symbols a.out a.virtual_pc a.lookahead a.lexer a 2 name_pop (reg r)
        (start-At a second) h₁)
      (append_assoc a.out _ (encode_operand (reg r))) (omega arith)
parse_inst-encode a (add r o) second (h, (h₁, (h₂, _))) =
    found-Encoded a (add r o) (named 3 name_add 2) _ _ (ap (find_inst inst_table) h)
      (two-Leaves a.symbols a.out a.virtual_pc a.lookahead a.lexer a 3 name_add (reg r) o
        (start-At a second) h₁ h₂)
      (ap (λ l. l ++ encode_operand o) (append_assoc a.out _ (encode_operand (reg r)))
        ∙ append_assoc a.out _ (encode_operand o))
      (omega arith)
parse_inst-encode a (jmp o) second (h, (h₁, _)) =
    found-Encoded a (jmp o) (named 4 name_jmp 1) _ _ (ap (find_inst inst_table) h)
      (one-Leaves a.symbols a.out a.virtual_pc a.lookahead a.lexer a 4 name_jmp o
        (start-At a second) h₁)
      (append_assoc a.out _ (encode_operand o)) (omega arith)
parse_inst-encode a (print o) second (h, (h₁, _)) =
    found-Encoded a (print o) (named 5 name_print 1) _ _ (ap (find_inst inst_table) h)
      (one-Leaves a.symbols a.out a.virtual_pc a.lookahead a.lexer a 5 name_print o
        (start-At a second) h₁)
      (append_assoc a.out _ (encode_operand o)) (omega arith)
parse_inst-encode a sys second h = absurd h
