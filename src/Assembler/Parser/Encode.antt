-- ===== src/Assembler/Parser/Encode.antt =====
-- posm/compiler.c, parse_inst: in the second pass it writes an opcode, a descriptor and the operands.
use pocol_vm.Prelude.{ℕ, ◌+◌, ◌≡◌, refl, ap, ◌∙◌, true, some, List, [], ◌∷◌, ◌++◌}
use pocol_vm.Machine.{desc_pack}
use pocol_vm.Vm.{opr_none}
use pocol_vm.Vm.Isa.{Operand, operand_type, encode_operand, operand_size}
use pocol_vm.Assembler.Symbol.{Symbols}
use pocol_vm.Assembler.Lexer.{Token, Lexer, next, peek, peek_from}
use pocol_vm.Assembler.Lexer.Errors.{counting, next-counting}
use pocol_vm.Assembler.Parser.{
  Asm, InstDef, named, type_of, advance, emit, peek_type, parse_operand, parse_found,
}
use pocol_vm.Assembler.Parser.Operand.{
  token_operand, At, advance-At, emit-At, counted-At, operand-Written, type_of-operand,
}

module _ (table : Symbols) where
  -- Looking ahead finds the type of an operand, and leaves the context where it was.
  Peeked : (i : ℕ) (out : List ℕ) (pc : ℕ) (t : Token) (lx : Lexer) (b : Asm) (o : Operand) → Type 0
  Peeked i out pc t lx b o =
      ((peek_type i true b).0 ≡ operand_type o) × At table out pc t lx (peek_type i true b).1

  behind-peek :
      (out : List ℕ) (pc n : ℕ) (t : Token) (lx : Lexer) (b : Asm)
      → At table out pc t lx b
      → At table out pc t lx (record b { lexer = counting n b.lexer })
  behind-peek out pc n t lx b at = record {
    pass = at.pass;
    symbols = at.symbols;
    out = at.out;
    virtual_pc = at.virtual_pc;
    lookahead = at.lookahead;
    lexer = (n, ap (counting n) at.lexer.1);
  }

  peek_first :
      (out : List ℕ) (pc : ℕ) (t : Token) (lx : Lexer) (b : Asm) (o : Operand)
      → At table out pc t lx b
      → token_operand table (next lx).0 (next lx).0.type ≡ some o
      → Peeked 0 out pc t lx b o
  unfolding Peeked peek_type peek peek_from
  peek_first out pc t lx b o at h =
      let (n, e) = at.lexer in
      let (m, e') = next-counting n lx in
      (
        ap (λ r. type_of r.0.type) (ap next e ∙ e') ∙ type_of-operand table (next lx).0 o _ h,
        behind-peek out pc (next b.lexer).1.total_error t lx b at,
      )

  peek_second :
      (out : List ℕ) (pc : ℕ) (t : Token) (lx : Lexer) (b : Asm) (o : Operand)
      → At table out pc t lx b
      → token_operand table (next (next lx).1).0 (next (next lx).1).0.type ≡ some o
      → Peeked 1 out pc t lx b o
  unfolding Peeked peek_type peek peek_from
  peek_second out pc t lx b o at h =
      let (n, e) = at.lexer in
      let (m, e') = next-counting n lx in
      let (k, e'') = next-counting m (next lx).1 in
      (
        ap (λ r. type_of r.0.type) (ap (λ r. next r.1) (ap next e ∙ e') ∙ e'')
            ∙ type_of-operand table (next (next lx).1).0 o _ h,
        behind-peek out pc (next (next b.lexer).1).1.total_error t lx b at,
      )

  -- The opcode and the descriptor, and the token behind the mnemonic.
  opened-At :
      (out : List ℕ) (pc type desc : ℕ) (t : Token) (lx : Lexer) (b : Asm)
      → At table out pc t lx b
      → let e = emit (type ∷ desc ∷ []) b in
        At table
          (out ++ type ∷ desc ∷ [])
          (pc + 2)
          (next lx).0
          (next lx).1
          (advance (record e { virtual_pc = e.virtual_pc + 2 }))
  opened-At out pc type desc t lx b at =
      let e = emit (type ∷ desc ∷ []) b in
      advance-At table _ _ t lx (record e { virtual_pc = e.virtual_pc + 2 })
        (counted-At table _ pc 2 t lx e (emit-At table out pc t lx b (type ∷ desc ∷ []) at))

  -- What an instruction with these operands leaves.
  abbrev pub Leaves : List ℕ → ℕ → InstDef → Asm → Type 0
  Leaves bytes pc d a = ((parse_found d a).out ≡ bytes) × ((parse_found d a).virtual_pc ≡ pc)

  pub none-Leaves :
      (out : List ℕ) (pc : ℕ) (t : Token) (lx : Lexer) (a : Asm) (type : ℕ) (name : List ℕ)
      → At table out pc t lx a
      → Leaves (out ++ type ∷ desc_pack opr_none opr_none ∷ []) (pc + 2) (named type name 0) a
  unfolding parse_found peek_type
  none-Leaves out pc t lx a type name at =
      let b = opened-At out pc type (desc_pack opr_none opr_none) t lx a at in (b.out, b.virtual_pc)

  -- The opcode, the descriptor and a first operand.
  first-At :
      (out : List ℕ) (pc : ℕ) (t : Token) (lx : Lexer) (b : Asm) (type t₁ d₂ : ℕ) (o : Operand)
      → At table out pc t lx b
      → t₁ ≡ operand_type o
      → token_operand table (next lx).0 (next lx).0.type ≡ some o
      → let e = emit (type ∷ desc_pack t₁ d₂ ∷ []) b in
        At table
          ((out ++ type ∷ desc_pack (operand_type o) d₂ ∷ []) ++ encode_operand o)
          (pc + 2 + operand_size o)
          (next (next lx).1).0
          (next (next lx).1).1
          (parse_operand t₁ (advance (record e { virtual_pc = e.virtual_pc + 2 })))
  first-At out pc t lx b type t₁ d₂ o at ty h = rw ty (
      operand-Written table _ (pc + 2) (next lx).0 (next lx).1 _ o _
        (opened-At out pc type (desc_pack (operand_type o) d₂) t lx b at) refl h)

  pub one-Leaves :
      (out : List ℕ) (pc : ℕ) (t : Token) (lx : Lexer) (a : Asm) (type : ℕ) (name : List ℕ)
      (o : Operand)
      → At table out pc t lx a
      → token_operand table (next lx).0 (next lx).0.type ≡ some o
      → Leaves
          ((out ++ type ∷ desc_pack (operand_type o) opr_none ∷ []) ++ encode_operand o)
          (pc + 2 + operand_size o)
          (named type name 1)
          a
  unfolding parse_found Peeked peek_type
  one-Leaves out pc t lx a type name o at h =
      let (ty, at') = peek_first out pc t lx a o at h in
      let b =
        first-At out pc t lx (peek_type 0 true a).1 type (peek_type 0 true a).0 opr_none o at' ty
          h in
      (b.out, b.virtual_pc)

  second-At :
      (out : List ℕ) (pc : ℕ) (t : Token) (lx : Lexer) (b : Asm) (t₂ : ℕ) (o : Operand)
      → At table out pc t lx b
      → t₂ ≡ operand_type o
      → token_operand table t t.type ≡ some o
      → At table
          (out ++ encode_operand o)
          (pc + operand_size o)
          (next lx).0
          (next lx).1
          (parse_operand t₂ b)
  second-At out pc t lx b t₂ o at ty h = rw ty (operand-Written table out pc t lx b o _ at refl h)

  pub two-Leaves :
      (out : List ℕ) (pc : ℕ) (t : Token) (lx : Lexer) (a : Asm) (type : ℕ) (name : List ℕ)
      (o o' : Operand)
      → At table out pc t lx a
      → token_operand table (next lx).0 (next lx).0.type ≡ some o
      → token_operand table (next (next lx).1).0 (next (next lx).1).0.type ≡ some o'
      → Leaves
          (((out ++ type ∷ desc_pack (operand_type o) (operand_type o') ∷ []) ++ encode_operand o)
            ++ encode_operand o')
          (pc + 2 + operand_size o + operand_size o')
          (named type name 2)
          a
  unfolding parse_found Peeked
  two-Leaves out pc t lx a type name o o' at h h' =
      let (ty, at') = peek_first out pc t lx a o at h in
      let (ty', at'') = peek_second out pc t lx (peek_type 0 true a).1 o' at' h' in
      let second = peek_type 1 true (peek_type 0 true a).1 in
      let b = first-At out pc t lx second.1 type (peek_type 0 true a).0 second.0 o at'' ty h in
      let c = second-At _ _ (next (next lx).1).0 (next (next lx).1).1 _ second.0 o' b ty' h' in
      (
        c.out
            ∙ ap
                (λ x.
                  ((out ++ type ∷ desc_pack (operand_type o) x ∷ []) ++ encode_operand o)
                  ++ encode_operand o')
                ty',
        c.virtual_pc,
      )
