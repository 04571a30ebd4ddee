-- ===== src/Assembler/Parser/Emit.antt =====
-- posm/compiler.c, parse_inst: the output grows with the virtual program counter in the second pass,
-- and not at all in the first.
use pocol_vm.Prelude.{
  ℕ, ◌+◌, ◌≤◌, ◌≡◌, ◌≢◌, refl, sym, ◌∙◌, Bool, true, false, List, [], ◌∷◌, arith, length,
  length-append, Bool-cases, Option-cases, inl, inr, ltb, ◌==◌, if◌then◌else◌, wrap8,
}
use pocol_vm.Machine.{desc_pack, emit64}
use pocol_vm.Vm.{opr_reg}
use pocol_vm.Assembler.Symbol.{symfind}
use pocol_vm.Assembler.Lexer.{text}
use pocol_vm.Assembler.Parser.{
  Asm, InstDef, advance, emit, peek_type, is_ident, operand_value, parse_operand, parse_found,
}

-- What stands between two contexts of one pass.
pub record Grows (a b : Asm) : Type 0 where
  pub pass : b.pass ≡ a.pass
  pub symbols : b.symbols ≡ a.symbols
  pub virtual_pc : a.virtual_pc ≤ b.virtual_pc
  pub written : a.pass ≡ 2 → b.virtual_pc + length a.out ≡ a.virtual_pc + length b.out
  pub unwritten : a.pass ≢ 2 → b.out ≡ a.out

pub Grows-refl : (a : Asm) → Grows a a
Grows-refl a = record {
  pass = refl;
  symbols = refl;
  virtual_pc = omega arith;
  written = λ e. refl;
  unwritten = λ e. refl;
}

pub Grows-trans : (a b c : Asm) → Grows a b → Grows b c → Grows a c
Grows-trans a b c f g = record {
  pass = g.pass ∙ f.pass;
  symbols = g.symbols ∙ f.symbols;
  virtual_pc = omega (arith, f.virtual_pc, g.virtual_pc);
  written = λ e. omega (arith, f.written e, g.written (f.pass ∙ e));
  unwritten = λ e. g.unwritten (λ q. e (sym f.pass ∙ q)) ∙ f.unwritten e;
}

-- Another context with the same pass, symbols, counter and output.
abbrev pub Alike : Asm → Asm → Type 0
Alike a b =
    (b.pass ≡ a.pass) × (b.symbols ≡ a.symbols) × (b.virtual_pc ≡ a.virtual_pc) × (b.out ≡ a.out)

pub Alike-Grows : (a b : Asm) → Alike a b → Grows a b
Alike-Grows a b (p, s, v, o) = record {
  pass = p;
  symbols = s;
  virtual_pc = omega arith;
  written = λ e. (rw (v, o));
  unwritten = λ e. o;
}

pub advance-Alike : (a : Asm) → Alike a (advance a)
unfolding advance
advance-Alike a = (refl, refl, refl, refl)

emit-Grows :
    (bytes : List ℕ) (n : ℕ) (a : Asm)
    → length bytes ≡ n
    → Grows a (emit bytes (record a { virtual_pc = a.virtual_pc + n }))
emit-Grows bytes n a e = elim (Bool-cases (a.pass == 2)) [
  | inl second ↦ simp second (record {
    pass = refl;
    symbols = refl;
    virtual_pc = omega arith;
    written = λ _. omega (arith, length-append a.out bytes);
    unwritten = λ ne. absurd (ground arith);
  })
  | inr first ↦ simp first (record {
    pass = refl;
    symbols = refl;
    virtual_pc = omega arith;
    written = λ two. absurd (ground arith);
    unwritten = λ ne. refl;
  })
]

peek_type-Alike : (i : ℕ) (wanted : Bool) (a : Asm) → Alike a (peek_type i wanted a).1
unfolding peek_type
peek_type-Alike i true a = (refl, refl, refl, refl)
peek_type-Alike i false a = (refl, refl, refl, refl)

operand_value-Alike : (a : Asm) → Alike a (operand_value a).1
unfolding operand_value
operand_value-Alike a = elim (Bool-cases (is_ident a.lookahead.type)) [
  | inr no_name ↦ simp no_name (refl, refl, refl, refl)
  | inl name ↦ elim (Option-cases (symfind a.symbols (text a.lookahead))) [
    | inr (s, known) ↦ simp (name, known) (refl, refl, refl, refl)
    | inl unknown ↦ elim (Bool-cases (a.pass == 2)) [
      | inl second ↦ simp (name, unknown, second) (refl, refl, refl, refl)
      | inr first ↦ simp (name, unknown, first) (refl, refl, refl, refl)
    ]
  ]
]

-- A change, then a growth, then the next token.
then-advance : (a b c : Asm) → Alike a b → Grows b c → Grows a (advance c)
then-advance a b c same grows =
    Grows-trans a c (advance c) (Grows-trans a b c (Alike-Grows a b same) grows)
      (Alike-Grows c (advance c) (advance-Alike c))

parse_operand-Grows : (type : ℕ) (a : Asm) → Grows a (parse_operand type a)
unfolding parse_operand emit64
parse_operand-Grows type a =
    let same = operand_value-Alike a in
    elim (Bool-cases (type == opr_reg)) [
      | inl one ↦ simp one (
          then-advance a (operand_value a).1 _ same
            (emit-Grows (wrap8 (operand_value a).0 ∷ []) 1 (operand_value a).1 (omega arith)))
      | inr eight ↦ simp eight (
          then-advance a (operand_value a).1 _ same
            (emit-Grows (emit64 (operand_value a).0) 8 (operand_value a).1 (omega arith)))
    ]

-- The opcode and the descriptor are written before they are counted.
counted-Grows :
    (b₁ b₂ : ℕ) (a : Asm)
    → let e = emit (b₁ ∷ b₂ ∷ []) a in Grows a (record e { virtual_pc = e.virtual_pc + 2 })
counted-Grows b₁ b₂ a = elim (Bool-cases (a.pass == 2)) [
  | inl second ↦ simp second (record {
    pass = refl;
    symbols = refl;
    virtual_pc = omega arith;
    written = λ _. omega (arith, length-append a.out (b₁ ∷ b₂ ∷ []));
    unwritten = λ ne. absurd (ground arith);
  })
  | inr first ↦ simp first (record {
    pass = refl;
    symbols = refl;
    virtual_pc = omega arith;
    written = λ two. absurd (ground arith);
    unwritten = λ ne. refl;
  })
]

if-Grows : (b : Bool) (a x : Asm) → Grows a x → Grows a (if b then x else a)
if-Grows true a x g = g
if-Grows false a x g = Grows-refl a

-- Two growths, each optional, behind another.
then-operands :
    (b₁ b₂ : Bool) (t₁ t₂ : ℕ) (a b : Asm)
    → Grows a b
    → let c = if b₁ then parse_operand t₁ b else b in Grows a (if b₂ then parse_operand t₂ c else c)
then-operands b₁ b₂ t₁ t₂ a b g =
    let c = if b₁ then parse_operand t₁ b else b in
    Grows-trans a c _
      (Grows-trans a b c g (if-Grows b₁ b (parse_operand t₁ b) (parse_operand-Grows t₁ b)))
      (if-Grows b₂ c (parse_operand t₂ c) (parse_operand-Grows t₂ c))

Alike-trans : (a b c : Asm) → Alike a b → Alike b c → Alike a c
Alike-trans a b c (p, s, v, o) (p', s', v', o') = (p' ∙ p, s' ∙ s, v' ∙ v, o' ∙ o)

-- An instruction that was found: in the second pass the output grows by as many bytes as the virtual
-- program counter, and in the first pass it stays.
pub parse_found-Grows : (d : InstDef) (a : Asm) → Grows a (parse_found d a)
unfolding parse_found
parse_found-Grows d a =
    let first = peek_type 0 (ltb 0 d.operand) a in
    let second = peek_type 1 (ltb 1 d.operand) first.1 in
    then-operands _ _ first.0 second.0 a _ (
      then-advance a second.1 _
        (Alike-trans a first.1 second.1 (peek_type-Alike 0 _ a) (peek_type-Alike 1 _ first.1))
        (counted-Grows d.type (desc_pack first.0 second.0) second.1))
