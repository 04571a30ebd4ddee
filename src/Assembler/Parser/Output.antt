-- ===== src/Assembler/Parser/Output.antt =====
-- posm/compiler.c, pocol_compile_file: the file that the two passes leave.
use pocol_vm.Prelude.{
  ℕ, zero, suc, ◌+◌, ◌≤◌, ◌≡◌, refl, sym, ◌∙◌, Bool, true, false, ◌&&◌, Option, none, some, [], ◌∷◌,
  ◌++◌, arith, length, Bool-cases, inl, inr, leb, ◌==◌, if◌then◌else◌,
}
use mathlib.Core.Path.{subst}
use pocol_vm.State.{Run, done, exits, fault, Ensures, on_done, on_exits, on_fault}
use pocol_vm.Vm.Load.{header_size}
use pocol_vm.Assembler.Symbol.{
  compiler_max_symbol, compiler_max_symbol_name, SymData, Symbols, Push, pushed, duplicate,
  push_fault, push_found, sympush,
}
use pocol_vm.Assembler.Lexer.{next}
use pocol_vm.Assembler.Parser.{
  Asm, Found, found, not_found, found_fault, advance, asm_error, is_ident, parse_found, on_found,
  parse_inst,
}
use pocol_vm.Assembler.Parser.Passes.{
  is_eof, is_label, after_push, parse_label, after_inst, parse_item, go_on, parse_file,
}
use pocol_vm.Assembler.Parser.Emit.{Grows, Alike-Grows, advance-Alike, parse_found-Grows}

-- A predicate on contexts that growth within a pass keeps.
abbrev pub Keeps : (Asm → Type 0) → Type 0
Keeps P = (a b : Asm) → P a → Grows a b → P b

module _ (P : Asm → Type 0) (keeps : Keeps P) where
  on_found-Ensures : (f : Found) (a : Asm) → P a → Ensures (λ r b. P b) (on_found f a)
  on_found-Ensures (found d) a p = on_done (keeps a (parse_found d a) p (parse_found-Grows d a))
  on_found-Ensures not_found a p = on_done p
  on_found-Ensures found_fault a p = on_fault

  advance-Keeps : (a : Asm) → P a → P (advance a)
  advance-Keeps a p = keeps a (advance a) p (Alike-Grows a (advance a) (advance-Alike a))

  error-Keeps : (a : Asm) → P a → P (asm_error a)
  error-Keeps a p = keeps a (asm_error a) p (Alike-Grows a (asm_error a) (refl, refl, refl, refl))

  after_inst-Ensures :
      (r : Run Asm Bool) → Ensures (λ _ b. P b) r → Ensures (λ _ b. P b) (after_inst r)
  after_inst-Ensures (done true a) (on_done p) = on_done p
  after_inst-Ensures (done false a) (on_done p) =
      on_done (advance-Keeps (asm_error a) (error-Keeps a p))
  after_inst-Ensures (exits c a) h = on_exits
  after_inst-Ensures fault h = on_fault

  -- An item that is no label of the first pass.
  rest-Ensures :
      (a : Asm)
      → P a
      → Ensures
          (λ _ b. P b)
          (if is_ident a.lookahead.type then after_inst (parse_inst a) else done tt (advance a))
  unfolding parse_inst
  rest-Ensures a p = elim (Bool-cases (is_ident a.lookahead.type)) [
    | inl name ↦ simp name (after_inst-Ensures _ (on_found-Ensures _ a p))
    | inr other ↦ simp other (on_done (advance-Keeps a p))
  ]

  -- A run that is not over, or one that leaves `P`.
  abbrev pub Within : Option (Run Asm (Unit {0})) → Type 0
  Within none = Unit
  Within (some r) = Ensures (λ _ b. P b) r

  go_on-Within :
      (again : Asm → Option (Run Asm (Unit {0}))) (r : Run Asm (Unit {0}))
      → ((b : Asm) → P b → Within (again b))
      → Ensures (λ _ b. P b) r
      → Within (go_on again r)
  go_on-Within again (done u b) next (on_done p) = next b p
  go_on-Within again (exits c b) next h = on_exits
  go_on-Within again fault next h = on_fault

  pub parse_file-Within :
      ((a : Asm) → P a → Ensures (λ _ b. P b) (parse_item a))
      → (f : ℕ) (a : Asm) → P a
      → Within (parse_file f a)
  unfolding parse_file
  parse_file-Within item zero a p = tt
  parse_file-Within item (suc f) a p = elim (Bool-cases (is_eof a.lookahead.type)) [
    | inl end ↦ simp end (on_done p)
    | inr more ↦
        simp more (go_on-Within (parse_file f) (parse_item a) (parse_file-Within item f) (item a p))
  ]

-- The second pass: what is written is what is counted, behind the header.
pub record Wrote (table : Symbols) (a : Asm) : Type 0 where
  pub pass : a.pass ≡ 2
  pub symbols : a.symbols ≡ table
  pub counted : a.virtual_pc ≡ header_size + length a.out

pub Wrote-Keeps : (table : Symbols) → Keeps (Wrote table)
Wrote-Keeps table a b w g = record {
  pass = g.pass ∙ w.pass;
  symbols = g.symbols ∙ w.symbols;
  counted = omega (arith, g.written w.pass, w.counted);
}

-- The addresses of the labels are not in front of the code.
abbrev pub Behind : Symbols → Type 0
Behind [] = Unit
Behind (s ∷ ss) = (header_size ≤ s.pc) × Behind ss

-- The first pass: nothing is written, and every label stands behind the header.
pub record Labelled (a : Asm) : Type 0 where
  pub pass : a.pass ≡ 1
  pub out : a.out ≡ []
  pub virtual_pc : header_size ≤ a.virtual_pc
  pub symbols : Behind a.symbols

pub Labelled-Keeps : Keeps Labelled
Labelled-Keeps a b l g = record {
  pass = g.pass ∙ l.pass;
  out = g.unwritten (λ q. omega (arith, l.pass, q)) ∙ l.out;
  virtual_pc = omega (arith, l.virtual_pc, g.virtual_pc);
  symbols = subst Behind (sym g.symbols) l.symbols;
}

pub Wrote-item :
    (table : Symbols) (a : Asm) → Wrote table a → Ensures (λ _ b. Wrote table b) (parse_item a)
unfolding parse_item
Wrote-item table a w =
    let later : (a.pass == 1) ≡ false = ground (arith, w.pass) in
    simp later (rest-Ensures (Wrote table) (Wrote-Keeps table) a w)

Behind-append :
    (ss : Symbols) (s : SymData) → Behind ss → header_size ≤ s.pc → Behind (ss ++ s ∷ [])
Behind-append [] s all h = (h, tt)
Behind-append (t ∷ ss) s (ht, all) h = (ht, Behind-append ss s all h)

abbrev PushBehind : Push → Type 0
PushBehind (pushed table) = Behind table
PushBehind duplicate = Unit
PushBehind push_fault = Unit

push_found-Behind :
    (table : Symbols) (s : SymData) (o : Option SymData)
    → Behind table
    → header_size ≤ s.pc
    → PushBehind (push_found table s o)
push_found-Behind table s (some old) all h = tt
push_found-Behind table s none all h = elim (Bool-cases (leb compiler_max_symbol (length table))) [
  | inl full ↦ simp full tt
  | inr room ↦ simp room (Behind-append table s all h)
]

-- What follows sympush in the first pass.
after_push-Labelled :
    (a : Asm) (p : Push) → Labelled a → PushBehind p → Ensures (λ _ b. Labelled b) (after_push a p)
unfolding advance
after_push-Labelled a (pushed table) l behind =
    on_done (record { pass = l.pass; out = l.out; virtual_pc = l.virtual_pc; symbols = behind })
after_push-Labelled a duplicate l behind =
    on_done (record { pass = l.pass; out = l.out; virtual_pc = l.virtual_pc; symbols = l.symbols })
after_push-Labelled a push_fault l behind = on_fault

pub Labelled-item : (a : Asm) → Labelled a → Ensures (λ _ b. Labelled b) (parse_item a)
unfolding parse_item parse_label sympush
Labelled-item a l = elim (Bool-cases (a.pass == 1 && is_label a.lookahead.type)) [
  | inr other ↦ simp other (rest-Ensures Labelled Labelled-Keeps a l)
  | inl label ↦ elim (Bool-cases (leb compiler_max_symbol_name a.lookahead.length)) [
    | inl long ↦ simp (label, long) on_fault
    | inr fits ↦
        simp (label, fits)
          (after_push-Labelled a _ l (push_found-Behind a.symbols _ _ l.symbols l.virtual_pc))
  ]
]
