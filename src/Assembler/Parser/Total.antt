-- ===== src/Assembler/Parser/Total.antt =====
-- posm/compiler.c: the passes of pocol_compile_file end.
use pocol_vm.Prelude.{
  ℕ, zero, suc, ◌+◌, ◌≤◌, ◌<◌, ◌≡◌, ◌≢◌, refl, ap, ◌⊎◌, Bool, true, false, ◌&&◌, Option, none, some,
  List, [], ◌∷◌, arith, length, Bool-cases, inl, inr, ltb, leb, ◌==◌, if◌then◌else◌, wrap8,
}
use pocol_vm.Machine.{desc_pack, emit64}
use pocol_vm.State.{Run, done, exits, fault, Ensures, on_done, on_fault}
use pocol_vm.Vm.{opr_reg}
use pocol_vm.Assembler.Symbol.{
  compiler_max_symbol_name, SymData, Push, pushed, duplicate, push_fault,
}
use pocol_vm.Assembler.Lexer.{tok_eof, consume_until_newline, next, peek}
use pocol_vm.Assembler.Lexer.Progress.{
  left, next-Progress, compiler_error_le, consume_until_newline_le,
}
use pocol_vm.Assembler.Parser.{
  Asm, InstDef, Found, found, not_found, found_fault, advance, emit, asm_error, peek_type, is_ident,
  operand_value, parse_operand, parse_found, on_found, parse_inst,
}
use pocol_vm.Assembler.Parser.Passes.{
  is_eof, is_label, end_label, after_push, parse_label, after_inst, parse_item, go_on, parse_file,
  start_pass, map_finish, second_pass, first_pass, compile_file,
}

-- The source that is left does not grow.
abbrev Stays : Asm → Asm → Type 0
Stays a b = left b.lexer ≤ left a.lexer

-- It shrinks, or it has come to its end.
abbrev Forward : Asm → Asm → Type 0
Forward a b = Stays a b × ((b.lookahead.type ≡ tok_eof) ⊎ (left b.lexer < left a.lexer))

Forward-after : (a b c : Asm) → Stays a b → Forward b c → Forward a c
Forward-after a b c s (le, inl ended) = (omega (arith, s, le), inl ended)
Forward-after a b c s (le, inr lt) = (omega (arith, s, le), inr (omega (arith, s, lt)))

Forward-trans : (a b c : Asm) → Forward a b → Forward b c → Forward a c
Forward-trans a b c f g = Forward-after a b c f.0 g

advance-Forward : (a : Asm) → Forward a (advance a)
unfolding advance
advance-Forward a = next-Progress a.lexer

advance-after : (a b : Asm) → Stays a b → Forward a (advance b)
advance-after a b s = Forward-after a b (advance b) s (advance-Forward b)

emit-lexer : (bytes : List ℕ) (a : Asm) → (emit bytes a).lexer ≡ a.lexer
emit-lexer bytes a = elim (Bool-cases (a.pass == 2)) [
  | inl second ↦ simp second
  | inr first ↦ simp first
]

peek_type-Stays : (i : ℕ) (wanted : Bool) (a : Asm) → Stays a (peek_type i wanted a).1
unfolding peek_type peek
peek_type-Stays i true a = omega arith
peek_type-Stays i false a = omega arith

operand_value-Stays : (a : Asm) → Stays a (operand_value a).1
unfolding operand_value
operand_value-Stays a = ground (arith, compiler_error_le a.lexer)

-- The bytes of an operand, and the next token.
emitted-Forward :
    (bytes : List ℕ) (n : ℕ) (a b : Asm)
    → Stays a b
    → Forward a (advance (emit bytes (record b { virtual_pc = b.virtual_pc + n })))
emitted-Forward bytes n a b s =
    let c = emit bytes (record b { virtual_pc = b.virtual_pc + n }) in
    advance-after a c
      (omega (arith, ap left (emit-lexer bytes (record b { virtual_pc = b.virtual_pc + n })), s))

parse_operand-Forward : (type : ℕ) (a : Asm) → Forward a (parse_operand type a)
unfolding parse_operand
parse_operand-Forward type a =
    let r = operand_value a in
    let s = operand_value-Stays a in
    elim (Bool-cases (type == opr_reg)) [
      | inl one ↦ simp one (emitted-Forward (wrap8 r.0 ∷ []) 1 a r.1 s)
      | inr eight ↦ simp eight (emitted-Forward (emit64 r.0) 8 a r.1 s)
    ]

-- The opcode and the descriptor, and the next token.
counted-Forward :
    (b₁ b₂ : ℕ) (a b : Asm)
    → Stays a b
    → let e = emit (b₁ ∷ b₂ ∷ []) b in
      Forward a (advance (record e { virtual_pc = e.virtual_pc + 2 }))
counted-Forward b₁ b₂ a b s =
    let e = emit (b₁ ∷ b₂ ∷ []) b in
    advance-after a (record e { virtual_pc = e.virtual_pc + 2 })
      (omega (arith, ap left (emit-lexer (b₁ ∷ b₂ ∷ []) b), s))

if-Forward : (b : Bool) (a c x : Asm) → Forward a c → Forward c x → Forward a (if b then x else c)
if-Forward true a c x f g = Forward-trans a c x f g
if-Forward false a c x f g = f

-- Two operands, each optional, behind another step.
then-operands :
    (b₁ b₂ : Bool) (t₁ t₂ : ℕ) (a b : Asm)
    → Forward a b
    → let c = if b₁ then parse_operand t₁ b else b in
      Forward a (if b₂ then parse_operand t₂ c else c)
then-operands b₁ b₂ t₁ t₂ a b f =
    let c = if b₁ then parse_operand t₁ b else b in
    if-Forward b₂ a c (parse_operand t₂ c)
      (if-Forward b₁ a b (parse_operand t₁ b) f (parse_operand-Forward t₁ b))
      (parse_operand-Forward t₂ c)

parse_found-Forward : (d : InstDef) (a : Asm) → Forward a (parse_found d a)
unfolding parse_found
parse_found-Forward d a =
    let first = peek_type 0 (ltb 0 d.operand) a in
    let second = peek_type 1 (ltb 1 d.operand) first.1 in
    then-operands _ _ first.0 second.0 a _ (
      counted-Forward d.type (desc_pack first.0 second.0) a second.1 (
        omega (
          arith,
          peek_type-Stays 0 (ltb 0 d.operand) a,
          peek_type-Stays 1 (ltb 1 d.operand) first.1,
        )))

-- What an item leaves, if it ends with a value.
abbrev Leaves : {A : Type 0} → Asm → Run Asm A → Type 0
Leaves a r = Ensures (λ _ b. Forward a b) r

on_found-Leaves : (f : Found) (a : Asm) → Leaves a (after_inst (on_found f a))
on_found-Leaves (found d) a = on_done (parse_found-Forward d a)
on_found-Leaves not_found a = on_done (advance-after a (asm_error a) (compiler_error_le a.lexer))
on_found-Leaves found_fault a = on_fault

end_label-Forward : (a : Asm) → Forward a (end_label a)
end_label-Forward a =
    advance-after a (record a { lexer = consume_until_newline a.lexer })
      (consume_until_newline_le a.lexer)

after_push-Leaves : (a : Asm) (p : Push) → Leaves a (after_push a p)
after_push-Leaves a (pushed table) = on_done (end_label-Forward (record a { symbols = table }))
after_push-Leaves a duplicate = on_done (
    Forward-after a (asm_error a) (end_label (asm_error a)) (compiler_error_le a.lexer)
      (end_label-Forward (asm_error a)))
after_push-Leaves a push_fault = on_fault

parse_item-Leaves : (a : Asm) → Leaves a (parse_item a)
unfolding parse_item parse_label parse_inst
parse_item-Leaves a = elim (Bool-cases (a.pass == 1 && is_label a.lookahead.type)) [
  | inl label ↦ elim (Bool-cases (leb compiler_max_symbol_name a.lookahead.length)) [
    | inl long ↦ simp (label, long) on_fault
    | inr fits ↦ simp (label, fits) (after_push-Leaves a _)
  ]
  | inr other ↦ elim (Bool-cases (is_ident a.lookahead.type)) [
    | inl name ↦ simp (other, name) (on_found-Leaves _ a)
    | inr skip ↦ simp (other, skip) (on_done (advance-Forward a))
  ]
]

-- A run that is over.
abbrev Over : {A : Type 0} → Option (Run Asm A) → Type 0
Over o = o ≢ none

go_on-Over :
    (a : Asm) (again : Asm → Option (Run Asm (Unit {0}))) (r : Run Asm (Unit {0}))
    → Leaves a r
    → ((b : Asm) → Forward a b → Over (again b))
    → Over (go_on again r)
go_on-Over a again (done u b) (on_done f) next = next b f
go_on-Over a again (exits c b) h next = λ q. cc
go_on-Over a again fault h next = λ q. cc

is_eof-eof : (a : Asm) → a.lookahead.type ≡ tok_eof → is_eof a.lookahead.type ≡ true
is_eof-eof a e = ap is_eof e

parse_file-ended : (f : ℕ) (a : Asm) → a.lookahead.type ≡ tok_eof → Over (parse_file (suc f) a)
unfolding parse_file
parse_file-ended f a e = simp (is_eof-eof a e) (λ q. cc)

parse_file-Over : (f : ℕ) (a : Asm) → left a.lexer + 2 ≤ f → Over (parse_file f a)
unfolding parse_file
parse_file-Over zero a enough = absurd (omega arith)
parse_file-Over (suc zero) a enough = absurd (omega arith)
parse_file-Over (suc (suc f)) a enough = elim (Bool-cases (is_eof a.lookahead.type)) [
  | inl end ↦ simp end (λ q. cc)
  | inr more ↦ simp more (
      go_on-Over a (parse_file (suc f)) (parse_item a) (parse_item-Leaves a) λ b step. elim step.1 [
        | inl ended ↦ parse_file-ended f b ended
        | inr lt ↦ parse_file-Over (suc f) b (omega (arith, lt))
      ])
]

start-left :
    (source : List ℕ) (pass errors : ℕ) (symbols : List SymData) (out : List ℕ)
    → left (start_pass source pass errors symbols out).lexer ≤ length source
unfolding start_pass
start-left source pass errors symbols out =
    (next-Progress (record { cursor = source; line = 1; col = 1; total_error = errors })).0

map_finish-Over : (o : Option (Run Asm (Unit {0}))) → Over o → Over (map_finish o)
map_finish-Over none h = absurd (h refl)
map_finish-Over (some r) h = λ q. cc

second_pass-Over :
    (fuel : ℕ) (source : List ℕ) (r : Run Asm (Unit {0}))
    → length source + 2 ≤ fuel
    → Over (second_pass fuel source r)
second_pass-Over fuel source (exits c a) enough = λ q. cc
second_pass-Over fuel source fault enough = λ q. cc
second_pass-Over fuel source (done u a) enough = elim (Bool-cases (ltb 0 a.lexer.total_error)) [
  | inl errors ↦ simp errors (λ q. cc)
  | inr fine ↦ simp fine (
      map_finish-Over _ (
        parse_file-Over fuel (start_pass source 2 a.lexer.total_error a.symbols a.out)
          (omega (arith, start-left source 2 a.lexer.total_error a.symbols a.out))))
]

first_pass-Over :
    (fuel : ℕ) (source : List ℕ) (o : Option (Run Asm (Unit {0})))
    → length source + 2 ≤ fuel
    → Over o
    → Over (first_pass fuel source o)
first_pass-Over fuel source none enough h = absurd (h refl)
first_pass-Over fuel source (some r) enough h = second_pass-Over fuel source r enough

-- The assembler ends on every source: fuel that is 2 above the length of the source is enough for
-- both passes.
pub compile_file-total :
    (fuel : ℕ) (source : List ℕ) → length source + 2 ≤ fuel → compile_file fuel source ≢ none
unfolding compile_file
compile_file-total fuel source enough = first_pass-Over fuel source _ enough (
    parse_file-Over fuel (start_pass source 1 0 [] []) (omega (arith, start-left source 1 0 [] [])))
