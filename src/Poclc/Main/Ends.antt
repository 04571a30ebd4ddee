-- ===== src/Poclc/Main/Ends.antt =====
-- poclc/poclc.c, poclc/poclc_main.c: how the compiler ends on the lexer's tokens.
use pocol_vm.Prelude.{
  ℕ, zero, suc, ◌+◌, ◌<◌, ◌≡◌, ◌⊎◌, inl, inr, refl, true, false, List, [], ◌∷◌, ◌++◌, arith, length,
  Bool-cases, if◌then◌else◌, ltb, ltb→lt, ◌∙◌,
}
use pocol_vm.Machine.{emit64}
use pocol_vm.Poclc.Token.{tok_eof, check_token, error_token}
use pocol_vm.Poclc.Lexer.{Ctx, init_lexer, consume_token}
use pocol_vm.Poclc.Lexer.Progress.{todo, consume_token_lt}
use pocol_vm.Poclc.Lexer.Types.{is_word, type_of, consume_token-is_word}
use pocol_vm.Poclc.Ast.{Nodes, no_nodes}
use pocol_vm.Poclc.Parser.{ok}
use pocol_vm.Poclc.Statement.{program_loop, parse_program}
use pocol_vm.Poclc.Generate.{pocol_magic, gen_stmts, generate_code}
use pocol_vm.Poclc.Main.{failed, written, finish, compile}

-- The rounds of the top-level loop that are left.
abbrev left : Ctx → ℕ
left ctx = if check_token ctx tok_eof then 0 else suc (todo ctx.input)

consume_token-left :
    (ctx : Ctx) → check_token ctx tok_eof ≡ false → left (consume_token ctx) < left ctx
unfolding check_token
consume_token-left ctx live = elim (consume_token_lt ctx) [
  | inl less ↦ ground (arith, less, live)
  | inr done ↦ simp (done, live) (omega arith)
]

-- A current token that is no word leads to no function and to no statement.
program_loop-step :
    (f : ℕ) (ns : Nodes) (ctx : Ctx)
    → is_word (type_of ctx) ≡ false
    → check_token ctx tok_eof ≡ false
    → (program_loop consume_token (suc f) ns ctx
        ≡ program_loop consume_token f ns (consume_token ctx))
      ⊎ (program_loop consume_token (suc f) ns ctx
          ≡ program_loop consume_token f ns (consume_token (error_token ctx)))
unfolding program_loop check_token
program_loop-step f ns ctx plain live = ground (arith, plain, live)

pub program_loop-done :
    (f : ℕ) (ns : Nodes) (ctx : Ctx)
    → check_token ctx tok_eof ≡ true
    → program_loop consume_token (suc f) ns ctx ≡ ok (ns, ctx)
unfolding program_loop
program_loop-done f ns ctx done = simp done

-- The loop ends, and no child has been added.
program_loop-Ends :
    (f : ℕ) (ns : Nodes) (ctx : Ctx)
    → is_word (type_of ctx) ≡ false
    → left ctx < f
    → (c : Ctx) × (program_loop consume_token f ns ctx ≡ ok (ns, c))
unfolding check_token
program_loop-Ends zero ns ctx plain room = absurd (omega arith)
program_loop-Ends (suc f) ns ctx plain room = elim (Bool-cases (check_token ctx tok_eof)) [
  | inl done ↦ (ctx, program_loop-done f ns ctx done)
  | inr live ↦
      let bad = error_token ctx in
      elim (program_loop-step f ns ctx plain live) [
        | inl e ↦
            let (c, ends) =
              program_loop-Ends f ns (consume_token ctx) (consume_token-is_word ctx plain)
                (omega (arith, consume_token-left ctx live)) in
            (c, e ∙ ends)
        | inr e ↦
            let (c, ends) =
              program_loop-Ends f ns (consume_token bad) (consume_token-is_word bad plain)
                (omega (arith, consume_token-left bad live)) in
            (c, e ∙ ends)
      ]
]

-- The nine bytes of a program without functions: the magic number and HALT.
abbrev pub empty_program : List ℕ
empty_program = emit64 pocol_magic ++ (0 ∷ [])

pub generate_code-no_nodes : generate_code no_nodes ≡ empty_program
unfolding generate_code gen_stmts
generate_code-no_nodes = refl

-- `main`, at a program without functions.
finish-no_nodes :
    (c : Ctx)
    → (finish (ok (no_nodes, c)) ≡ written empty_program)
      ⊎ ((n : ℕ) × ((0 < n) × (finish (ok (no_nodes, c)) ≡ failed n)))
unfolding finish
finish-no_nodes c = elim (Bool-cases (ltb 0 c.error_count)) [
  | inl bad ↦ inr (c.error_count, (ltb→lt 0 c.error_count bad, simp bad))
  | inr clean ↦ inl (simp (clean, generate_code-no_nodes))
]

left-init_lexer :
    (bytes : List ℕ) → left (consume_token (init_lexer bytes)) < suc (length bytes + 2)
unfolding check_token
left-init_lexer bytes = elim (consume_token_lt (init_lexer bytes)) [
  | inl less ↦ ground (arith, less)
  | inr done ↦ simp done (omega arith)
]

-- The compiler ends on every source. Either it reports at least one error, or it writes the nine
-- bytes of the empty program, whatever functions and statements the source has.
pub compile-total :
    (bytes : List ℕ)
    → (compile bytes ≡ written empty_program) ⊎ ((n : ℕ) × ((0 < n) × (compile bytes ≡ failed n)))
unfolding compile parse_program
compile-total bytes =
    let start = consume_token (init_lexer bytes) in
    let (c, ends) =
      program_loop-Ends (suc (length bytes + 2)) no_nodes start
        (consume_token-is_word (init_lexer bytes) refl) (left-init_lexer bytes) in
    rw ends (finish-no_nodes c)
