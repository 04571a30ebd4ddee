-- ===== src/Poclc/Main/Words.antt =====
-- poclc/poclc.c: sources whose first token is an identifier, a keyword, a number or a string.
use pocol_vm.Prelude.{
  ℕ, zero, suc, ◌+◌, ◌<◌, ◌≡◌, inl, inr, refl, ap, ◌∙◌, true, List, [], ◌∷◌, ◌++◌, arith, length,
  length-append, Bool-cases, ◌==◌,
}
use pocol_vm.Assembler.Lexer.{is_digit, is_alpha, newline}
use pocol_vm.Poclc.Token.{check_token, zero_token}
use pocol_vm.Poclc.Stream.{Input, advance_at, advance, is_blank, skip_whitespace, rounds}
use pocol_vm.Poclc.Lexer.{
  Ctx, init_lexer, single, paired, word_token, switch, next_at, next_token, consume_token,
}
use pocol_vm.Poclc.Lexer.Names.{input_at, starts_word, skip_whitespace-word}
use pocol_vm.Poclc.Ast.{no_nodes}
use pocol_vm.Poclc.Parser.{ok}
use pocol_vm.Poclc.Statement.{parse_program}
use pocol_vm.Poclc.Main.{written, finish, compile}
use pocol_vm.Poclc.Main.Ends.{empty_program, program_loop-done, generate_code-no_nodes}

abbrev pub Blanks : List ℕ → Type 0
Blanks [] = Unit
Blanks (b ∷ bs) = (is_blank b ≡ true) × Blanks bs

switch-word :
    (c : ℕ) (i : Input) (ctx : Ctx) → starts_word c ≡ true → switch c i ctx ≡ word_token c i ctx
unfolding switch single paired is_alpha is_digit
switch-word c i ctx w = ground (arith, w)

word_token-word :
    (c : ℕ) (i : Input) (ctx : Ctx)
    → starts_word c ≡ true
    → (word_token c i ctx).1.current_token ≡ ctx.current_token
unfolding word_token
word_token-word c i ctx w = ground (arith, w)

word_token-errors :
    (c : ℕ) (i : Input) (ctx : Ctx)
    → starts_word c ≡ true
    → (word_token c i ctx).1.error_count ≡ ctx.error_count
unfolding word_token
word_token-errors c i ctx w = ground (arith, w)

advance-blank :
    (b : ℕ) (s : List ℕ) (l k : ℕ)
    → (l' : ℕ) × ((k' : ℕ) × ((advance (input_at (b ∷ s) l k)).1 ≡ input_at s l' k'))
unfolding advance
advance-blank b s l k = elim (Bool-cases (b == newline)) [
  | inl e ↦ (l + 1, (1, simp e refl))
  | inr e ↦ (l, (k + 1, simp e refl))
]

skip_whitespace-blank :
    (f : ℕ) (b : ℕ) (s : List ℕ) (l k : ℕ)
    → is_blank b ≡ true
    → skip_whitespace (suc f) (input_at (b ∷ s) l k)
      ≡ skip_whitespace f (advance (input_at (b ∷ s) l k)).1
unfolding skip_whitespace
skip_whitespace-blank f b s l k blank = simp blank refl

-- Blanks are skipped, up to the word.
skip_whitespace-Blanks :
    (bs : List ℕ) (c : ℕ) (cs : List ℕ) (f l k : ℕ)
    → Blanks bs
    → starts_word c ≡ true
    → length bs < f
    → (l' : ℕ) × ((k' : ℕ) × (skip_whitespace f (input_at (bs ++ (c ∷ cs)) l k)
          ≡ input_at (c ∷ cs) l' k'))
skip_whitespace-Blanks bs c cs zero l k blank w room = absurd (omega arith)
skip_whitespace-Blanks [] c cs (suc f) l k blank w room =
    (l, (k, skip_whitespace-word (suc f) c cs l k w))
skip_whitespace-Blanks (b ∷ bs) c cs (suc f) l k (blank, blanks) w room =
    let (l₁, (k₁, e)) = advance-blank b (bs ++ (c ∷ cs)) l k in
    let (l', (k', e')) = skip_whitespace-Blanks bs c cs f l₁ k₁ blanks w (omega arith) in
    (
      l',
      (k', skip_whitespace-blank f b (bs ++ (c ∷ cs)) l k blank ∙ (ap (skip_whitespace f) e ∙ e')),
    )

-- The first `next_token` at a word leaves the current token as it was, and reports nothing.
next_at-word :
    (c : ℕ) (cs : List ℕ) (l k : ℕ) (ctx : Ctx)
    → starts_word c ≡ true
    → ((next_at (input_at (c ∷ cs) l k) ctx).1.current_token ≡ ctx.current_token)
      × ((next_at (input_at (c ∷ cs) l k) ctx).1.error_count ≡ ctx.error_count)
unfolding next_at advance
next_at-word c cs l k ctx w =
    let r = advance_at (c ∷ cs) (input_at (c ∷ cs) l k) in
    (
      ground (arith, w, switch-word c r.1 ctx w, word_token-word c r.1 ctx w),
      ground (arith, w, switch-word c r.1 ctx w, word_token-errors c r.1 ctx w),
    )

-- The context at the top-level loop.
record Silent (ctx : Ctx) : Type 0 where
  current : ctx.current_token ≡ zero_token
  errors : ctx.error_count ≡ 0

consume_token-Silent :
    (bs : List ℕ) (c : ℕ) (cs : List ℕ)
    → Blanks bs
    → starts_word c ≡ true
    → Silent (consume_token (init_lexer (bs ++ (c ∷ cs))))
unfolding next_token
consume_token-Silent bs c cs blanks w =
    let bytes = bs ++ (c ∷ cs) in
    let start = init_lexer bytes in
    let (l, (k, e)) =
      skip_whitespace-Blanks bs c cs (rounds start.input) 1 1 blanks w
        (omega (arith, length-append bs (c ∷ cs))) in
    let (same, clean) =
      next_at-word c cs l k (record start { previous_token = start.current_token }) w in
    rw (consume_token, next_token, e) (record { current = same; errors = clean })

finish-Silent : (ctx : Ctx) → Silent ctx → finish (ok (no_nodes, ctx)) ≡ written empty_program
unfolding finish
finish-Silent ctx s = simp (s.errors, generate_code-no_nodes) refl

-- A source that starts, behind blanks, with an identifier, a keyword, a number or a string is
-- compiled without an error to the empty program, so that no program that starts with `func` or
-- `var` gets any code.
pub compile-word :
    (bs : List ℕ) (c : ℕ) (cs : List ℕ)
    → Blanks bs
    → starts_word c ≡ true
    → compile (bs ++ (c ∷ cs)) ≡ written empty_program
unfolding compile parse_program check_token
compile-word bs c cs blanks w =
    let bytes = bs ++ (c ∷ cs) in
    let start = consume_token (init_lexer bytes) in
    let s = consume_token-Silent bs c cs blanks w in
    rw (program_loop-done (length bytes + 2) no_nodes start (simp s.current refl))
      (finish-Silent start s)
