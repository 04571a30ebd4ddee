-- ===== src/Poclc/Parser.antt =====
-- poclc/poclc.c: the recursive descent, over any `next_token` on a context. A call and each round of
-- a loop cost a unit of fuel. `null_text` is `strdup` of a NULL pointer.
use pocol_vm.Prelude.{ℕ, zero, suc, Bool, ◌||◌, Option, none, some, List, if◌then◌else◌}
use pocol_vm.Prelude.Text.{codes}
use pocol_vm.Poclc.Token.{
  TokenType, tok_ident, tok_number, tok_string, tok_print, tok_input, tok_plus, tok_minus, tok_mult,
  tok_div, tok_mod, tok_eq, tok_ne, tok_lt, tok_le, tok_gt, tok_ge, tok_lparen, tok_rparen,
  tok_comma, CompilerCtx, check_token, error_token,
}
use pocol_vm.Poclc.Ast.{
  Ast, Nodes, null, binary_expr, unary_expr, call_expr, ident_expr, number_expr, string_expr,
  no_nodes, ast_add_child,
}

pub data Result (A : Type 0) : Type 0 where
  ok : A → Result A
  null_text : Result A
  out_of_fuel : Result A

infixl 1 ◌>>=◌
abbrev pub ◌>>=◌ : {A B : Type 0} → Result A → (A → Result B) → Result B
ok a >>= k = k a
null_text >>= k = null_text
out_of_fuel >>= k = out_of_fuel

-- `strdup(s)`, and what is done with the copy.
abbrev pub strdup : {B : Type 0} → Option (List ℕ) → (List ℕ → Result B) → Result B
strdup none k = null_text
strdup (some s) k = k s

module _ {S : Type 0} where
  unfoldable pub is_operator : CompilerCtx S → Bool
  is_operator ctx =
      check_token ctx tok_plus
      || check_token ctx tok_minus
      || check_token ctx tok_mult
      || check_token ctx tok_div
      || check_token ctx tok_mod
      || check_token ctx tok_eq
      || check_token ctx tok_ne
      || check_token ctx tok_lt
      || check_token ctx tok_le
      || check_token ctx tok_gt
      || check_token ctx tok_ge

module _ {S : Type 0} (next : CompilerCtx S → CompilerCtx S) where
  -- `if (!check_token(ctx, t)) error_token(…); consume_token(ctx);`
  abbrev pub expect : TokenType → CompilerCtx S → CompilerCtx S
  expect t ctx = next (if check_token ctx t then ctx else error_token ctx)

  unfoldable mutual
    pub parse_binary_expr : ℕ → CompilerCtx S → Result (Ast × CompilerCtx S)
    parse_binary_expr zero ctx = out_of_fuel
    parse_binary_expr (suc f) ctx = parse_unary_expr f ctx >>= λ (left, c). binary_loop f left c

    pub binary_loop : ℕ → Ast → CompilerCtx S → Result (Ast × CompilerCtx S)
    binary_loop zero left ctx = out_of_fuel
    binary_loop (suc f) left ctx =
        let more = parse_unary_expr f (next ctx) >>= λ (right, c).
        binary_loop f (binary_expr ctx.current_token.type left right) c in
        if is_operator ctx then more else ok (left, ctx)

    pub parse_unary_expr : ℕ → CompilerCtx S → Result (Ast × CompilerCtx S)
    parse_unary_expr zero ctx = out_of_fuel
    parse_unary_expr (suc f) ctx =
        let minus = parse_unary_expr f (next ctx) >>= λ (operand, c).
        ok (unary_expr (codes "-") operand, c) in
        let primary = parse_primary f ctx in if check_token ctx tok_minus then minus else primary

    pub parse_primary : ℕ → CompilerCtx S → Result (Ast × CompilerCtx S)
    parse_primary zero ctx = out_of_fuel
    parse_primary (suc f) ctx =
        let group =
          parse_binary_expr f (next ctx) >>= λ (expr, c). ok (expr, expect tok_rparen c) in
        let call = parse_call f (next ctx) >>= λ (args, c).
        ok (
          call_expr (if check_token ctx tok_print then codes "print" else codes "input") args,
          c,
        ) in
        if check_token ctx tok_number
        then ok (number_expr ctx.current_token.value, next ctx)
        else if check_token ctx tok_string
        then strdup ctx.current_token.string (λ s. ok (string_expr s, next ctx))
        else if check_token ctx tok_ident
        then strdup ctx.current_token.lexeme (λ s. ok (ident_expr s, next ctx))
        else if check_token ctx tok_lparen
        then group
        else if check_token ctx tok_print || check_token ctx tok_input
        then call
        else ok (null, next (error_token ctx))

    -- The arguments behind `print` or `input`, with their parentheses.
    pub parse_call : ℕ → CompilerCtx S → Result (Nodes × CompilerCtx S)
    parse_call zero ctx = out_of_fuel
    parse_call (suc f) ctx =
        let args = parse_binary_expr f (next ctx) >>= λ (first, c).
        arguments_loop f (ast_add_child no_nodes first) c >>= λ (ns, c').
        ok (ns, expect tok_rparen c') in
        if check_token ctx tok_lparen
        then if check_token (next ctx) tok_rparen
          then ok (no_nodes, expect tok_rparen (next ctx))
          else args
        else ok (no_nodes, ctx)

    pub arguments_loop : ℕ → Nodes → CompilerCtx S → Result (Nodes × CompilerCtx S)
    arguments_loop zero ns ctx = out_of_fuel
    arguments_loop (suc f) ns ctx =
        let more = parse_binary_expr f (next ctx) >>= λ (arg, c).
        arguments_loop f (ast_add_child ns arg) c in
        if check_token ctx tok_comma then more else ok (ns, ctx)

  abbrev pub parse_expression : ℕ → CompilerCtx S → Result (Ast × CompilerCtx S)
  parse_expression = parse_binary_expr
