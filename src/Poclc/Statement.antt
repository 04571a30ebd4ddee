-- ===== src/Poclc/Statement.antt =====
-- poclc/poclc.c: statements, functions and the program, over any `next_token` on a context.
use pocol_vm.Prelude.{ℕ, zero, suc, ◌+◌, not, ◌&&◌, ◌||◌, none, some, if◌then◌else◌}
use pocol_vm.Poclc.Token.{
  TokenType, tok_eof, tok_ident, tok_var, tok_func, tok_if, tok_else, tok_while, tok_for,
  tok_return, tok_print, tok_assign, tok_lparen, tok_rparen, tok_lbrace, tok_rbrace, tok_comma,
  tok_semicolon, CompilerCtx, check_token, error_token,
}
use pocol_vm.Poclc.Ast.{
  Ast, Nodes, null, func_decl, var_decl, if_stmt, while_stmt, for_stmt, return_stmt, print_stmt,
  block, no_nodes, ast_add_child,
}
use pocol_vm.Poclc.Parser.{Result, ok, out_of_fuel, ◌>>=◌, strdup, expect, parse_expression}

module _ {S : Type 0} (next : CompilerCtx S → CompilerCtx S) where
  -- An expression, unless the token `t` is there.
  abbrev pub unless : TokenType → ℕ → CompilerCtx S → Result (Ast × CompilerCtx S)
  unless t f ctx = if check_token ctx t then ok (null, ctx) else parse_expression next f ctx

  -- The branches of `parse_statement` that contain no statement.
  unfoldable pub var_init : ℕ → CompilerCtx S → Result (Ast × CompilerCtx S)
  var_init f ctx =
      if check_token ctx tok_assign then parse_expression next f (next ctx) else ok (null, ctx)

  unfoldable pub parse_var : ℕ → CompilerCtx S → Result (Ast × CompilerCtx S)
  unfolding var_init
  parse_var f ctx =
      let named = strdup ctx.current_token.lexeme (λ name. var_init f (next ctx) >>= λ (left, c).
      ok (var_decl (some name) left, expect next tok_semicolon c)) in
      if check_token ctx tok_ident
      then named
      else ok (var_decl none null, expect next tok_semicolon ctx)

  unfoldable pub parse_print : ℕ → CompilerCtx S → Result (Ast × CompilerCtx S)
  parse_print f ctx =
      unless tok_semicolon f ctx >>= λ (left, c). ok (print_stmt left, expect next tok_semicolon c)

  unfoldable pub parse_return : ℕ → CompilerCtx S → Result (Ast × CompilerCtx S)
  parse_return f ctx =
      unless tok_semicolon f ctx >>= λ (left, c). ok (return_stmt left, expect next tok_semicolon c)

  unfoldable pub parse_expr_stmt : ℕ → CompilerCtx S → Result (Ast × CompilerCtx S)
  parse_expr_stmt f ctx =
      parse_expression next f ctx >>= λ (expr, c). ok (expr, expect next tok_semicolon c)

  -- "(condition)" of `if` and `while`
  unfoldable pub parse_condition : ℕ → CompilerCtx S → Result (Ast × CompilerCtx S)
  parse_condition f ctx = parse_expression next f (expect next tok_lparen ctx) >>= λ (left, c).
      ok (left, expect next tok_rparen c)

  -- The head of `for`: the initialisation and the increment. The condition is parsed, and its node
  -- is overwritten by the body's.
  unfoldable pub parse_for_head : ℕ → CompilerCtx S → Result ((Ast × Ast) × CompilerCtx S)
  parse_for_head f ctx = unless tok_semicolon f (expect next tok_lparen ctx) >>= λ (left, c₁).
      unless tok_semicolon f (next c₁) >>= λ (condition, c₂).
      unless tok_rparen f (next c₂) >>= λ (right, c₃). ok ((left, right), next c₃)

  unfoldable mutual
    unfolding check_token parse_var parse_print parse_return parse_expr_stmt parse_condition
        parse_for_head ast_add_child

    pub parse_statement : ℕ → CompilerCtx S → Result (Ast × CompilerCtx S)
    parse_statement zero ctx = out_of_fuel
    parse_statement (suc f) ctx =
        let braces =
          block_loop f no_nodes (next ctx) >>= λ (ns, c). ok (block ns, expect next tok_rbrace c) in
        let conditional = parse_condition f (next ctx) >>= λ (left, c₁).
        parse_statement f c₁ >>= λ (middle, c₂).
        parse_else f c₂ >>= λ (right, c₃). ok (if_stmt left middle right, c₃) in
        let while_loop = parse_condition f (next ctx) >>= λ (left, c₁).
        parse_statement f c₁ >>= λ (right, c₂). ok (while_stmt left right, c₂) in
        let for_loop = parse_for_head f (next ctx) >>= λ ((left, right), c₁).
        parse_statement f c₁ >>= λ (middle, c₂). ok (for_stmt left middle right, c₂) in
        if check_token ctx tok_lbrace
        then braces
        else if check_token ctx tok_var
        then parse_var f (next ctx)
        else if check_token ctx tok_print
        then parse_print f (next ctx)
        else if check_token ctx tok_return
        then parse_return f (next ctx)
        else if check_token ctx tok_if
        then conditional
        else if check_token ctx tok_while
        then while_loop
        else if check_token ctx tok_for
        then for_loop
        else parse_expr_stmt f ctx

    pub parse_else : ℕ → CompilerCtx S → Result (Ast × CompilerCtx S)
    parse_else zero ctx = out_of_fuel
    parse_else (suc f) ctx =
        let branch = parse_statement f (next ctx) in
        if check_token ctx tok_else then branch else ok (null, ctx)

    pub block_loop : ℕ → Nodes → CompilerCtx S → Result (Nodes × CompilerCtx S)
    block_loop zero ns ctx = out_of_fuel
    block_loop (suc f) ns ctx =
        let more =
          parse_statement f ctx >>= λ (child, c). block_loop f (ast_add_child ns child) c in
        if not (check_token ctx tok_rbrace) && not (check_token ctx tok_eof)
        then more
        else ok (ns, ctx)

  -- The loop over the parameters of a function: their number.
  unfoldable pub params_loop : ℕ → ℕ → CompilerCtx S → Result (ℕ × CompilerCtx S)
  params_loop zero n ctx = out_of_fuel
  params_loop (suc f) n ctx =
      let after = if check_token (next ctx) tok_comma then next (next ctx) else next ctx in
      let more = params_loop f (n + 1) after in
      if check_token ctx tok_rparen || check_token ctx tok_eof
      then ok (n, ctx)
      else if check_token ctx tok_ident
      then more
      else ok (n, ctx)

  unfoldable pub parse_params : ℕ → CompilerCtx S → Result (ℕ × CompilerCtx S)
  unfolding params_loop
  parse_params f ctx =
      let listed = params_loop f 0 (next ctx) >>= λ (n, c). ok (n, expect next tok_rparen c) in
      if check_token ctx tok_lparen then listed else ok (0, ctx)

  unfoldable pub parse_body : ℕ → CompilerCtx S → Result (Ast × CompilerCtx S)
  unfolding parse_statement
  parse_body f ctx =
      if check_token ctx tok_lbrace then parse_statement f ctx else ok (null, error_token ctx)

  unfoldable pub parse_function : ℕ → CompilerCtx S → Result (Ast × CompilerCtx S)
  unfolding parse_params parse_body
  parse_function f ctx =
      let named = strdup ctx.current_token.lexeme (λ name. parse_params f (next ctx) >>= λ (n, c₁).
      parse_body f c₁ >>= λ (left, c₂). ok (func_decl name n left, c₂)) in
      if check_token ctx tok_ident then named else ok (null, error_token ctx)

  unfoldable pub program_loop : ℕ → Nodes → CompilerCtx S → Result (Nodes × CompilerCtx S)
  unfolding parse_function ast_add_child parse_statement
  program_loop zero ns ctx = out_of_fuel
  program_loop (suc f) ns ctx =
      let function =
        parse_function f (next ctx) >>= λ (child, c). program_loop f (ast_add_child ns child) c in
      let variable =
        parse_statement f ctx >>= λ (child, c). program_loop f (ast_add_child ns child) c in
      let empty = program_loop f ns (next ctx) in
      let unexpected = program_loop f ns (next (error_token ctx)) in
      if check_token ctx tok_eof
      then ok (ns, ctx)
      else if check_token ctx tok_func
      then function
      else if check_token ctx tok_var
      then variable
      else if check_token ctx tok_semicolon
      then empty
      else unexpected

  unfoldable pub parse_program : ℕ → CompilerCtx S → Result (Nodes × CompilerCtx S)
  unfolding program_loop
  parse_program f ctx = program_loop f no_nodes (next ctx)
