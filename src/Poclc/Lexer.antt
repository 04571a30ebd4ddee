-- ===== src/Poclc/Lexer.antt =====
-- poclc/poclc.c: the tokens. A token of the parser's is the context's current one, not the one that
-- `next_token` returns.
pub mod Progress
pub mod Types
pub mod Names
use pocol_vm.Prelude.{
  ℕ, zero, suc, ◌+◌, ◌-◌, Bool, true, false, not, ◌&&◌, ◌||◌, Option, none, some, List, [], ◌∷◌,
  ◌==◌, if◌then◌else◌, wrap32, length, str_eq,
}
use pocol_vm.Prelude.Text.{codes}
use pocol_vm.State.{on_option}
use pocol_vm.Assembler.Lexer.{is_digit, is_alpha, is_name_byte, newline, strtol}
use pocol_vm.Poclc.Token.{
  TokenType, tok_eof, tok_ident, tok_number, tok_string, tok_func, tok_var, tok_if, tok_else,
  tok_while, tok_for, tok_return, tok_print, tok_input, tok_plus, tok_minus, tok_mult, tok_div,
  tok_mod, tok_assign, tok_eq, tok_ne, tok_lt, tok_le, tok_gt, tok_ge, tok_lparen, tok_rparen,
  tok_lbrace, tok_rbrace, tok_comma, tok_semicolon, tok_error, Token, zero_token, CompilerCtx,
}
use pocol_vm.Poclc.Stream.{
  Input, eof_char, rounds, advance_at, advance, char_at, char_after, peek, peek_next, put_back,
  skip_line, skip_block, is_blank, starts_comment, block_comment, skip_whitespace,
}

abbrev pub init_lexer : List ℕ → CompilerCtx Input
init_lexer bytes = record {
  input = record { source = bytes; eof = false; line = 1; column = 1 };
  current_token = zero_token;
  previous_token = zero_token;
  error_count = 0;
}

-- A loop that collects the bytes it reads while the test holds.
unfoldable pub read_while : (Input → Bool) → ℕ → Input → List ℕ × Input
read_while test zero i = ([], i)
read_while test (suc f) i =
    let (bytes, after) = read_while test f (advance i).1 in
    if test i then ((advance i).0 ∷ bytes, after) else ([], i)

-- The table of keywords, with what is not in it.
unfoldable pub keyword : List ℕ → TokenType
keyword s =
    if str_eq s (codes "func")
    then tok_func
    else if str_eq s (codes "var")
    then tok_var
    else if str_eq s (codes "if")
    then tok_if
    else if str_eq s (codes "else")
    then tok_else
    else if str_eq s (codes "while")
    then tok_while
    else if str_eq s (codes "for")
    then tok_for
    else if str_eq s (codes "return")
    then tok_return
    else if str_eq s (codes "print")
    then tok_print
    else if str_eq s (codes "input")
    then tok_input
    else tok_ident

-- The tokens that the three `read_` functions return. A member of the `Token` that they leave
-- uninitialised is 0 or NULL here.
abbrev pub token_of : TokenType → Input → Token
token_of t i = record zero_token { type = t; line = i.line; column = i.column }

unfoldable pub read_identifier : Input → Token × Input
read_identifier i =
    let (name, after) = read_while (λ j. is_name_byte (peek j)) (rounds i) i in
    (record (token_of (keyword name) i) { lexeme = some name }, after)

unfoldable pub read_number : Input → Token × Input
read_number i =
    let (text, after) = read_while (λ j. is_digit (peek j)) (rounds i) i in
    (record (token_of tok_number i) { value = wrap32 (strtol text).value }, after)

abbrev pub end_string : Token → List ℕ → Input → Token × Input
end_string t text after =
    if after.eof
    then (record t { type = tok_error }, after)
    else (record t { string = some text }, (advance after).1)

unfoldable pub read_string : Input → Token × Input
read_string i =
    let body = (advance i).1 in
    let (text, after) = read_while (λ j. not (peek j == b'"') && not j.eof) (rounds body) body in
    end_string (token_of tok_string i) text after

-- The cases of the `switch` in `next_token` that read one character,
unfoldable pub single : ℕ → Option TokenType
single c =
    if c == b'('
    then some tok_lparen
    else if c == b')'
    then some tok_rparen
    else if c == b'{'
    then some tok_lbrace
    else if c == b'}'
    then some tok_rbrace
    else if c == b','
    then some tok_comma
    else if c == b';'
    then some tok_semicolon
    else if c == b'+'
    then some tok_plus
    else if c == b'-'
    then some tok_minus
    else if c == b'*'
    then some tok_mult
    else if c == b'/'
    then some tok_div
    else if c == b'%'
    then some tok_mod
    else none

-- and those that look for a '=' behind it: the token with it, and the token without.
unfoldable pub paired : ℕ → Option (TokenType × TokenType)
paired c =
    if c == b'='
    then some (tok_eq, tok_assign)
    else if c == b'!'
    then some (tok_ne, tok_error)
    else if c == b'<'
    then some (tok_le, tok_lt)
    else if c == b'>'
    then some (tok_ge, tok_gt)
    else none

abbrev pub Ctx : Type 0
Ctx = CompilerCtx Input

-- The type, line and column of the current token, which is returned.
abbrev pub finish : TokenType → Input → Ctx → Token × Ctx
finish t i ctx =
    let tok = record ctx.current_token { type = t; line = i.line; column = i.column } in
    (tok, record ctx { input = i; current_token = tok })

-- A token that a `read_` function returns: the current token stays.
abbrev pub returned : Token × Input → Ctx → Token × Ctx
returned r ctx = (r.0, record ctx { input = r.1 })

unfoldable pub word_token : ℕ → Input → Ctx → Token × Ctx
word_token c i ctx =
    if c == b'"'
    then returned (read_string (put_back c i)) ctx
    else if is_alpha c || (c == b'_')
    then returned (read_identifier (put_back c i)) ctx
    else if is_digit c
    then returned (read_number (put_back c i)) ctx
    else finish tok_error i ctx

-- The `switch` at the character `c`, with the input behind it.
unfoldable pub switch : ℕ → Input → Ctx → Token × Ctx
switch c i ctx =
    on_option (single c)
      (on_option (paired c) (word_token c i ctx)
        λ p. if peek i == b'=' then finish p.0 (advance i).1 ctx else finish p.1 i ctx)
      (λ t. finish t i ctx)

unfoldable pub next_at : Input → Ctx → Token × Ctx
next_at i ctx = if i.eof then finish tok_eof i ctx else switch (advance i).0 (advance i).1 ctx

-- `next_token`: the token that it returns, and the context.
unfoldable pub next_token : Ctx → Token × Ctx
next_token ctx =
    next_at (skip_whitespace (rounds ctx.input) ctx.input)
      (record ctx { previous_token = ctx.current_token })

-- `consume_token`
abbrev pub consume_token : Ctx → Ctx
consume_token ctx = (next_token ctx).1
