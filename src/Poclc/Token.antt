-- ===== src/Poclc/Token.antt =====
-- poclc/poclc.h: tokens and the compiler's context, and the helpers on the current token. The
-- context is parametric in the input, so that the parser can be stated for any source of tokens.
use pocol_vm.Prelude.{ℕ, ◌+◌, Bool, Option, none, List, ◌==◌}

-- `TokenType`, in the order of the source.
pub data TokenType : Type 0 where
  tok_eof tok_ident tok_number tok_string : TokenType
  tok_func tok_var tok_if tok_else tok_while tok_for tok_return tok_print tok_input : TokenType
  tok_plus tok_minus tok_mult tok_div tok_mod tok_assign : TokenType
  tok_eq tok_ne tok_lt tok_le tok_gt tok_ge : TokenType
  tok_lparen tok_rparen tok_lbrace tok_rbrace tok_comma tok_semicolon : TokenType
  tok_error tok_comment : TokenType

-- The value of the enumerator.
abbrev pub number : TokenType → ℕ
number tok_eof = 0
number tok_ident = 1
number tok_number = 2
number tok_string = 3
number tok_func = 4
number tok_var = 5
number tok_if = 6
number tok_else = 7
number tok_while = 8
number tok_for = 9
number tok_return = 10
number tok_print = 11
number tok_input = 12
number tok_plus = 13
number tok_minus = 14
number tok_mult = 15
number tok_div = 16
number tok_mod = 17
number tok_assign = 18
number tok_eq = 19
number tok_ne = 20
number tok_lt = 21
number tok_le = 22
number tok_gt = 23
number tok_ge = 24
number tok_lparen = 25
number tok_rparen = 26
number tok_lbrace = 27
number tok_rbrace = 28
number tok_comma = 29
number tok_semicolon = 30
number tok_error = 31
number tok_comment = 32

-- `Token`: `none` for a NULL pointer; `value` is the pattern of the `int`.
pub record Token : Type 0 where
  pub type : TokenType
  pub lexeme : Option (List ℕ)
  pub value : ℕ
  pub string : Option (List ℕ)
  pub line : ℕ
  pub column : ℕ

-- A token after `memset`.
abbrev pub zero_token : Token
zero_token = record {
  type = tok_eof;
  lexeme = none;
  value = 0;
  string = none;
  line = 0;
  column = 0;
}

-- The part of `CompilerCtx` that lexer and parser work on, over the type of inputs. The variable
-- table, the counts of variables, temporaries and warnings and the buffer are written by
-- `init_lexer` alone.
pub record CompilerCtx (S : Type 0) : Type 0 where
  pub input : S
  pub current_token : Token
  pub previous_token : Token
  pub error_count : ℕ

module _ {S : Type 0} where
  unfoldable pub check_token : CompilerCtx S → TokenType → Bool
  check_token ctx t = number ctx.current_token.type == number t

  -- `error_token` and `compiler_error`, without their message.
  abbrev pub error_token : CompilerCtx S → CompilerCtx S
  error_token ctx = record ctx { error_count = ctx.error_count + 1 }
