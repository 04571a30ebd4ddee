-- ===== src/Poclc/Lexer/Types.antt =====
-- poclc/poclc.c, next_token: the types that the current token takes.
use pocol_vm.Prelude.{ℕ, ◌≡◌, Bool, false, ◌&&◌, ◌||◌, arith, leb}
use pocol_vm.State.{on_option}
use pocol_vm.Poclc.Token.{TokenType, number}
use pocol_vm.Poclc.Stream.{Input, rounds, advance, skip_whitespace}
use pocol_vm.Poclc.Lexer.{
  Ctx, single, paired, word_token, switch, next_at, next_token, consume_token,
}

-- Identifiers, numbers, strings and keywords.
abbrev pub is_word : TokenType → Bool
is_word t = leb 1 (number t) && leb (number t) 12

abbrev pub type_of : Ctx → TokenType
type_of ctx = ctx.current_token.type

single-is_word : (c : ℕ) → on_option (single c) false is_word ≡ false
unfolding single
single-is_word c = ground arith

paired-is_word : (c : ℕ) → on_option (paired c) false (λ p. is_word p.0 || is_word p.1) ≡ false
unfolding paired
paired-is_word c = ground arith

word_token-type :
    (c : ℕ) (i : Input) (ctx : Ctx)
    → is_word (type_of ctx) ≡ false
    → is_word (type_of (word_token c i ctx).1) ≡ false
unfolding word_token
word_token-type c i ctx h = ground (arith, h)

switch-is_word :
    (c : ℕ) (i : Input) (ctx : Ctx)
    → is_word (type_of ctx) ≡ false
    → is_word (type_of (switch c i ctx).1) ≡ false
unfolding switch
switch-is_word c i ctx h =
    ground (arith, single-is_word c, paired-is_word c, word_token-type c i ctx h)

-- `next_token` never makes the current token an identifier, a number, a string or a keyword.
pub consume_token-is_word :
    (ctx : Ctx) → is_word (type_of ctx) ≡ false → is_word (type_of (consume_token ctx)) ≡ false
unfolding next_token next_at
consume_token-is_word ctx h =
    let i = skip_whitespace (rounds ctx.input) ctx.input in
    let before = record ctx { previous_token = ctx.current_token } in
    ground (arith, h, switch-is_word (advance i).0 (advance i).1 before h)
