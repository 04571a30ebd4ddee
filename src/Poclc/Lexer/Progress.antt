-- ===== src/Poclc/Lexer/Progress.antt =====
-- poclc/poclc.c: every token but the end of the input takes a character, or the end of the file.
use pocol_vm.Prelude.{
  ℕ, zero, suc, ◌+◌, ◌≤◌, ◌<◌, ◌≡◌, ◌⊎◌, inl, inr, refl, ap, Bool, true, false, not, ◌&&◌, List, [],
  ◌∷◌, arith, length, Bool-cases, ◌==◌, if◌then◌else◌,
}
use pocol_vm.Assembler.Lexer.{is_digit, is_alpha, is_name_byte, newline}
use pocol_vm.Poclc.Token.{tok_eof, tok_string, Token}
use pocol_vm.Poclc.Stream.{
  Input, eof_char, rounds, advance_at, advance, peek, put_back, skip_line, skip_block,
  block_comment, skip_whitespace,
}
use pocol_vm.Poclc.Lexer.{
  Ctx, token_of, read_while, read_identifier, read_number, end_string, read_string, single, paired,
  word_token, switch, next_at, next_token, consume_token,
}

-- The reads that are left, the one that finds the end included.
abbrev pub todo : Input → ℕ
todo i = length i.source + (if i.eof then 0 else 1)

advance_at_lt :
    (s : List ℕ) (i : Input) → i.source ≡ s → i.eof ≡ false → todo (advance_at s i).1 < todo i
advance_at_lt [] i e live = ground (arith, ap length e)
advance_at_lt (c ∷ cs) i e live = ground (arith, ap length e)

pub advance_lt : (i : Input) → i.eof ≡ false → todo (advance i).1 < todo i
unfolding advance
advance_lt i live = ground (arith, advance_at_lt i.source i refl live)

pub advance_le : (i : Input) → todo (advance i).1 ≤ todo i
unfolding advance
advance_le i = ground (arith, advance_at_lt i.source i refl)

skip_line_le : (f : ℕ) (i : Input) → todo (skip_line f i) ≤ todo i
unfolding skip_line
skip_line_le zero i = omega arith
skip_line_le (suc f) i = elim (Bool-cases (not (peek i == newline) && not i.eof)) [
  | inl goes ↦ simp goes (omega (arith, skip_line_le f (advance i).1, advance_le i))
  | inr stops ↦ simp stops (omega arith)
]

skip_block_le : (f : ℕ) (i : Input) → todo (skip_block f i) ≤ todo i
unfolding skip_block
skip_block_le zero i = omega arith
skip_block_le (suc f) i =
    ground (arith, skip_block_le f (advance i).1, advance_le i, advance_le (advance i).1)

block_comment_le : (i : Input) → todo (block_comment i) ≤ todo i
block_comment_le i =
    let body = (advance (advance i).1).1 in
    omega (arith, skip_block_le (rounds body) body, advance_le i, advance_le (advance i).1)

pub skip_whitespace_le : (f : ℕ) (i : Input) → todo (skip_whitespace f i) ≤ todo i
unfolding skip_whitespace
skip_whitespace_le zero i = omega arith
skip_whitespace_le (suc f) i = ground (
  arith,
  skip_whitespace_le f (advance i).1,
  skip_whitespace_le f (skip_line (rounds i) i),
  skip_whitespace_le f (block_comment i),
  advance_le i,
  skip_line_le (rounds i) i,
  block_comment_le i,
)

pub read_while_le :
    (test : Input → Bool) (f : ℕ) (i : Input) → todo (read_while test f i).1 ≤ todo i
unfolding read_while
read_while_le test zero i = omega arith
read_while_le test (suc f) i = ground (arith, read_while_le test f (advance i).1, advance_le i)

pub read_while_lt :
    (test : Input → Bool) (f : ℕ) (i : Input)
    → 0 < f
    → i.eof ≡ false
    → test i ≡ true
    → todo (read_while test f i).1 < todo i
unfolding read_while
read_while_lt test zero i room live goes = absurd (omega arith)
read_while_lt test (suc f) i room live goes =
    ground (arith, read_while_le test f (advance i).1, advance_lt i live)

end_string_le : (t : Token) (text : List ℕ) (i : Input) → todo (end_string t text i).1 ≤ todo i
end_string_le t text i = ground (arith, advance_le i)

-- Behind the byte `c` that starts a token of several bytes, the `read_` functions take it again.
read_identifier_lt :
    (c : ℕ) (i : Input)
    → is_name_byte c ≡ true
    → todo (read_identifier (put_back c i)).1 < length i.source + 2
unfolding read_identifier
read_identifier_lt c i starts =
    let from = put_back c i in
    omega (
      arith,
      read_while_lt (λ j. is_name_byte (peek j)) (rounds from) from (omega arith) refl starts,
    )

read_number_lt :
    (c : ℕ) (i : Input)
    → is_digit c ≡ true
    → todo (read_number (put_back c i)).1 < length i.source + 2
unfolding read_number
read_number_lt c i starts =
    let from = put_back c i in
    omega
      (arith, read_while_lt (λ j. is_digit (peek j)) (rounds from) from (omega arith) refl starts)

read_string_lt : (c : ℕ) (i : Input) → todo (read_string (put_back c i)).1 < length i.source + 2
unfolding read_string
read_string_lt c i =
    let from = put_back c i in
    let body = (advance from).1 in
    let test = λ (j : Input). not (peek j == b'"') && not j.eof in
    let r = read_while test (rounds body) body in
    omega (
      arith,
      end_string_le (token_of tok_string from) r.0 r.1,
      read_while_le test (rounds body) body,
      advance_lt from refl,
    )

word_token_lt :
    (c : ℕ) (i : Input) (ctx : Ctx) → todo (word_token c i ctx).1.input < length i.source + 2
unfolding word_token is_name_byte
word_token_lt c i ctx =
    ground (arith, read_string_lt c i, read_identifier_lt c i, read_number_lt c i)

-- At the end of the file no word starts.
word_token-eof_char : (i : Input) (ctx : Ctx) → (word_token eof_char i ctx).1.input ≡ i
unfolding word_token is_alpha is_digit
word_token-eof_char i ctx = refl

switch_lt : (c : ℕ) (i : Input) (ctx : Ctx) → todo (switch c i ctx).1.input < length i.source + 2
unfolding switch
switch_lt c i ctx = ground (arith, word_token_lt c i ctx, advance_le i)

switch-eof_char : (i : Input) (ctx : Ctx) → (switch eof_char i ctx).1.input ≡ i
unfolding switch single paired
switch-eof_char i ctx = word_token-eof_char i ctx

switch_at_lt :
    (s : List ℕ) (i : Input) (ctx : Ctx)
    → i.source ≡ s
    → i.eof ≡ false
    → todo (switch (advance_at s i).0 (advance_at s i).1 ctx).1.input < todo i
switch_at_lt [] i ctx e live = ground (arith, switch-eof_char (advance_at [] i).1 ctx, ap length e)
switch_at_lt (c ∷ cs) i ctx e live =
    ground (arith, switch_lt c (advance_at (c ∷ cs) i).1 ctx, ap length e)

next_at_lt : (i : Input) (ctx : Ctx) → i.eof ≡ false → todo (next_at i ctx).1.input < todo i
unfolding next_at advance
next_at_lt i ctx live = ground (arith, switch_at_lt i.source i ctx refl live)

next_at-tok_eof :
    (i : Input) (ctx : Ctx) → i.eof ≡ true → (next_at i ctx).1.current_token.type ≡ tok_eof
unfolding next_at
next_at-tok_eof i ctx done = ground (arith, done)

-- After `next_token` fewer reads are left, or the current token is the end of the input.
pub consume_token_lt :
    (ctx : Ctx)
    → (todo (consume_token ctx).input < todo ctx.input)
      ⊎ ((consume_token ctx).current_token.type ≡ tok_eof)
unfolding next_token next_at
consume_token_lt ctx =
    let i = skip_whitespace (rounds ctx.input) ctx.input in
    let before = record ctx { previous_token = ctx.current_token } in
    elim (Bool-cases i.eof) [
      | inl done ↦ inr (next_at-tok_eof i before done)
      | inr live ↦
          inl (
            omega
              (arith, next_at_lt i before live, skip_whitespace_le (rounds ctx.input) ctx.input))
    ]
