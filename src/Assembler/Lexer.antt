-- ===== src/Assembler/Lexer.antt =====
-- posm/lexer.c: the tokens of an assembly source. The source is the list of its bytes from the
-- cursor on; past the end of the list stands the terminator 0, as in the C string. Loops run on the
-- length of what is left, which bounds their rounds.
pub mod Progress
pub mod Errors
pub mod Numbers
use pocol_vm.Prelude.{
  ℕ, zero, suc, ◌+◌, ◌-◌, ◌*◌, ◌^◌, Bool, true, false, not, ◌&&◌, ◌||◌, Option, none, some, List,
  [], ◌∷◌, ltb, leb, ◌==◌, if◌then◌else◌, wrap32, sext64, length, take,
}

-- `TokenType`
pub data TokenType : Type 0 where
  tok_eof tok_illegal tok_int tok_label tok_ident tok_register : TokenType

-- `Token`. `start` is the source from the token on; `value` is the pattern of the `int64_t`.
pub record Token : Type 0 where
  pub type : TokenType
  pub start : List ℕ
  pub length : ℕ
  pub value : ℕ

-- The part of `CompilerCtx` that the lexer works on.
pub record Lexer : Type 0 where
  pub cursor : List ℕ
  pub line : ℕ
  pub col : ℕ
  pub total_error : ℕ

-- `*cursor` and `*(cursor + 1)`
abbrev pub byte_at : List ℕ → ℕ
byte_at [] = 0
byte_at (c ∷ cs) = c

abbrev pub next_byte_at : List ℕ → ℕ
next_byte_at [] = 0
next_byte_at (c ∷ cs) = byte_at cs

abbrev pub rest_of : List ℕ → List ℕ
rest_of [] = []
rest_of (c ∷ cs) = cs

abbrev pub newline : ℕ
newline = 10

-- `isspace`, `isdigit`, `isalpha` and `isalnum` in the C locale
unfoldable pub is_space : ℕ → Bool
is_space c = (c == b' ') || (leb 9 c && leb c 13)

unfoldable pub is_digit : ℕ → Bool
is_digit c = leb b'0' c && leb c b'9'

unfoldable pub is_alpha : ℕ → Bool
is_alpha c = (leb b'a' c && leb c b'z') || (leb b'A' c && leb c b'Z')

-- What may follow in a name: `isalnum(c) || c == '_'`.
unfoldable pub is_name_byte : ℕ → Bool
unfolding is_digit is_alpha
is_name_byte c = is_alpha c || is_digit c || (c == b'_')

abbrev pub consume_byte : ℕ → List ℕ → Lexer → Lexer
consume_byte c cs lx =
    if c == 0
    then lx
    else if c == newline
    then record lx { cursor = cs; line = lx.line + 1; col = 1 }
    else record lx { cursor = cs; col = lx.col + 1 }

abbrev pub consume_at : List ℕ → Lexer → Lexer
consume_at [] lx = lx
consume_at (c ∷ cs) lx = consume_byte c cs lx

unfoldable pub consume : Lexer → Lexer
consume lx = consume_at lx.cursor lx

-- A `while` that consumes bytes, with rounds for every byte that is left.
unfoldable pub consume_while : (ℕ → Bool) → ℕ → Lexer → Lexer
consume_while test zero lx = lx
consume_while test (suc f) lx =
    let rest = consume_while test f (consume lx) in if test (byte_at lx.cursor) then rest else lx

unfoldable pub consume_until_newline : Lexer → Lexer
consume_until_newline lx =
    consume_while (λ c. not (c == newline) && not (c == 0)) (length lx.cursor) lx

-- `compiler_error`, without its message: the count, and the rest of the line.
unfoldable pub compiler_error : Lexer → Lexer
compiler_error lx = consume_until_newline (record lx { total_error = lx.total_error + 1 })

-- The first loop of `next`: spaces, commas and comments.
unfoldable pub skip_blank : ℕ → Lexer → Lexer
skip_blank zero lx = lx
skip_blank (suc f) lx =
    let c = byte_at lx.cursor in
    let over = skip_blank f (consume lx) in
    let comment = skip_blank f (consume_until_newline lx) in
    if c == 0
    then lx
    else if is_space c || (c == b',')
    then over
    else if c == b';'
    then comment
    else lx

-- `n` bytes are consumed.
unfoldable pub consume_many : ℕ → Lexer → Lexer
consume_many zero lx = lx
consume_many (suc n) lx = consume_many n (consume lx)

-- The digits at the start of a text: how many, and the number that they stand for after `acc`.
unfoldable pub digits : List ℕ → (count acc : ℕ) → ℕ × ℕ
digits [] count acc = (count, acc)
digits (c ∷ cs) count acc =
    let more = digits cs (count + 1) (acc * 10 + (c - b'0')) in
    if is_digit c then more else (count, acc)

-- `strtol(s, &end, 10)` at a digit or at '-' before a digit: the pattern of the value, which stops at
-- the ends of the range, whether it did so (ERANGE), and the number of bytes read.
pub record Parsed : Type 0 where
  pub value : ℕ
  pub erange : Bool
  pub size : ℕ

abbrev pub positive : ℕ × ℕ → Parsed
positive (count, n) =
    if ltb n (2 ^ 63)
    then record { value = n; erange = false; size = count }
    else record { value = 2 ^ 63 - 1; erange = true; size = count }

abbrev pub negative : ℕ × ℕ → Parsed
negative (count, n) =
    if n == 0
    then record { value = 0; erange = false; size = count + 1 }
    else if leb n (2 ^ 63)
    then record { value = 2 ^ 64 - n; erange = false; size = count + 1 }
    else record { value = 2 ^ 63; erange = true; size = count + 1 }

unfoldable pub strtol : List ℕ → Parsed
strtol [] = record { value = 0; erange = false; size = 0 }
strtol (c ∷ cs) = if c == b'-' then negative (digits cs 0 0) else positive (digits (c ∷ cs) 0 0)

-- `t.value = atoi(…)`, as the C library computes it from `strtol`.
unfoldable pub atoi : List ℕ → ℕ
atoi s = sext64 (wrap32 (strtol s).value)

abbrev pub starts_int : List ℕ → Bool
starts_int s = is_digit (byte_at s) || ((byte_at s == b'-') && is_digit (next_byte_at s))

-- The three kinds of token, at a cursor where they start. After ERANGE the error has already moved
-- the cursor to the end of the line.
unfoldable pub next_int : Lexer → Token × Lexer
next_int lx =
    let n = strtol lx.cursor in
    (
      record { type = tok_int; start = lx.cursor; length = n.size; value = n.value },
      consume_many n.size (if n.erange then compiler_error lx else lx),
    )

abbrev pub name_token : List ℕ → (after : Lexer) → Token × Lexer
name_token start after =
    let size = length start - length after.cursor in
    if byte_at after.cursor == b':'
    then (record { type = tok_label; start = start; length = size; value = 0 }, consume after)
    else if byte_at start == b'r'
    then (
      record {
        type = tok_register;
        start = start;
        length = 0;
        value = if is_digit (next_byte_at start) then atoi (rest_of start) else 0;
      },
      after,
    )
    else (record { type = tok_ident; start = start; length = size; value = 0 }, after)

unfoldable pub next_name : Lexer → Token × Lexer
next_name lx = name_token lx.cursor (consume_while is_name_byte (length lx.cursor) lx)

unfoldable pub next_token : Lexer → Token × Lexer
next_token lx =
    if byte_at lx.cursor == 0
    then (record { type = tok_eof; start = lx.cursor; length = 0; value = 0 }, lx)
    else if starts_int lx.cursor
    then next_int lx
    else if is_alpha (byte_at lx.cursor) || (byte_at lx.cursor == b'_')
    then next_name lx
    else (
      record { type = tok_illegal; start = lx.cursor; length = 0; value = 0 },
      consume (compiler_error lx),
    )

unfoldable pub next : Lexer → Token × Lexer
next lx = next_token (skip_blank (length lx.cursor) lx)

-- The `n`th token from the cursor, counted from 0; cursor, line and column are put back, and the
-- errors stay counted.
unfoldable pub peek_from : ℕ → Lexer → Token × Lexer
peek_from zero lx = next lx
peek_from (suc n) lx = peek_from n (next lx).1

unfoldable pub peek : Lexer → ℕ → Token × Lexer
peek lx n = let (t, after) = peek_from n lx in (t, record lx { total_error = after.total_error })

-- The text of a token.
abbrev pub text : Token → List ℕ
text t = take t.length t.start
