-- ===== src/Poclc/Stream.antt =====
-- poclc/poclc.c: the input stream. It is seekable: the bytes from the position on and the end-of-file
-- flag, which a read past the last byte sets and `fseek` clears. `fgetc` gives EOF there, the `char`
-- with pattern 255. Loops run on `rounds`.
use pocol_vm.Prelude.{
  ℕ, zero, suc, ◌+◌, ◌-◌, Bool, true, false, not, ◌&&◌, ◌||◌, List, [], ◌∷◌, ◌==◌, if◌then◌else◌,
  length,
}
use pocol_vm.Assembler.Lexer.{newline}

-- The stream, with the position that `line` and `column` of the context keep.
pub record Input : Type 0 where
  pub source : List ℕ
  pub eof : Bool
  pub line : ℕ
  pub column : ℕ

abbrev pub eof_char : ℕ
eof_char = 255

-- More rounds than a loop can make that reads at every round until the flag is set.
abbrev pub rounds : Input → ℕ
rounds i = length i.source + 2

-- `fgetc` in `advance`, and the count of lines and columns.
abbrev pub advance_at : List ℕ → Input → ℕ × Input
advance_at [] i = (eof_char, record i { eof = true; column = i.column + 1 })
advance_at (c ∷ cs) i =
    if c == newline
    then (c, record i { source = cs; line = i.line + 1; column = 1 })
    else (c, record i { source = cs; column = i.column + 1 })

unfoldable pub advance : Input → ℕ × Input
advance i = if i.eof then (0, i) else advance_at i.source i

abbrev pub char_at : List ℕ → ℕ
char_at [] = eof_char
char_at (c ∷ cs) = c

abbrev pub char_after : List ℕ → ℕ
char_after [] = eof_char
char_after (c ∷ cs) = char_at cs

abbrev pub peek : Input → ℕ
peek i = if i.eof then 0 else char_at i.source

abbrev pub peek_next : Input → ℕ
peek_next i = if i.eof then 0 else char_after i.source

-- `fseek(ctx->input, -1, SEEK_CUR); ctx->column--`, behind the byte `c`.
abbrev pub put_back : ℕ → Input → Input
put_back c i = record i { source = c ∷ i.source; eof = false; column = i.column - 1 }

-- The loops of `skip_whitespace` in a comment.
unfoldable pub skip_line : ℕ → Input → Input
skip_line zero i = i
skip_line (suc f) i =
    let more = skip_line f (advance i).1 in if not (peek i == newline) && not i.eof then more else i

unfoldable pub skip_block : ℕ → Input → Input
skip_block zero i = i
skip_block (suc f) i =
    let more = skip_block f (advance i).1 in
    if i.eof
    then i
    else if (peek i == b'*') && (peek_next i == b'/')
    then (advance (advance i).1).1
    else more

-- ' ', '\t', '\r' or '\n'
abbrev pub is_blank : ℕ → Bool
is_blank c = (c == b' ') || ((c == 9) || ((c == 13) || (c == newline)))

-- A '/' with the byte `c` behind it.
abbrev pub starts_comment : ℕ → Input → Bool
starts_comment c i = (peek i == b'/') && (peek_next i == c)

-- "/*" is passed before the loop.
abbrev pub block_comment : Input → Input
block_comment i = let body = (advance (advance i).1).1 in skip_block (rounds body) body

unfoldable pub skip_whitespace : ℕ → Input → Input
skip_whitespace zero i = i
skip_whitespace (suc f) i =
    let blank = skip_whitespace f (advance i).1 in
    let line = skip_whitespace f (skip_line (rounds i) i) in
    let block = skip_whitespace f (block_comment i) in
    if i.eof
    then i
    else if is_blank (peek i)
    then blank
    else if starts_comment b'/' i
    then line
    else if starts_comment b'*' i
    then block
    else i
