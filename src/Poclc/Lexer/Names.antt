-- ===== src/Poclc/Lexer/Names.antt =====
-- poclc/poclc.c, next_token at an identifier or a keyword.
use pocol_vm.Prelude.{
  ℕ, zero, suc, ◌+◌, ◌-◌, ◌<◌, ◌≡◌, refl, sym, ap, ◌∙◌, Bool, true, false, ◌||◌, some, List, [],
  ◌∷◌, ◌++◌, arith, length, length-append, ◌==◌,
}
use pocol_vm.Assembler.Lexer.{is_digit, is_alpha, is_name_byte, newline}
use pocol_vm.Poclc.Token.{Token}
use pocol_vm.Poclc.Stream.{Input, rounds, advance, char_at, peek, put_back, skip_whitespace}
use pocol_vm.Poclc.Lexer.{
  Ctx, read_while, token_of, keyword, read_identifier, single, paired, word_token, switch, next_at,
  next_token,
}

-- A live input at a position.
abbrev pub input_at : List ℕ → (line column : ℕ) → Input
input_at s l k = record { source = s; eof = false; line = l; column = k }

-- A byte that starts an identifier, a keyword, a number or a string.
abbrev pub starts_word : ℕ → Bool
starts_word c = (c == b'"') || ((is_alpha c || (c == b'_')) || is_digit c)

-- A run of name bytes that no further one follows.
abbrev pub NameRun : List ℕ → (rest : List ℕ) → Type 0
NameRun [] rest = is_name_byte (char_at rest) ≡ false
NameRun (c ∷ cs) rest = (is_name_byte c ≡ true) × NameRun cs rest

abbrev pub starts_name : ℕ → Bool
starts_name c = is_alpha c || (c == b'_')

abbrev name_at : Input → Bool
name_at j = is_name_byte (peek j)

is_name_byte-newline : (c : ℕ) → is_name_byte c ≡ true → (c == newline) ≡ false
unfolding is_name_byte is_alpha is_digit
is_name_byte-newline c h = ground (arith, h)

advance-name :
    (c : ℕ) (cs : List ℕ) (l k : ℕ)
    → is_name_byte c ≡ true
    → advance (input_at (c ∷ cs) l k) ≡ (c, input_at cs l (k + 1))
unfolding advance
advance-name c cs l k h = simp (is_name_byte-newline c h) refl

read_while-name :
    (f : ℕ) (xs rest : List ℕ) (l k : ℕ)
    → NameRun xs rest
    → length xs < f
    → read_while name_at f (input_at (xs ++ rest) l k) ≡ (xs, input_at rest l (k + length xs))
unfolding read_while
read_while-name zero xs rest l k run room = absurd (omega arith)
read_while-name (suc f) [] rest l k run room =
    let e : k ≡ k + 0 = omega arith in simp run (ap (λ (n : ℕ). ([], input_at rest l n)) e)
read_while-name (suc f) (c ∷ cs) rest l k (is, run) room =
    let e : k + 1 + length cs ≡ k + suc (length cs) = omega arith in
    let ih = read_while-name f cs rest l (k + 1) run (omega arith) in
    simp (is, advance-name c (cs ++ rest) l k is, ih)
      (ap (λ (n : ℕ). (c ∷ cs, input_at rest l n)) e)

-- The token of a name that starts at a position.
abbrev pub name_token : List ℕ → Input → Token
name_token name i = record (token_of (keyword name) i) { lexeme = some name }

starts_name-starts_word : (c : ℕ) → starts_name c ≡ true → starts_word c ≡ true
starts_name-starts_word c h = ground (arith, h)

starts_name-is_name_byte : (c : ℕ) → starts_name c ≡ true → is_name_byte c ≡ true
unfolding is_name_byte
starts_name-is_name_byte c h = ground (arith, h)

read_identifier-name :
    (xs rest : List ℕ) (l k : ℕ)
    → NameRun xs rest
    → read_identifier (input_at (xs ++ rest) l k)
      ≡ (name_token xs (input_at (xs ++ rest) l k), input_at rest l (k + length xs))
unfolding read_identifier
read_identifier-name xs rest l k run =
    simp
      (read_while-name (rounds (input_at (xs ++ rest) l k)) xs rest l k run
        (omega (arith, length-append xs rest)))
      refl

pub skip_whitespace-word :
    (f : ℕ) (c : ℕ) (cs : List ℕ) (l k : ℕ)
    → starts_word c ≡ true
    → skip_whitespace f (input_at (c ∷ cs) l k) ≡ input_at (c ∷ cs) l k
unfolding skip_whitespace is_alpha is_digit
skip_whitespace-word zero c cs l k w = refl
skip_whitespace-word (suc f) c cs l k w = ground (arith, w)

switch-name :
    (c : ℕ) (i : Input) (ctx : Ctx)
    → starts_name c ≡ true
    → switch c i ctx ≡ (
      (read_identifier (put_back c i)).0,
      record ctx { input = (read_identifier (put_back c i)).1 },
    )
unfolding switch single paired word_token is_alpha
switch-name c i ctx h = ground (arith, h)

put_back-name :
    (c : ℕ) (s : List ℕ) (l k : ℕ) → put_back c (input_at s l (k + 1)) ≡ input_at (c ∷ s) l k
put_back-name c s l k =
    let e : k + 1 - 1 ≡ k = omega arith in ap (λ (n : ℕ). input_at (c ∷ s) l n) e

-- What a `read_` function returns, as `next_token` returns it.
abbrev keeping : Ctx → Token × Input → Token × Ctx
keeping ctx r = (r.0, record ctx { input = r.1 })

next_at-name :
    (c : ℕ) (cs rest : List ℕ) (l k : ℕ) (ctx : Ctx)
    → starts_name c ≡ true
    → NameRun (c ∷ cs) rest
    → next_at (input_at (c ∷ (cs ++ rest)) l k) ctx
      ≡ keeping ctx (
        name_token (c ∷ cs) (input_at (c ∷ (cs ++ rest)) l k),
        input_at rest l (k + length (c ∷ cs)),
      )
unfolding next_at
next_at-name c cs rest l k ctx h run =
    let step = advance-name c (cs ++ rest) l k run.0 in
    ap (λ (r : ℕ × Input). switch r.0 r.1 ctx) step
    ∙ switch-name c (input_at (cs ++ rest) l (k + 1)) ctx h
    ∙ ap (λ (i : Input). keeping ctx (read_identifier i)) (put_back-name c (cs ++ rest) l k)
    ∙ ap (keeping ctx) (read_identifier-name (c ∷ cs) rest l k run)

-- At an identifier or a keyword `next_token` returns the right token, with the type of the keyword or
-- that of identifiers and with the whole name, and the input goes on behind the name; but the current
-- token of the context, on which alone the parser decides, stays what it was.
pub next_token-name :
    (c : ℕ) (cs rest : List ℕ) (l k : ℕ) (ctx : Ctx)
    → ctx.input ≡ input_at (c ∷ (cs ++ rest)) l k
    → starts_name c ≡ true
    → NameRun (c ∷ cs) rest
    → ((next_token ctx).0 ≡ name_token (c ∷ cs) ctx.input)
      × (((next_token ctx).1.input ≡ input_at rest l (k + length (c ∷ cs)))
          × ((next_token ctx).1.current_token ≡ ctx.current_token))
unfolding next_token
next_token-name c cs rest l k ctx e h run =
    let before = record ctx { previous_token = ctx.current_token } in
    let skipped =
      ap (λ (i : Input). skip_whitespace (rounds i) i) e
      ∙ skip_whitespace-word (length (c ∷ (cs ++ rest)) + 2) c (cs ++ rest) l k
          (starts_name-starts_word c h) in
    let r =
      ap (λ (i : Input). next_at i before) skipped ∙ next_at-name c cs rest l k before h run in
    (
      ap (λ (t : Token × Ctx). t.0) r ∙ ap (name_token (c ∷ cs)) (sym e),
      (ap (λ (t : Token × Ctx). t.1.input) r, ap (λ (t : Token × Ctx). t.1.current_token) r),
    )
