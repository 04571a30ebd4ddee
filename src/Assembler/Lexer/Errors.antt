-- ===== src/Assembler/Lexer/Errors.antt =====
-- posm/lexer.c: the tokens of a source do not hang on the errors counted so far.
use pocol_vm.Prelude.{
  ℕ, zero, suc, ◌+◌, ◌≡◌, refl, sym, ap, ◌∙◌, Bool, ◌||◌, List, [], ◌∷◌, arith, length, Bool-cases,
  inl, inr, ◌==◌,
}
use pocol_vm.Assembler.Lexer.{
  tok_illegal, tok_int, Token, Lexer, byte_at, is_alpha, is_name_byte, consume_at, consume,
  consume_while, consume_until_newline, compiler_error, skip_blank, consume_many, strtol,
  starts_int, next_int, name_token, next_name, next_token, next,
}

-- The same cursor, line and column with `n` errors.
abbrev pub counting : ℕ → Lexer → Lexer
counting n lx = record lx { total_error = n }

consume_at-counting :
    (n : ℕ) (cs : List ℕ) (lx : Lexer)
    → consume_at cs (counting n lx) ≡ counting n (consume_at cs lx)
consume_at-counting n [] lx = refl
consume_at-counting n (c ∷ cs) lx = ground arith

consume-counting : (n : ℕ) (lx : Lexer) → consume (counting n lx) ≡ counting n (consume lx)
unfolding consume
consume-counting n lx = consume_at-counting n lx.cursor lx

consume_while-counting :
    (n : ℕ) (test : ℕ → Bool) (f : ℕ) (lx : Lexer)
    → consume_while test f (counting n lx) ≡ counting n (consume_while test f lx)
unfolding consume_while
consume_while-counting n test zero lx = refl
consume_while-counting n test (suc f) lx = elim (Bool-cases (test (byte_at lx.cursor))) [
  | inl goes ↦ simp goes (
      ap (consume_while test f) (consume-counting n lx)
      ∙ consume_while-counting n test f (consume lx))
  | inr stops ↦ simp stops
]

consume_until_newline-counting :
    (n : ℕ) (lx : Lexer)
    → consume_until_newline (counting n lx) ≡ counting n (consume_until_newline lx)
unfolding consume_until_newline
consume_until_newline-counting n lx = consume_while-counting n _ (length lx.cursor) lx

-- An error is one more, and skips the rest of the line.
compiler_error-counting :
    (n : ℕ) (lx : Lexer) → compiler_error (counting n lx) ≡ counting (n + 1) (compiler_error lx)
unfolding compiler_error
compiler_error-counting n lx =
    consume_until_newline-counting (n + 1) lx
    ∙ ap (counting (n + 1)) (sym (consume_until_newline-counting (lx.total_error + 1) lx))

skip_blank-counting :
    (n f : ℕ) (lx : Lexer) → skip_blank f (counting n lx) ≡ counting n (skip_blank f lx)
unfolding skip_blank
skip_blank-counting n zero lx = refl
skip_blank-counting n (suc f) lx =
    let over = ap (skip_blank f) (consume-counting n lx) ∙ skip_blank-counting n f (consume lx) in
    let comment =
      ap (skip_blank f) (consume_until_newline-counting n lx)
      ∙ skip_blank-counting n f (consume_until_newline lx) in
    ground (arith, over, comment)

consume_many-counting :
    (n k : ℕ) (lx : Lexer) → consume_many k (counting n lx) ≡ counting n (consume_many k lx)
unfolding consume_many
consume_many-counting n zero lx = refl
consume_many-counting n (suc k) lx =
    ap (consume_many k) (consume-counting n lx) ∙ consume_many-counting n k (consume lx)

-- A token and the lexer behind it, up to the errors.
abbrev pub Same : Token × Lexer → Token × Lexer → Type 0
Same r r' = (m : ℕ) × (r' ≡ (r.0, counting m r.1))

name_token-counting :
    (n : ℕ) (start : List ℕ) (lx : Lexer)
    → name_token start (counting n lx)
      ≡ ((name_token start lx).0, counting n (name_token start lx).1)
name_token-counting n start lx = ground (arith, consume-counting n lx)

next_name-counting : (n : ℕ) (lx : Lexer) → Same (next_name lx) (next_name (counting n lx))
unfolding next_name
next_name-counting n lx = (
  n,
  ap (name_token lx.cursor) (consume_while-counting n is_name_byte (length lx.cursor) lx)
      ∙ name_token-counting n lx.cursor (consume_while is_name_byte (length lx.cursor) lx),
)

-- The token of a number.
abbrev int_token : Lexer → Token
int_token lx = record {
  type = tok_int;
  start = lx.cursor;
  length = (strtol lx.cursor).size;
  value = (strtol lx.cursor).value;
}

next_int-counting : (n : ℕ) (lx : Lexer) → Same (next_int lx) (next_int (counting n lx))
unfolding next_int
next_int-counting n lx = elim (Bool-cases (strtol lx.cursor).erange) [
  | inl range ↦ (
    n + 1,
    simp range (
        ap (λ l. (int_token lx, consume_many (strtol lx.cursor).size l))
          (compiler_error-counting n lx)
        ∙ ap (λ l. (int_token lx, l))
            (consume_many-counting (n + 1) (strtol lx.cursor).size (compiler_error lx))),
  )
  | inr fine ↦ (
    n,
    simp fine (ap (λ l. (int_token lx, l)) (consume_many-counting n (strtol lx.cursor).size lx)),
  )
]

abbrev illegal_token : Lexer → Token
illegal_token lx = record { type = tok_illegal; start = lx.cursor; length = 0; value = 0 }

next_token-counting : (n : ℕ) (lx : Lexer) → Same (next_token lx) (next_token (counting n lx))
unfolding next_token
next_token-counting n lx = elim (Bool-cases (byte_at lx.cursor == 0)) [
  | inl ended ↦ simp ended (n, refl)
  | inr goes ↦ elim (Bool-cases (starts_int lx.cursor)) [
    | inl int ↦ simp (goes, int) (next_int-counting n lx)
    | inr other ↦ elim (Bool-cases (is_alpha (byte_at lx.cursor) || (byte_at lx.cursor == b'_'))) [
      | inl name ↦ simp (goes, other, name) (next_name-counting n lx)
      | inr illegal ↦
          simp (goes, other, illegal)
            (
              n + 1,
              ap (λ l. (illegal_token lx, l))
                  (ap consume (compiler_error-counting n lx)
                    ∙ consume-counting (n + 1) (compiler_error lx)),
            )
    ]
  ]
]

-- The next token of a source, and what is left behind it, are the same whatever the count of errors.
pub next-counting : (n : ℕ) (lx : Lexer) → Same (next lx) (next (counting n lx))
unfolding next
next-counting n lx =
    let start = skip_blank (length lx.cursor) lx in
    let (m, e) = next_token-counting n start in
    (m, ap next_token (skip_blank-counting n (length lx.cursor) lx) ∙ e)
