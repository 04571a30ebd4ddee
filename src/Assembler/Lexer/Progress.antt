-- ===== src/Assembler/Lexer/Progress.antt =====
-- posm/lexer.c: every token but the end of the source takes at least one byte of it.
use pocol_vm.Prelude.{
  ℕ, zero, suc, ◌+◌, ◌-◌, ◌*◌, ◌≤◌, ◌<◌, ◌≡◌, ◌≢◌, refl, sym, ap, ◌∙◌, Bool, true, false, not, ◌&&◌,
  ◌||◌, List, [], ◌∷◌, arith, length, ◌⊎◌, Bool-cases, inl, inr, ◌==◌,
}
use pocol_vm.Assembler.Lexer.{
  tok_eof, Token, Lexer, byte_at, newline, is_digit, is_alpha, is_name_byte, consume_at, consume,
  consume_while, consume_until_newline, compiler_error, skip_blank, consume_many, digits, positive,
  negative, strtol, starts_int, next_int, name_token, next_name, next_token, next,
}

-- What is left of the source.
abbrev pub left : Lexer → ℕ
left lx = length lx.cursor

-- A byte other than the terminator.
abbrev More : Lexer → Type 0
More lx = byte_at lx.cursor ≢ 0

consume_at_le : (cs : List ℕ) (lx : Lexer) → lx.cursor ≡ cs → left (consume_at cs lx) ≤ left lx
consume_at_le [] lx e = omega arith
consume_at_le (c ∷ cs) lx e = ground (arith, ap length e)

consume_at_lt :
    (cs : List ℕ) (lx : Lexer) → lx.cursor ≡ cs → byte_at cs ≢ 0 → left (consume_at cs lx) < left lx
consume_at_lt [] lx e more = absurd (more refl)
consume_at_lt (c ∷ cs) lx e more = ground (arith, ap length e)

consume_le : (lx : Lexer) → left (consume lx) ≤ left lx
unfolding consume
consume_le lx = consume_at_le lx.cursor lx refl

consume_lt : (lx : Lexer) → More lx → left (consume lx) < left lx
unfolding consume
consume_lt lx more = consume_at_lt lx.cursor lx refl more

consume_while_le : (test : ℕ → Bool) (f : ℕ) (lx : Lexer) → left (consume_while test f lx) ≤ left lx
unfolding consume_while
consume_while_le test zero lx = omega arith
consume_while_le test (suc f) lx = elim (Bool-cases (test (byte_at lx.cursor))) [
  | inl goes ↦ simp goes (omega (arith, consume_while_le test f (consume lx), consume_le lx))
  | inr stops ↦ simp stops (omega arith)
]

consume_while_stays :
    (test : ℕ → Bool) (f : ℕ) (lx : Lexer)
    → test (byte_at lx.cursor) ≡ false
    → (consume_while test f lx).cursor ≡ lx.cursor
unfolding consume_while
consume_while_stays test zero lx stops = refl
consume_while_stays test (suc f) lx stops = simp stops

consume_while_lt :
    (test : ℕ → Bool) (f : ℕ) (lx : Lexer)
    → 0 < f
    → More lx
    → test (byte_at lx.cursor) ≡ true
    → left (consume_while test f lx) < left lx
unfolding consume_while
consume_while_lt test zero lx fuel more goes = absurd (omega arith)
consume_while_lt test (suc f) lx fuel more goes =
    simp goes (omega (arith, consume_while_le test f (consume lx), consume_lt lx more))

-- A source with more has a byte left.
More-left : (lx : Lexer) → More lx → 0 < left lx
More-left lx more = go lx.cursor more
  where
    go : (cs : List ℕ) → byte_at cs ≢ 0 → 0 < length cs
    go [] more = absurd (more refl)
    go (c ∷ cs) more = omega arith

pub consume_until_newline_le : (lx : Lexer) → left (consume_until_newline lx) ≤ left lx
unfolding consume_until_newline
consume_until_newline_le lx = consume_while_le _ (left lx) lx

pub compiler_error_le : (lx : Lexer) → left (compiler_error lx) ≤ left lx
unfolding compiler_error
compiler_error_le lx = consume_until_newline_le _

-- An error at a byte of a line skips it.
compiler_error_lt :
    (lx : Lexer) → More lx → byte_at lx.cursor ≢ newline → left (compiler_error lx) < left lx
unfolding compiler_error consume_until_newline
compiler_error_lt lx more inside =
    consume_while_lt _ (left lx) (record lx { total_error = lx.total_error + 1 })
      (More-left lx more) more (ground arith)

consume_many_le : (n : ℕ) (lx : Lexer) → left (consume_many n lx) ≤ left lx
unfolding consume_many
consume_many_le zero lx = omega arith
consume_many_le (suc n) lx = omega (arith, consume_many_le n (consume lx), consume_le lx)

skip_blank_le : (f : ℕ) (lx : Lexer) → left (skip_blank f lx) ≤ left lx
unfolding skip_blank
skip_blank_le zero lx = omega arith
skip_blank_le (suc f) lx =
    let over = skip_blank_le f (consume lx) in
    let comment = skip_blank_le f (consume_until_newline lx) in
    ground (arith, over, comment, consume_le lx, consume_until_newline_le lx)

digits_count : (cs : List ℕ) (count acc : ℕ) → count ≤ (digits cs count acc).0
unfolding digits
digits_count [] count acc = omega arith
digits_count (c ∷ cs) count acc =
    ground (arith, digits_count cs (count + 1) (acc * 10 + (c - b'0')))

-- At the start of a number strtol takes a byte at least.
positive_size : (count n : ℕ) → (positive (count, n)).size ≡ count
positive_size count n = ground arith

negative_size : (count n : ℕ) → (negative (count, n)).size ≡ count + 1
negative_size count n = ground arith

starts_int_nil : starts_int [] ≢ true
unfolding is_digit
starts_int_nil h = cc

strtol_size : (cs : List ℕ) → starts_int cs ≡ true → 1 ≤ (strtol cs).size
unfolding strtol digits
strtol_size [] h = absurd (starts_int_nil h)
strtol_size (c ∷ cs) h = elim (Bool-cases (c == b'-')) [
  | inl minus ↦ simp minus (omega (arith, negative_size (digits cs 0 0).0 (digits cs 0 0).1))
  | inr digit ↦ elim (Bool-cases (is_digit c)) [
    | inr other ↦ absurd (ground (arith, other, digit))
    | inl first ↦
        let more = digits cs (0 + 1) (0 * 10 + (c - b'0')) in
        simp (digit, first)
          (omega
            (arith, positive_size more.0 more.1, digits_count cs (0 + 1) (0 * 10 + (c - b'0'))))
  ]
]

-- A token, and what is left behind it.
abbrev pub Progress : Lexer → Token × Lexer → Type 0
Progress lx (t, lx') = (left lx' ≤ left lx) × ((t.type ≡ tok_eof) ⊎ (left lx' < left lx))

consume_many_lt : (n : ℕ) (lx : Lexer) → 1 ≤ n → More lx → left (consume_many n lx) < left lx
unfolding consume_many
consume_many_lt zero lx h more = absurd (omega arith)
consume_many_lt (suc n) lx h more =
    omega (arith, consume_many_le n (consume lx), consume_lt lx more)

-- The byte at the start of a token.
starts_int-inside : (cs : List ℕ) → starts_int cs ≡ true → (byte_at cs ≢ 0) × (byte_at cs ≢ newline)
unfolding is_digit
starts_int-inside [] h = absurd cc
starts_int-inside (c ∷ cs) h = ((λ q. ground arith), λ q. ground arith)

next_int_lt : (lx : Lexer) → starts_int lx.cursor ≡ true → left (next_int lx).1 < left lx
unfolding next_int
next_int_lt lx h =
    let (more, inside) = starts_int-inside lx.cursor h in
    elim (Bool-cases (strtol lx.cursor).erange) [
      | inl range ↦ simp range (
          omega (
            arith,
            consume_many_le (strtol lx.cursor).size (compiler_error lx),
            compiler_error_lt lx more inside,
          ))
      | inr fine ↦
          simp fine (consume_many_lt (strtol lx.cursor).size lx (strtol_size lx.cursor h) more)
    ]

name_token_le : (start : List ℕ) (lx : Lexer) → left (name_token start lx).1 ≤ left lx
name_token_le start lx = ground (arith, consume_le lx)

next_name_lt :
    (lx : Lexer)
    → More lx
    → is_name_byte (byte_at lx.cursor) ≡ true
    → left (next_name lx).1 < left lx
unfolding next_name
next_name_lt lx more name = omega (
  arith,
  name_token_le lx.cursor (consume_while is_name_byte (left lx) lx),
  consume_while_lt is_name_byte (left lx) lx (More-left lx more) more name,
)

compiler_error_stays :
    (lx : Lexer) → byte_at lx.cursor ≡ newline → (compiler_error lx).cursor ≡ lx.cursor
unfolding compiler_error consume_until_newline
compiler_error_stays lx e = go (left lx)
  where
    go :
        (f : ℕ)
        → (consume_while
            (λ c. not (c == newline) && not (c == 0))
            f
            (record lx { total_error = lx.total_error + 1 })).cursor
          ≡ lx.cursor
    go f = consume_while_stays _ f _ (ground arith)

illegal_lt : (lx : Lexer) → More lx → left (consume (compiler_error lx)) < left lx
illegal_lt lx more = elim (Bool-cases (byte_at lx.cursor == newline)) [
  | inl end ↦
      let same = compiler_error_stays lx (ground arith) in
      omega (
        arith,
        ap length same,
        consume_lt (compiler_error lx) (λ q. more (ap byte_at (sym same) ∙ q)),
      )
  | inr inside ↦
      omega (arith, consume_le (compiler_error lx), compiler_error_lt lx more (ground arith))
]

starts_name : (c : ℕ) → (is_alpha c || (c == b'_')) ≡ true → is_name_byte c ≡ true
unfolding is_name_byte
starts_name c h = ground arith

next_token-Progress : (lx : Lexer) → Progress lx (next_token lx)
unfolding next_token
next_token-Progress lx = elim (Bool-cases (byte_at lx.cursor == 0)) [
  | inl ended ↦ simp ended (omega arith, inl refl)
  | inr goes ↦ elim (Bool-cases (starts_int lx.cursor)) [
    | inl int ↦ let lt = next_int_lt lx int in simp (goes, int) (omega arith, inr lt)
    | inr other ↦ elim (Bool-cases (is_alpha (byte_at lx.cursor) || (byte_at lx.cursor == b'_'))) [
      | inl name ↦
          let lt = next_name_lt lx (ground arith) (starts_name _ name) in
          simp (goes, other, name) (omega arith, inr lt)
      | inr illegal ↦
          let lt = illegal_lt lx (ground arith) in simp (goes, other, illegal) (omega arith, inr lt)
    ]
  ]
]

pub next-Progress : (lx : Lexer) → Progress lx (next lx)
unfolding next
next-Progress lx =
    let start = skip_blank (left lx) lx in
    let le = skip_blank_le (left lx) lx in
    let (rest, how) = next_token-Progress start in
    (omega arith, elim how [ inl ended ↦ inl ended | inr lt ↦ inr (omega (arith, le, lt)) ])
