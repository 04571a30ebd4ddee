-- ===== src/Assembler/Lexer/Numbers.antt =====
-- pm/vm.c, INST_PRINT, and posm/lexer.c: a number that the machine prints is read back.
use pocol_vm.Prelude.{
  ℕ, zero, suc, ◌+◌, ◌-◌, ◌*◌, ◌/◌, ◌%◌, ◌^◌, ◌≤◌, ◌<◌, ◌≡◌, refl, sym, ap, ◌∙◌, true, false, ◌||◌,
  List, [], ◌∷◌, ◌++◌, arith, Bool-cases, inl, inr, ltb, ◌==◌, if◌then◌else◌,
}
use mathlib.Core.Path.{subst}
use pocol_vm.Vm.Decimal.{digits_onto, decimal}
use pocol_vm.Assembler.Lexer.{
  tok_int, Lexer, byte_at, is_space, is_digit, skip_blank, digits, positive, strtol, next_int,
  next_token, next,
}

abbrev pow10 : ℕ → ℕ
pow10 zero = 1
pow10 (suc n) = 10 * pow10 n

digit_true : (d : ℕ) → d < 10 → is_digit (b'0' + d) ≡ true
unfolding is_digit
digit_true d h = ground arith

-- One digit in front of others.
digits_one :
    (d k n m : ℕ) (rest : List ℕ)
    → d < 10
    → n * 10 + d ≡ m
    → digits ((b'0' + d) ∷ rest) k n ≡ digits rest (k + 1) m
unfolding digits
digits_one d k n m rest h e =
    rw (digit_true d h) (ap (λ x. digits rest (k + 1) x) (omega (arith, e)))

-- Reading the digits of a number in front of others takes them, and gives the number.
digits-digits_onto :
    (f v : ℕ) (rest : List ℕ)
    → v < pow10 f
    → 1 ≤ v + f
    → (k : ℕ) × (1 ≤ k) × (digits (digits_onto f v rest) 0 0 ≡ digits rest k v)
unfolding digits_onto
digits-digits_onto zero v rest h some_digit = absurd (omega arith)
digits-digits_onto (suc f) v rest h some_digit = elim (Bool-cases (ltb v 10)) [
  | inl one ↦ simp one (1, omega arith, digits_one v 0 0 v rest (ground arith) (omega arith))
  | inr more ↦
      let (k, le, e) =
        digits-digits_onto f (v / 10) ((b'0' + v % 10) ∷ rest) (omega arith) (ground arith) in
      simp more
        (k + 1, omega arith, e ∙ digits_one (v % 10) k (v / 10) v rest (omega arith) (omega arith))
]

-- The first byte is a digit.
digits_onto-first :
    (f v : ℕ) (rest : List ℕ)
    → v < pow10 f
    → 1 ≤ v + f
    → (d : ℕ) × (cs : List ℕ) × (d < 10) × (digits_onto f v rest ≡ (b'0' + d) ∷ cs)
unfolding digits_onto
digits_onto-first zero v rest h some_digit = absurd (omega arith)
digits_onto-first (suc f) v rest h some_digit = elim (Bool-cases (ltb v 10)) [
  | inl one ↦ simp one (v, rest, ground arith, refl)
  | inr more ↦
      simp more (digits_onto-first f (v / 10) ((b'0' + v % 10) ∷ rest) (omega arith) (ground arith))
]

digits_onto-append :
    (f v : ℕ) (rest more : List ℕ) → digits_onto f v rest ++ more ≡ digits_onto f v (rest ++ more)
unfolding digits_onto
digits_onto-append zero v rest more = refl
digits_onto-append (suc f) v rest more = elim (Bool-cases (ltb v 10)) [
  | inl one ↦ simp one
  | inr many ↦ simp many (digits_onto-append f (v / 10) ((b'0' + v % 10) ∷ rest) more)
]

-- The token at a byte, of the type and with the value of a number.
abbrev IsInt : Lexer → ℕ → Type 0
IsInt lx v = ((next lx).0.type ≡ tok_int) × ((next lx).0.value ≡ v)

not_blank : (d : ℕ) → d < 10 → (is_space (b'0' + d) || ((b'0' + d) == b',')) ≡ false
unfolding is_space
not_blank d h = ground arith

-- At a digit, the next token is a number, with the value that strtol gives.
next-digit :
    (lx : Lexer) (d : ℕ) (cs : List ℕ)
    → d < 10
    → IsInt (record lx { cursor = (b'0' + d) ∷ cs }) (positive (digits ((b'0' + d) ∷ cs) 0 0)).value
unfolding next skip_blank next_token next_int strtol
next-digit lx d cs h =
    let more : ((b'0' + d) == 0) ≡ false = ground arith in
    let code : ((b'0' + d) == b';') ≡ false = ground arith in
    let plus : ((b'0' + d) == b'-') ≡ false = ground arith in
    simp (more, not_blank d h, code, digit_true d h, plus) (refl, refl)

-- What strtol makes of digits that no other digit follows.
digits_end : (rest : List ℕ) (k n : ℕ) → is_digit (byte_at rest) ≡ false → digits rest k n ≡ (k, n)
unfolding digits
digits_end [] k n h = refl
digits_end (c ∷ cs) k n h = simp h

positive-value : (k v : ℕ) → (positive (k, v)).value ≡ (if ltb v (2 ^ 63) then v else 2 ^ 63 - 1)
positive-value k v = ground arith

-- The lexer reads what PRINT writes for a 64-bit number, in front of anything but a digit, as a number
-- token with that value; from 2 ^ 63 on the value is the largest of an int64_t.
pub next-decimal :
    (lx : Lexer) (v : ℕ) (rest : List ℕ)
    → v < 2 ^ 64
    → is_digit (byte_at rest) ≡ false
    → lx.cursor ≡ decimal v ++ rest
    → ((next lx).0.type ≡ tok_int)
      × ((next lx).0.value ≡ (if ltb v (2 ^ 63) then v else 2 ^ 63 - 1))
unfolding decimal
next-decimal lx v rest h ends e =
    let (d, cs, lt, first) = digits_onto-first 20 v rest (omega arith) (omega arith) in
    let (k, le, read) = digits-digits_onto 20 v rest (omega arith) (omega arith) in
    let (int, value) =
      subst (λ c. IsInt (record lx { cursor = c }) (positive (digits c 0 0)).value)
        (sym (e ∙ digits_onto-append 20 v [] rest ∙ first)) (next-digit lx d cs lt) in
    (
      int,
      value
          ∙ ap (λ c. (positive (digits c 0 0)).value) (e ∙ digits_onto-append 20 v [] rest)
          ∙ ap (λ p. (positive p).value) (read ∙ digits_end rest k v ends)
          ∙ positive-value k v,
    )
