-- ===== src/Tests/Lexer.antt =====
-- The lexer on a printed number.
use pocol_vm.Prelude.{◌-◌, ◌^◌, ◌≡◌, refl, arith, false, [], ◌∷◌, ◌++◌, ltb, if◌then◌else◌}
use pocol_vm.Vm.Decimal.{decimal}
use pocol_vm.Assembler.Lexer.{tok_int, Lexer, byte_at, is_digit, next}
use pocol_vm.Assembler.Lexer.Numbers.{next-decimal}

-- 2 ^ 63 in front of a newline
abbrev printed : Lexer
printed = record { cursor = decimal (2 ^ 63) ++ 10 ∷ []; line = 1; col = 1; total_error = 0 }

newline_ends : is_digit (byte_at (10 ∷ [])) ≡ false
unfolding is_digit
newline_ends = refl

next-decimal_example :
    ((next printed).0.type ≡ tok_int)
    × ((next printed).0.value ≡ (if ltb (2 ^ 63) (2 ^ 63) then 2 ^ 63 else 2 ^ 63 - 1))
next-decimal_example = next-decimal printed (2 ^ 63) (10 ∷ []) (omega arith) newline_ends refl
