-- ===== src/Vm/Decimal.antt =====
-- The decimal digits that `printf("%" PRIu64)` writes for a 64-bit number, as bytes.
use pocol_vm.Prelude.{ℕ, zero, suc, ◌+◌, ◌/◌, ◌%◌, List, [], ◌∷◌, ltb, if◌then◌else◌}

-- The digits of `v` in front of `rest`; each round takes one digit.
unfoldable pub digits_onto : ℕ → ℕ → List ℕ → List ℕ
digits_onto zero v rest = rest
digits_onto (suc f) v rest =
    let more = digits_onto f (v / 10) ((b'0' + v % 10) ∷ rest) in
    if ltb v 10 then (b'0' + v) ∷ rest else more

-- A 64-bit number has twenty digits at most.
unfoldable pub decimal : ℕ → List ℕ
unfolding digits_onto
decimal v = digits_onto 20 v []
