-- ===== src/Assembler/Symbol/Table.antt =====
-- posm/symbol.c: the table as a map from names.
use pocol_vm.Prelude.{
  ℕ, ◌≤◌, ◌<◌, ◌≡◌, ◌≢◌, refl, none, some, List, [], ◌∷◌, ◌++◌, arith, length, length-append,
  str_eq, str_eq_refl, str_eq→eq, if◌then◌else◌, Option-cases, inl, inr, lt→leb_false, le→leb,
}
use pocol_vm.Assembler.Symbol.{
  compiler_max_symbol, SymData, Symbols, symfind, pushed, duplicate, push_fault, sympush,
}

-- No two symbols have one name.
abbrev pub Unique : Symbols → Type 0
Unique [] = Unit
Unique (s ∷ ss) = (symfind ss s.name ≡ none) × Unique ss

pub record IsTable (table : Symbols) : Type 0 where
  pub unique : Unique table
  pub fits : length table ≤ compiler_max_symbol

symfind-append :
    (s : SymData) (name : List ℕ) (ss : Symbols)
    → symfind ss s.name ≡ none
    → symfind (ss ++ s ∷ []) name ≡ (if str_eq s.name name then some s else symfind ss name)
unfolding symfind
symfind-append s name [] h = refl
symfind-append s name (t ∷ ss) h = ground (
  arith,
  str_eq→eq t.name name,
  str_eq→eq s.name name,
  str_eq_refl name,
  symfind-append s name ss,
)

Unique-append :
    (s : SymData) (ss : Symbols) → symfind ss s.name ≡ none → Unique ss → Unique (ss ++ s ∷ [])
unfolding symfind
Unique-append s [] h u = (refl, tt)
Unique-append s (t ∷ ss) h (f, u) = (
  ground (arith, symfind-append s t.name ss, str_eq→eq s.name t.name, str_eq_refl s.name),
  Unique-append s ss (ground arith) u,
)

-- A name that is found is refused, and nothing is written. A new name is written past the array
-- where the table is full. Otherwise the symbol is found under its name from then on, all other
-- names are found as before, and the table is one again.
pub symfind-sympush :
    (table : Symbols) (s : SymData)
    → IsTable table
    → (symfind table s.name ≢ none → sympush table s ≡ duplicate)
      × (symfind table s.name ≡ none
          → length table ≡ compiler_max_symbol
          → sympush table s ≡ push_fault)
      × (symfind table s.name ≡ none
          → length table < compiler_max_symbol
          → (table' : Symbols) × (sympush table s ≡ pushed table')
            × IsTable table'
            × ((name : List ℕ)
                → symfind table' name
                  ≡ (if str_eq s.name name then some s else symfind table name)))
unfolding sympush
symfind-sympush table s v = (
  (λ found. elim (Option-cases (symfind table s.name)) [
    | inl absent ↦ absurd (found absent)
    | inr (old, e) ↦ rw e
  ]),
  (λ new full. rw (new, le→leb compiler_max_symbol (length table) (omega arith))),
  λ new room. (
    table ++ s ∷ [],
    rw (new, lt→leb_false compiler_max_symbol (length table) room),
    record {
      unique = Unique-append s table new v.unique;
      fits = omega (arith, length-append table (s ∷ []));
    },
    λ name. symfind-append s name table new,
  ),
)
