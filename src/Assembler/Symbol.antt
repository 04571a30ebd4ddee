-- ===== src/Assembler/Symbol.antt =====
-- posm/symbol.h and posm/symbol.c: the symbol table. SYM_LABEL is the only kind of symbol. The used
-- prefix of the array, `symbol_count` long, is a list.
pub mod Table
use pocol_vm.Prelude.{
  ℕ, ◌*◌, Bool, Option, none, some, List, [], ◌∷◌, ◌++◌, leb, str_eq, if◌then◌else◌, length,
}

abbrev pub compiler_max_symbol : ℕ
compiler_max_symbol = 4 * 256

abbrev pub compiler_max_symbol_name : ℕ
compiler_max_symbol_name = 256

-- `SymData`, with the label's fields
pub record SymData : Type 0 where
  pub name : List ℕ
  pub pc : ℕ
  pub is_defined : Bool

abbrev pub Symbols : Type 0
Symbols = List SymData

unfoldable pub symfind : Symbols → List ℕ → Option SymData
symfind [] name = none
symfind (s ∷ ss) name = if str_eq s.name name then some s else symfind ss name

-- 0 with the new table, -1, or a write past the end of the array.
pub data Push : Type 0 where
  pushed : Symbols → Push
  duplicate : Push
  push_fault : Push

abbrev pub push_new : Symbols → SymData → Push
push_new table s =
    if leb compiler_max_symbol (length table) then push_fault else pushed (table ++ s ∷ [])

abbrev pub push_found : Symbols → SymData → Option SymData → Push
push_found table s none = push_new table s
push_found table s (some _) = duplicate

unfoldable pub sympush : Symbols → SymData → Push
sympush table s = push_found table s (symfind table s.name)
