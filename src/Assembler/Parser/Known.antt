-- ===== src/Assembler/Parser/Known.antt =====
-- posm/compiler.c, parse_inst: the search in the table of instructions.
use pocol_vm.Prelude.{
  ℕ, ◌≡◌, ◌≢◌, refl, ap, ◌∙◌, ◌⊎◌, inl, inr, true, Option, none, some, List, [], ◌∷◌, Bool-cases,
  str_eq, str_eq→eq,
}
use pocol_vm.State.{done, fault}
use pocol_vm.Assembler.Lexer.{text}
use pocol_vm.Assembler.Parser.{
  Asm, InstDef, inst_table, Found, found, found_fault, found_name, find_inst, parse_found, on_found,
  parse_inst,
}

-- A table whose last entry has no name, in front of which all have one.
Ends : List InstDef → Type 0
Ends [] = ⊥
Ends (d ∷ []) = d.name ≡ none
Ends (d ∷ e ∷ ds) = (d.name ≢ none) × Ends (e ∷ ds)

-- The instruction is an entry of the table.
abbrev pub Entry : InstDef → List InstDef → Type 0
Entry d [] = ⊥
Entry d (e ∷ ds) = (d ≡ e) ⊎ Entry d ds

-- The search in a table finds an entry with the mnemonic, or it faults.
abbrev Search : List InstDef → List ℕ → Found → Type 0
Search ds mnemonic f =
    ((d : InstDef) × Entry d ds × (d.name ≡ some mnemonic) × (f ≡ found d)) ⊎ (f ≡ found_fault)

later-Search :
    (ds : List InstDef) {mnemonic : List ℕ} {f : Found} (d : InstDef)
    → Search ds mnemonic f
    → Search (d ∷ ds) mnemonic f
later-Search ds d (inl (e, here, named, same)) = inl (e, inr here, named, same)
later-Search ds d (inr faults) = inr faults

found_name-Search :
    (ds : List InstDef) (mnemonic : List ℕ) (d : InstDef) (rest : Found) (name : Option (List ℕ))
    → d.name ≡ name
    → Search ds mnemonic rest
    → Search (d ∷ ds) mnemonic (found_name mnemonic d rest name)
found_name-Search ds mnemonic d rest none e h = inr refl
found_name-Search ds mnemonic d rest (some name) e h = elim (Bool-cases (str_eq name mnemonic)) [
  | inl same ↦ simp same (inl (d, inl refl, e ∙ ap some (str_eq→eq name mnemonic same), refl))
  | inr other ↦ simp other (later-Search ds d h)
]

find_inst-Search :
    (ds : List InstDef) (mnemonic : List ℕ) → Ends ds → Search ds mnemonic (find_inst ds mnemonic)
unfolding find_inst Ends
find_inst-Search [] mnemonic h = absurd h
find_inst-Search (d ∷ []) mnemonic h = simp h (inr refl)
find_inst-Search (d ∷ e ∷ ds) mnemonic (named, h) =
    found_name-Search (e ∷ ds) mnemonic d _ d.name refl (find_inst-Search (e ∷ ds) mnemonic h)

on_found-Search :
    (ds : List InstDef) (a : Asm) (f : Found)
    → Search ds (text a.lookahead) f
    → ((d : InstDef) × Entry d ds
        × (d.name ≡ some (text a.lookahead))
        × (on_found f a ≡ done true (parse_found d a)))
      ⊎ (on_found f a ≡ fault)
on_found-Search ds a f (inl (d, entry, named, e)) = inl (d, entry, named, ap (λ g. on_found g a) e)
on_found-Search ds a f (inr e) = inr (ap (λ g. on_found g a) e)

-- parse_inst never returns -1: it parses as an entry of inst_table, whose name is the text of the
-- token, or it faults, as the search does when it reads through the NULL name of the last entry. So no
-- mnemonic is ever reported as unknown.
pub parse_inst-known :
    (a : Asm)
    → ((d : InstDef) × Entry d inst_table
        × (d.name ≡ some (text a.lookahead))
        × (parse_inst a ≡ done true (parse_found d a)))
      ⊎ (parse_inst a ≡ fault)
unfolding parse_inst Ends
parse_inst-known a = on_found-Search inst_table a _ (
    find_inst-Search inst_table (text a.lookahead)
      ((λ q. cc), ((λ q. cc), ((λ q. cc), ((λ q. cc), ((λ q. cc), ((λ q. cc), refl)))))))
