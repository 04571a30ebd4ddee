-- ===== src/Tests/Machine.antt =====
-- Words and descriptors of the machine.
use pocol_vm.Prelude.{ℕ, ◌≡◌, refl, [], ◌∷◌}
use pocol_vm.Machine.{Memory, emit64, store_list}

abbrev word : ℕ
word = 0x0102030405060708

abbrev word_memory : Memory
word_memory = store_list (λ _. 9) 5 (emit64 word)

emit64_test : emit64 word ≡ (8 ∷ 7 ∷ 6 ∷ 5 ∷ 4 ∷ 3 ∷ 2 ∷ 1 ∷ [])
unfolding emit64
emit64_test = refl
