-- ===== src/Poclc/Options/Usage.antt =====
-- poclc/poclc_main.c: the default name of the output, and the usage that the help text shows.
use pocol_vm.Prelude.{
  ℕ, ◌≡◌, ◌⊎◌, inl, inr, refl, Bool, true, false, Option, some, List, [], ◌∷◌, ◌++◌, arith, str_eq,
}
use pocol_vm.Prelude.Text.{codes}
use pocol_vm.Poclc.Main.Ends.{empty_program, compile-total}
use pocol_vm.Poclc.Options.{
  no_options, parsed, is_path, parse_args, split_dot, default_output, returns, bad_free, poclc_main,
}

split_dot-pc : (p : List ℕ) → split_dot (p ++ codes ".pc") ≡ some (p, codes ".pc")
unfolding split_dot
split_dot-pc [] = refl
split_dot-pc (c ∷ p) = simp (split_dot-pc p) refl

-- The default name of the output for an input that ends in ".pc": that ending becomes ".pob".
pub default_output-pc : (p : List ℕ) → default_output (p ++ codes ".pc") ≡ p ++ codes ".pob"
unfolding default_output
default_output-pc p = simp (split_dot-pc p) refl

-- A path is no option.
is_path-dash : (s t : List ℕ) → is_path s ≡ true → str_eq s (b'-' ∷ t) ≡ false
is_path-dash [] t h = refl
is_path-dash (c ∷ s) t h = ground (arith, h)

parse_args-o :
    (input out : List ℕ)
    → is_path input ≡ true
    → parse_args (input ∷ codes "-o" ∷ out ∷ []) no_options
      ≡ parsed (record no_options { input_path = some input; output_path = some out })
unfolding parse_args
parse_args-o input out h =
    simp
      (
        h,
        is_path-dash input (codes "o") h,
        is_path-dash input (codes "v") h,
        is_path-dash input (codes "-verbose") h,
        is_path-dash input (codes "h") h,
        is_path-dash input (codes "-help") h,
      )
      refl

module _ (read : List ℕ → Option (List ℕ)) (creates : List ℕ → Bool) where
  -- The usage that the help text shows, with the output behind the input, on files that open: either
  -- main returns 1 after an error, with an empty output file, or it writes the empty program and then
  -- frees the argument that names the output, which it never allocated. It never returns 0.
  pub poclc_main-o :
      (input out bytes : List ℕ)
      → is_path input ≡ true
      → read input ≡ some bytes
      → creates out ≡ true
      → (poclc_main read creates (input ∷ codes "-o" ∷ out ∷ []) ≡ returns 1 (some (out, [])))
        ⊎ (poclc_main read creates (input ∷ codes "-o" ∷ out ∷ []) ≡ bad_free (out, empty_program))
  unfolding poclc_main
  poclc_main-o input out bytes path opens made = elim (compile-total bytes) [
    | inl quiet ↦ inr (
        simp (parse_args-o input out path, opens, made, quiet, is_path-dash input (codes "o") path)
          refl)
    | inr (n, (_, bad)) ↦ inl (simp (parse_args-o input out path, opens, made, bad) refl)
  ]
