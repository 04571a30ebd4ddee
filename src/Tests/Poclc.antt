-- ===== src/Tests/Poclc.antt =====
-- poclc: runs on small sources and trees.
use pocol_vm.Prelude.{ℕ, ◌<◌, ◌+◌, ◌≡◌, ◌⊎◌, refl, arith, some, List, [], ◌∷◌, length}
use pocol_vm.Prelude.{Option, true}
use pocol_vm.Prelude.Text.{codes}
use pocol_vm.Machine.{emit64}
use pocol_vm.Machine.Stores.{Holds-store_list}
use pocol_vm.Vm.Load.{rejected, load_program}
use pocol_vm.Poclc.Token.{tok_plus, zero_token}
use pocol_vm.Assembler.Lexer.{is_alpha, is_digit, is_name_byte}
use pocol_vm.Poclc.Stream.{skip_whitespace, advance, skip_block}
use pocol_vm.Poclc.Lexer.{Ctx, init_lexer, next_token, next_at, switch, single, paired, word_token}
use pocol_vm.Poclc.Statement.{parse_program}
use pocol_vm.Poclc.Lexer.Names.{input_at, name_token, next_token-name}
use pocol_vm.Poclc.Ast.{
  Ast, func_decl, binary_expr, number_expr, print_stmt, block, no_nodes, node, Nodes,
}
use pocol_vm.Poclc.Generate.{gen_expr, generate_code}
use pocol_vm.Poclc.Generate.Code.{encode_all, expr_insts, gen_expr-encode}
use pocol_vm.Poclc.Generate.Effect.{Leads}
use pocol_vm.Poclc.Generate.Runs.{Arith, number, binary, pushes, adds, gen_expr-Leads}
use pocol_vm.Poclc.Main.{failed, written, finish, compile}
use pocol_vm.Poclc.Main.Ends.{empty_program, compile-total}
use pocol_vm.Poclc.Main.Words.{compile-word}
use pocol_vm.Poclc.Main.Refused.{load_program-generate_code}
use pocol_vm.Poclc.Options.{returns, bad_free, poclc_main}
use pocol_vm.Poclc.Options.Usage.{poclc_main-o}
use pocol_vm.Tests.Console.{console_host, machine}

compile-total_example :
    (compile (codes "; x = 1;") ≡ written empty_program)
    ⊎ ((n : ℕ) × ((0 < n) × (compile (codes "; x = 1;") ≡ failed n)))
compile-total_example = compile-total (codes "; x = 1;")

compile-word_example : compile (codes " func main() { print 1; }") ≡ written empty_program
unfolding is_alpha
compile-word_example =
    compile-word (b' ' ∷ []) b'f' (codes "unc main() { print 1; }") (refl, tt) refl

-- An error, and an unterminated comment, which hides the end of the input.
semicolons_test : compile (codes ";;") ≡ failed 1
unfolding compile finish parse_program next_token next_at skip_whitespace switch single advance
    paired word_token is_alpha is_digit
semicolons_test = refl

comment_test : compile (codes "; /* x = 1;") ≡ written empty_program
unfolding compile finish parse_program next_token next_at skip_whitespace switch single advance
    skip_block emit64 generate_code
comment_test = refl

-- func f() { print 1; }
abbrev printing : Nodes
printing =
    node (func_decl (codes "f") 0 (block (node (print_stmt (number_expr 1)) no_nodes))) no_nodes

load_program-generate_code_example :
    load_program (some (machine [])) 0 [] (some (generate_code printing)) ≡ rejected
load_program-generate_code_example = load_program-generate_code (some (machine [])) 0 [] printing

-- The tree of 1 + 2.
abbrev one_plus_two : Ast
one_plus_two = binary_expr tok_plus (number_expr 1) (number_expr 2)

gen_expr-encode_example : gen_expr one_plus_two ≡ encode_all (expr_insts one_plus_two)
gen_expr-encode_example = gen_expr-encode one_plus_two

-- The code of 1 + 2, loaded at 0.
abbrev sum-Arith : Arith one_plus_two
sum-Arith = binary (number (omega arith)) (number (omega arith))

gen_expr-Leads_example :
    Leads console_host
      (length (pushes sum-Arith) + adds sum-Arith)
      (length (gen_expr one_plus_two))
      (pushes sum-Arith)
      (adds sum-Arith)
      (machine (gen_expr one_plus_two))
unfolding gen_expr pushes emit64
gen_expr-Leads_example =
    gen_expr-Leads console_host sum-Arith (machine (gen_expr one_plus_two)) (record {
      live = refl;
      room = omega arith;
      inside = omega arith;
      code = Holds-store_list (λ _. 0) 0 (gen_expr one_plus_two);
    })

-- "if (" behind a first position.
abbrev at_if : Ctx
at_if = init_lexer (codes "if (")

next_token-name_example :
    ((next_token at_if).0 ≡ name_token (codes "if") (input_at (codes "if (") 1 1))
    × (((next_token at_if).1.input ≡ input_at (codes " (") 1 3)
        × ((next_token at_if).1.current_token ≡ zero_token))
unfolding is_alpha is_name_byte
next_token-name_example =
    next_token-name b'i' (codes "f") (codes " (") 1 1 at_if refl refl (refl, (refl, refl))

-- poclc a.pc -o b.pob, where every file opens and the input is ";".
abbrev semicolon_file : List ℕ → Option (List ℕ)
semicolon_file _ = some (codes ";")

poclc_main-o_example :
    (poclc_main semicolon_file (λ _. true) (codes "a.pc" ∷ codes "-o" ∷ codes "b.pob" ∷ [])
      ≡ returns 1 (some (codes "b.pob", [])))
    ⊎ (poclc_main semicolon_file (λ _. true) (codes "a.pc" ∷ codes "-o" ∷ codes "b.pob" ∷ [])
        ≡ bad_free (codes "b.pob", empty_program))
poclc_main-o_example =
    poclc_main-o semicolon_file (λ _. true) (codes "a.pc") (codes "b.pob") (codes ";") refl refl
      refl
