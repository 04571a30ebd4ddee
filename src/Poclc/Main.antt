-- ===== src/Poclc/Main.antt =====
-- poclc/poclc_main.c: the run of the compiler on the content of the input file, once both files are
-- open. The fuel bounds the rounds of the top-level loop.
pub mod Ends
pub mod Refused
pub mod Words
use pocol_vm.Prelude.{ℕ, suc, ◌+◌, List, length, ltb, if◌then◌else◌}
use pocol_vm.Poclc.Token.{CompilerCtx}
use pocol_vm.Poclc.Lexer.{Ctx, init_lexer, next_token, consume_token}
use pocol_vm.Poclc.Ast.{Nodes}
use pocol_vm.Poclc.Parser.{Result, ok, null_text, out_of_fuel}
use pocol_vm.Poclc.Statement.{parse_program}
use pocol_vm.Poclc.Generate.{generate_code}

-- How `main` ends: with 1 after errors, and nothing in the output file, or with 0 and its bytes; or
-- not by a return.
pub data Outcome : Type 0 where
  failed : (error_count : ℕ) → Outcome
  written : List ℕ → Outcome
  crashed : Outcome
  running : Outcome

unfoldable pub finish : Result (Nodes × Ctx) → Outcome
finish (ok (program, ctx)) =
    if ltb 0 ctx.error_count then failed ctx.error_count else written (generate_code program)
finish null_text = crashed
finish out_of_fuel = running

unfoldable pub compile : List ℕ → Outcome
compile bytes = finish (parse_program consume_token (suc (length bytes + 2)) (init_lexer bytes))
