-- ===== src/Assembler/Parser/Passes.antt =====
-- posm/compiler.c: pocol_parse_file, and the passes and the header of pocol_compile_file.
use pocol_vm.Prelude.{
  ℕ, zero, suc, Bool, true, false, ◌&&◌, Option, none, some, List, [], ◌∷◌, ◌++◌, ltb, leb, ◌==◌,
  if◌then◌else◌, length,
}
use pocol_vm.State.{Run, done, exits, fault}
use pocol_vm.Vm.Load.{pocol_magic, pocol_version, header_size, header_bytes}
use pocol_vm.Assembler.Symbol.{
  compiler_max_symbol_name, SymData, Symbols, symfind, Push, pushed, duplicate, push_fault, sympush,
}
use pocol_vm.Assembler.Lexer.{TokenType, tok_eof, tok_label, consume_until_newline, next, text}
use pocol_vm.Assembler.Parser.{Asm, advance, asm_error, is_ident, parse_inst}

abbrev pub is_eof : TokenType → Bool
is_eof tok_eof = true
is_eof _ = false

abbrev pub is_label : TokenType → Bool
is_label tok_label = true
is_label _ = false

abbrev pub end_label : Asm → Asm
end_label a = advance (record a { lexer = consume_until_newline a.lexer })

abbrev pub after_push : Asm → Push → Run Asm (Unit {0})
after_push a (pushed table) = done tt (end_label (record a { symbols = table }))
after_push a duplicate = done tt (end_label (asm_error a))
after_push a push_fault = fault

-- A label in the first pass: its address is the virtual program counter. A name that does not fit
-- the array is written past its end. The rest of the line is skipped.
unfoldable pub parse_label : Asm → Run Asm (Unit {0})
parse_label a =
    if leb compiler_max_symbol_name a.lookahead.length
    then fault
    else after_push a (
        sympush a.symbols
          (record { name = text a.lookahead; pc = a.virtual_pc; is_defined = true }))

abbrev pub after_inst : Run Asm Bool → Run Asm (Unit {0})
after_inst (done true a) = done tt a
after_inst (done false a) = done tt (advance (asm_error a))
after_inst (exits c a) = exits c a
after_inst fault = fault

-- A round of the loop of pocol_parse_file, before the end of the source.
unfoldable pub parse_item : Asm → Run Asm (Unit {0})
parse_item a =
    if a.pass == 1 && is_label a.lookahead.type
    then parse_label a
    else if is_ident a.lookahead.type
    then after_inst (parse_inst a)
    else done tt (advance a)

abbrev pub go_on :
    (Asm → Option (Run Asm (Unit {0}))) → Run Asm (Unit {0}) → Option (Run Asm (Unit {0}))
go_on again (done u a) = again a
go_on again (exits c a) = some (exits c a)
go_on again fault = some fault

unfoldable pub parse_file : ℕ → Asm → Option (Run Asm (Unit {0}))
parse_file zero a = none
parse_file (suc f) a =
    let round = go_on (parse_file f) (parse_item a) in
    if is_eof a.lookahead.type then some (done tt a) else round

-- The context at the start of a pass over the source.
unfoldable pub start_pass : List ℕ → (pass errors : ℕ) → Symbols → List ℕ → Asm
start_pass source pass errors symbols out =
    let (t, lx) = next (record { cursor = source; line = 1; col = 1; total_error = errors }) in
    record {
      lexer = lx;
      lookahead = t;
      pass = pass;
      virtual_pc = header_size;
      symbols = symbols;
      out = out;
    }

-- "_start"
abbrev pub start_name : List ℕ
start_name = b'_' ∷ b's' ∷ b't' ∷ b'a' ∷ b'r' ∷ b't' ∷ []

abbrev pub with_entry : Asm → Option SymData → Option (List ℕ)
with_entry a none = none
with_entry a (some s) =
    if ltb 0 a.lexer.total_error
    then none
    else some (
        header_bytes (record {
          magic = pocol_magic;
          version = pocol_version;
          entry_point = s.pc;
          code_size = length a.out;
        })
        ++ a.out)

-- The file that is left behind, or none after an error.
abbrev pub finish : Run Asm (Unit {0}) → Run Asm (Option (List ℕ))
finish (done u a) = done (with_entry a (symfind a.symbols start_name)) a
finish (exits c a) = exits c a
finish fault = fault

abbrev pub map_finish : Option (Run Asm (Unit {0})) → Option (Run Asm (Option (List ℕ)))
map_finish none = none
map_finish (some r) = some (finish r)

abbrev pub second_pass : ℕ → List ℕ → Run Asm (Unit {0}) → Option (Run Asm (Option (List ℕ)))
second_pass fuel source (exits c a) = some (exits c a)
second_pass fuel source fault = some fault
second_pass fuel source (done u a) =
    if ltb 0 a.lexer.total_error
    then some (finish (done u a))
    else map_finish (parse_file fuel (start_pass source 2 a.lexer.total_error a.symbols a.out))

abbrev pub first_pass :
    ℕ → List ℕ → Option (Run Asm (Unit {0})) → Option (Run Asm (Option (List ℕ)))
first_pass fuel source none = none
first_pass fuel source (some r) = second_pass fuel source r

-- The two passes of `pocol_compile_file`, and the content of the file that it makes.
unfoldable pub compile_file : ℕ → List ℕ → Option (Run Asm (Option (List ℕ)))
compile_file fuel source = first_pass fuel source (parse_file fuel (start_pass source 1 0 [] []))
