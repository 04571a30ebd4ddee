-- ===== src/Tests/Assembler.antt =====
-- The assembler on small sources.
use pocol_vm.Prelude.{
  ◌^◌, ◌⊎◌, ◌++◌, ◌+◌, drop, ℕ, ◌≤◌, ◌<◌, ◌≡◌, ◌≢◌, refl, arith, true, Option, none, some, List, [],
  ◌∷◌, length, str_eq, if◌then◌else◌,
}
use pocol_vm.Prelude.Text.{codes}
use pocol_vm.Assembler.Parser.Compiled.{Compiled, compile_file-Compiled, compile_file-loaded}
use pocol_vm.Assembler.Parser.Total.{compile_file-total}
use pocol_vm.Assembler.Parser.Known.{Entry, parse_inst-known}
use pocol_vm.Vm.Isa.{push, imm, encode, inst_size}
use pocol_vm.Assembler.Parser.Spelled.{Spells, parse_inst-encode}
use pocol_vm.State.{Vm, Run, done, fault}
use pocol_vm.Assembler.Parser.{
  Asm, InstDef, inst_table, parse_inst, parse_found, parse_operand, operand_value, peek_type,
  type_of, find_inst, advance,
}
use pocol_vm.Assembler.Parser.Passes.{
  start_name, start_pass, parse_file, parse_item, parse_label, compile_file,
}
use pocol_vm.Assembler.Lexer.{
  next, next_token, next_name, next_int, strtol, digits, atoi, consume_many, skip_blank,
  compiler_error, consume_until_newline, consume_while, consume, peek, peek_from, is_space,
  is_digit, is_alpha, is_name_byte, text,
}
use pocol_vm.Machine.{desc_pack, emit64, memory_size, Holds}
use pocol_vm.Vm.Load.{header_size, header_bytes, emit32, loaded, load_program}
use pocol_vm.Assembler.Symbol.{
  compiler_max_symbol, SymData, Symbols, symfind, pushed, duplicate, push_fault, sympush,
}
use pocol_vm.Assembler.Symbol.Table.{IsTable, symfind-sympush}

abbrev start : SymData
start = record { name = b's' ∷ []; pc = 24; is_defined = true }

abbrev end : SymData
end = record { name = b'e' ∷ []; pc = 34; is_defined = true }

abbrev table : Symbols
table = start ∷ []

table-IsTable : IsTable table
unfolding symfind
table-IsTable = record { unique = (refl, tt); fits = omega arith }

symfind-sympush_example :
    (symfind table end.name ≢ none → sympush table end ≡ duplicate)
    × (symfind table end.name ≡ none
        → length table ≡ compiler_max_symbol
        → sympush table end ≡ push_fault)
    × (symfind table end.name ≡ none
        → length table < compiler_max_symbol
        → (table' : Symbols) × (sympush table end ≡ pushed table')
          × IsTable table'
          × ((name : List ℕ)
              → symfind table' name
                ≡ (if str_eq end.name name then some end else symfind table name)))
symfind-sympush_example = symfind-sympush table end table-IsTable

-- A program that halts.
abbrev source : List ℕ
source = codes "_start:\n halt\n"

-- The context and the output of a run.
abbrev context : Option (Run Asm (Option (List ℕ))) → Asm
context (some (done o a)) = a
context _ = start_pass [] 1 0 [] []

abbrev output : Option (Run Asm (Option (List ℕ))) → List ℕ
output (some (done (some bytes) a)) = bytes
output _ = []

source-compiles :
    compile_file 20 source
    ≡ some (done (some (output (compile_file 20 source))) (context (compile_file 20 source)))
unfolding parse_file start_pass parse_item parse_label parse_inst parse_found parse_operand
    operand_value peek_type type_of find_inst advance symfind sympush next next_token next_name
    next_int strtol digits atoi consume_many skip_blank compiler_error consume_until_newline
    consume_while consume peek peek_from is_space is_digit is_alpha is_name_byte desc_pack emit64
    header_bytes emit32 compile_file
source-compiles = refl

abbrev compiled : List ℕ
compiled = output (compile_file 20 source)

abbrev compiler : Asm
compiler = context (compile_file 20 source)

compile_file-Compiled_example : Compiled compiled compiler
compile_file-Compiled_example = compile_file-Compiled 20 source compiled compiler source-compiles

code-fits : length compiler.out ≤ memory_size
unfolding parse_file start_pass parse_item parse_label parse_inst parse_found parse_operand
    operand_value peek_type type_of find_inst advance symfind sympush next next_token next_name
    next_int strtol digits atoi consume_many skip_blank compiler_error consume_until_newline
    consume_while consume peek peek_from is_space is_digit is_alpha is_name_byte desc_pack emit64
    header_bytes emit32 compile_file
code-fits = omega arith

start-fits : (s : SymData) → symfind compiler.symbols start_name ≡ some s → s.pc < 2 ^ 64
unfolding parse_file start_pass parse_item parse_label parse_inst parse_found parse_operand
    operand_value peek_type type_of find_inst advance symfind sympush next next_token next_name
    next_int strtol digits atoi consume_many skip_blank compiler_error consume_until_newline
    consume_while consume peek peek_from is_space is_digit is_alpha is_name_byte desc_pack emit64
    header_bytes emit32 compile_file
start-fits s e = ground arith

compile_file-loaded_example :
    (vm : Vm ℕ) × (start : SymData) × (load_program none 0 7 (some compiled) ≡ loaded vm)
    × Holds vm.memory 0 compiler.out
    × (symfind compiler.symbols start_name ≡ some start)
    × (vm.pc ≡ start.pc)
    × (header_size ≤ vm.pc)
compile_file-loaded_example =
    compile_file-loaded 20 source compiled compiler none 0 7 source-compiles code-fits start-fits

compile_file-total_example : compile_file 20 source ≢ none
compile_file-total_example = compile_file-total 20 source (omega arith)

parse_inst-known_example :
    ((d : InstDef) × Entry d inst_table
      × (d.name ≡ some (text compiler.lookahead))
      × (parse_inst compiler ≡ done true (parse_found d compiler)))
    ⊎ (parse_inst compiler ≡ fault)
parse_inst-known_example = parse_inst-known compiler

-- The code behind the header of a file.
code_of : List ℕ → List ℕ
unfolding parse_file start_pass parse_item parse_label parse_inst parse_found parse_operand
    operand_value peek_type type_of find_inst advance symfind sympush next next_token next_name
    next_int strtol digits atoi consume_many skip_blank compiler_error consume_until_newline
    consume_while consume peek peek_from is_space is_digit is_alpha is_name_byte desc_pack emit64
    header_bytes emit32 compile_file
code_of bytes = drop 24 (output (compile_file 100 bytes))

-- A label whose line has nothing else: the jump goes to it, at 24 + 10.
jump_test :
    code_of (codes "_start:\n push 5\nl:\n jmp l\n")
    ≡ (1 ∷ 2 ∷ 5 ∷ 0 ∷ 0 ∷ 0 ∷ 0 ∷ 0 ∷ 0 ∷ 0 ∷ 4 ∷ 2 ∷ 34 ∷ 0 ∷ 0 ∷ 0 ∷ 0 ∷ 0 ∷ 0 ∷ 0 ∷ [])
unfolding code_of
jump_test = refl

-- An instruction on the line of a label counts in the second pass alone: the jump goes to 24.
label_line_test :
    code_of (codes "_start: push 5\nl:\n jmp l\n")
    ≡ (1 ∷ 2 ∷ 5 ∷ 0 ∷ 0 ∷ 0 ∷ 0 ∷ 0 ∷ 0 ∷ 0 ∷ 4 ∷ 2 ∷ 24 ∷ 0 ∷ 0 ∷ 0 ∷ 0 ∷ 0 ∷ 0 ∷ 0 ∷ [])
unfolding code_of
label_line_test = refl

-- The second pass at "push 5".
abbrev pushing : Asm
pushing = start_pass (codes "push 5") 2 0 [] []

pushing-Spells : Spells pushing (push (imm 5))
unfolding start_pass next next_token next_name next_int strtol digits atoi consume_many skip_blank
    compiler_error consume_until_newline consume_while consume is_space is_digit is_alpha
    is_name_byte
pushing-Spells = (refl, (refl, tt))

parse_inst-encode_example :
    (b : Asm) × (parse_inst pushing ≡ done true b)
    × (b.out ≡ pushing.out ++ encode (push (imm 5)))
    × (b.virtual_pc ≡ pushing.virtual_pc + inst_size (push (imm 5)))
unfolding start_pass
parse_inst-encode_example = parse_inst-encode pushing (push (imm 5)) refl pushing-Spells
