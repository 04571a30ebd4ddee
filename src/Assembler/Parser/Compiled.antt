-- ===== src/Assembler/Parser/Compiled.antt =====
-- posm/compiler.c, pocol_compile_file: the file that it leaves, and the machine that pm makes of it.
use pocol_vm.Prelude.{
  ℕ, ◌+◌, ◌^◌, ◌≤◌, ◌<◌, ◌≡◌, refl, sym, ap, ◌∙◌, true, Option, none, some, List, [], ◌∷◌, ◌++◌,
  arith, length, Bool-cases, Option-cases, inl, inr, ltb, str_eq,
}
use mathlib.Core.Path.{subst}
use pocol_vm.Machine.{Holds, memory_size}
use pocol_vm.State.{Vm, Run, done, exits, fault, on_done}
use pocol_vm.Vm.Load.{
  header_size, pocol_magic, pocol_version, Header, header_bytes, loaded, load_program,
}
use pocol_vm.Vm.Start.{load_program-Accepted}
use pocol_vm.Assembler.Symbol.{SymData, Symbols, symfind}
use pocol_vm.Assembler.Parser.{Asm}
use pocol_vm.Assembler.Parser.Passes.{
  start_pass, start_name, finish, map_finish, first_pass, compile_file,
}
use pocol_vm.Assembler.Parser.Output.{
  Within, parse_file-Within, Wrote, Wrote-item, Wrote-Keeps, Behind, Labelled, Labelled-item,
  Labelled-Keeps,
}

-- The header that stands before the code `a.out`, with the entry point at a label.
abbrev pub header_of : Asm → SymData → Header
header_of a s = record {
  magic = pocol_magic;
  version = pocol_version;
  entry_point = s.pc;
  code_size = length a.out;
}

-- A file that was left behind: its header and its code.
pub record Compiled (file : List ℕ) (a : Asm) : Type 0 where
  pub start : SymData
  pub is_start : symfind a.symbols start_name ≡ some start
  pub content : file ≡ header_bytes (header_of a start) ++ a.out
  pub behind : header_size ≤ start.pc
  pub counted : a.virtual_pc ≡ header_size + length a.out
  pub no_error : a.lexer.total_error ≡ 0

abbrev Good : Option (Run Asm (Option (List ℕ))) → Type 0
Good (some (done (some file) a)) = Compiled file a
Good _ = Unit

symfind-Behind :
    (table : Symbols) (name : List ℕ) (s : SymData)
    → Behind table
    → symfind table name ≡ some s
    → header_size ≤ s.pc
unfolding symfind
symfind-Behind [] name s all e = absurd cc
symfind-Behind (t ∷ ss) name s (h, all) e = elim (Bool-cases (str_eq t.name name)) [
  | inl same ↦ ground (arith, same)
  | inr other ↦ symfind-Behind ss name s all (ground (arith, other))
]

finish-Good :
    (table : Symbols) (a : Asm) → Behind table → Wrote table a → Good (some (finish (done tt a)))
finish-Good table a all w = elim (Option-cases (symfind a.symbols start_name)) [
  | inl absent ↦ simp absent tt
  | inr (s, e) ↦ elim (Bool-cases (ltb 0 a.lexer.total_error)) [
    | inl errors ↦ simp (e, errors) tt
    | inr none_left ↦
        simp (e, none_left)
          (record {
            start = s;
            is_start = e;
            content = refl;
            behind = symfind-Behind a.symbols start_name s (subst Behind (sym w.symbols) all) e;
            counted = w.counted;
            no_error = ground arith;
          })
  ]
]

finish-errors : (a : Asm) → ltb 0 a.lexer.total_error ≡ true → Good (some (finish (done tt a)))
finish-errors a errors = elim (Option-cases (symfind a.symbols start_name)) [
  | inl absent ↦ simp absent tt
  | inr (s, e) ↦ simp (e, errors) tt
]

map_finish-Good :
    (table : Symbols) (o : Option (Run Asm (Unit {0})))
    → Behind table
    → Within (Wrote table) (Wrote-Keeps table) o
    → Good (map_finish o)
map_finish-Good table none all h = tt
map_finish-Good table (some (done u a)) all (on_done w) = finish-Good table a all w
map_finish-Good table (some (exits c a)) all h = tt
map_finish-Good table (some fault) all h = tt

second_starts-Wrote :
    (source : List ℕ) (a : Asm)
    → Labelled a
    → Wrote a.symbols (start_pass source 2 a.lexer.total_error a.symbols a.out)
unfolding start_pass
second_starts-Wrote source a l = record {
  pass = refl;
  symbols = refl;
  counted = omega (arith, ap length l.out);
}

first_pass-Good :
    (fuel : ℕ) (source : List ℕ) (o : Option (Run Asm (Unit {0})))
    → Within Labelled Labelled-Keeps o
    → Good (first_pass fuel source o)
first_pass-Good fuel source none h = tt
first_pass-Good fuel source (some (exits c a)) h = tt
first_pass-Good fuel source (some fault) h = tt
first_pass-Good fuel source (some (done u a)) (on_done l) =
    elim (Bool-cases (ltb 0 a.lexer.total_error)) [
      | inl errors ↦ simp errors (finish-errors a errors)
      | inr fine ↦ simp fine (
          map_finish-Good a.symbols _ l.symbols (
            parse_file-Within (Wrote a.symbols) (Wrote-Keeps a.symbols) (Wrote-item a.symbols) fuel
              _ (second_starts-Wrote source a l)))
    ]

compile_file-Good : (fuel : ℕ) (source : List ℕ) → Good (compile_file fuel source)
unfolding compile_file start_pass
compile_file-Good fuel source = first_pass-Good fuel source _ (
    parse_file-Within Labelled Labelled-Keeps Labelled-item fuel _
      (record { pass = refl; out = refl; virtual_pc = omega arith; symbols = tt }))

-- A file that the assembler leaves is a header before the code: the header has the size of the code,
-- and as its entry point the label _start, which is not in front of the code. The code is as long as
-- the second pass counted, and no error was counted.
pub compile_file-Compiled :
    (fuel : ℕ) (source file : List ℕ) (a : Asm)
    → compile_file fuel source ≡ some (done (some file) a)
    → Compiled file a
compile_file-Compiled fuel source file a e = subst Good e (compile_file-Good fuel source)

-- The loader takes every file that the assembler leaves, if its code fits the memory and its entry
-- point a word. The machine has the code from address 0 on, and its program counter at the address of
-- _start, which counts from the start of the file: at least the header's size too far.
pub compile_file-loaded :
    {W : Type 0} (fuel : ℕ) (source file : List ℕ) (a : Asm) (old : Option (Vm W)) (now : ℕ) (w : W)
    → compile_file fuel source ≡ some (done (some file) a)
    → length a.out ≤ memory_size
    → ((s : SymData) → symfind a.symbols start_name ≡ some s → s.pc < 2 ^ 64)
    → (vm : Vm W) × (start : SymData) × (load_program old now w (some file) ≡ loaded vm)
      × Holds vm.memory 0 a.out
      × (symfind a.symbols start_name ≡ some start)
      × (vm.pc ≡ start.pc)
      × (header_size ≤ vm.pc)
compile_file-loaded fuel source file a old now w e fits word =
    let c = compile_file-Compiled fuel source file a e in
    let (vm, l, holds, zeros, pc, sp, runs) =
      load_program-Accepted old now w (header_of a c.start) a.out
        (record {
          magic = omega arith;
          version = omega arith;
          entry_point = word c.start c.is_start;
          code_size = omega arith;
        })
        (record { magic = refl; version = refl; code_size = fits }) fits in
    (
      vm,
      c.start,
      ap (λ f. load_program old now w (some f)) c.content ∙ l,
      holds,
      c.is_start,
      pc,
      omega (arith, pc, c.behind),
    )
