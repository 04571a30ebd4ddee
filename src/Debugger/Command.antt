-- ===== src/Debugger/Command.antt =====
-- pm/pm.c, debugger_command and debugger_loop, with debugger_show_state of pm/vm_debugger.c, without
-- what they print. Standard input is the list of what the calls of `fgets` store; behind its end
-- `fgets` returns NULL. The count of x/ is not read; rounding it up overflows an `int` near the largest.
use pocol_vm.Prelude.{
  ℕ, zero, suc, ◌+◌, ◌-◌, ◌*◌, ◌^◌, Bool, true, false, not, ◌&&◌, ◌||◌, Option, none, some, List,
  [], ◌∷◌, ltb, leb, ◌==◌, if◌then◌else◌, str_eq, length, take, drop, wrap32, wrap64,
}
use pocol_vm.Prelude.Text.{codes}
use pocol_vm.Prelude.Int.{pos}
use pocol_vm.Assembler.Lexer.{is_digit, is_space, newline}
use pocol_vm.Machine.{Memory, memory_size}
use pocol_vm.State.{Vm, Run, done, fault, on_option}
use pocol_vm.Debugger.{DebugMode, mode_break, Debugger, add_breakpoint}
use pocol_vm.Debugger.Control.{debugger_continue, step_into, step_over, debugger_stop}

-- `sscanf(s, "%X", &addr)`: blanks, a sign, a prefix, and hexadecimal digits. The upper half of the
-- variable is 0.
unfoldable pub hex_digit : ℕ → Option ℕ
unfolding is_digit
hex_digit c =
    if is_digit c
    then some (c - b'0')
    else if leb b'a' c && leb c b'f'
    then some (c - b'a' + 10)
    else if leb b'A' c && leb c b'F'
    then some (c - b'A' + 10)
    else none

abbrev pub add_digit : Option ℕ → (ℕ → ℕ) → ℕ → ℕ
add_digit none more acc = acc
add_digit (some d) more acc = more (acc * 16 + d)

unfoldable pub hex_digits : List ℕ → ℕ → ℕ
hex_digits [] acc = acc
hex_digits (c ∷ cs) acc = add_digit (hex_digit c) (hex_digits cs) acc

-- The prefix "0x" or "0X".
unfoldable pub skip_prefix : List ℕ → List ℕ
skip_prefix (z ∷ x ∷ cs) = if (z == b'0') && ((x == b'x') || (x == b'X')) then cs else z ∷ x ∷ cs
skip_prefix cs = cs

abbrev pub hex_value : List ℕ → ℕ
hex_value cs = hex_digits (skip_prefix cs) 0

-- strtoul stops at 2 ^ 64 - 1 and takes the sign modulo 2 ^ 64; an `unsigned int` keeps 32 bits.
abbrev pub unsigned_value : ℕ → ℕ
unsigned_value n = if ltb n (2 ^ 64) then wrap32 n else 2 ^ 32 - 1

abbrev pub negated_value : ℕ → ℕ
negated_value n = if ltb n (2 ^ 64) then wrap32 (2 ^ 64 - n) else 2 ^ 32 - 1

-- Without a digit the variable keeps what it holds.
abbrev pub converted : ℕ → (ℕ → ℕ) → List ℕ → ℕ
converted old value [] = old
converted old value (c ∷ cs) = on_option (hex_digit c) old (λ _. value (hex_value (c ∷ cs)))

unfoldable pub scan_hex : (old : ℕ) → List ℕ → ℕ
scan_hex old [] = old
scan_hex old (c ∷ cs) =
    let rest = scan_hex old cs in
    if is_space c
    then rest
    else if c == b'-'
    then converted old negated_value cs
    else if c == b'+'
    then converted old unsigned_value cs
    else converted old unsigned_value (c ∷ cs)

-- Whether a command is one of two names.
abbrev pub is_command : List ℕ → (short long : List ℕ) → Bool
is_command cmd short long = str_eq cmd short || str_eq cmd long

abbrev pub starts_with : (prefix : List ℕ) → List ℕ → Bool
starts_with prefix s = str_eq (take (length prefix) s) prefix

-- The other commands only print.
unfoldable pub debugger_command : Debugger → List ℕ → Debugger
debugger_command d cmd =
    if is_command cmd (codes "r") (codes "run")
    then debugger_continue d
    else if is_command cmd (codes "c") (codes "continue")
    then debugger_continue d
    else if is_command cmd (codes "s") (codes "step")
    then step_into d (pos 1)
    else if is_command cmd (codes "n") (codes "next")
    then step_over d (pos 1)
    else if starts_with (codes "break ") cmd
    then (add_breakpoint d (scan_hex 0 (drop 6 cmd))).1
    else if is_command cmd (codes "q") (codes "quit")
    then debugger_stop d
    else d

-- The C string that `fgets` stored.
unfoldable pub c_string : List ℕ → List ℕ
c_string [] = []
c_string (c ∷ cs) = let rest = c_string cs in if c == 0 then [] else c ∷ rest

-- A newline at the end is removed.
unfoldable pub strip : List ℕ → List ℕ
strip [] = []
strip (c ∷ []) = if c == newline then [] else c ∷ []
strip (c ∷ d ∷ cs) = c ∷ strip (d ∷ cs)

abbrev pub line_command : List ℕ → List ℕ
line_command line = strip (c_string line)

unfoldable pub on_line : List (List ℕ) → Debugger → Debugger
on_line [] d = d
on_line (line ∷ lines) d =
    if length (line_command line) == 0 then d else debugger_command d (line_command line)

abbrev pub is_break : DebugMode → Bool
is_break mode_break = true
is_break _ = false

-- `if (ctx->mode != DEBUG_MODE_BREAK) debugger_continue(ctx);`
unfoldable pub resume : Debugger → Debugger
resume d = if is_break d.mode then d else debugger_continue d

-- COUNT_INST, and the length of `inst_mnemonics`
abbrev pub count_inst : ℕ
count_inst = 7

-- `info->type` of `debugger_disasm_instruction`; `none` where it leaves `info` as it was.
unfoldable pub disasm_instruction : Memory → (addr : ℕ) → Option ℕ
disasm_instruction m addr =
    if leb memory_size addr
    then none
    else some (if leb count_inst (m addr) then count_inst else m addr)

-- `inst_mnemonics[info.type]` is in the table.
abbrev pub has_mnemonic : Option ℕ → Bool
has_mnemonic none = false
has_mnemonic (some type) = ltb type count_inst

-- `debugger_show_disasm`: whether each of the instructions that it shows has a mnemonic.
unfoldable pub show_disasm : Memory → (addr count : ℕ) → Bool
unfolding disasm_instruction
show_disasm m addr zero = true
show_disasm m addr (suc n) =
    has_mnemonic (disasm_instruction m addr) && show_disasm m (wrap64 (addr + 2)) n

module _ {W : Type 0} where
  -- `debugger_show_state`, with the display flags that `debugger_init` sets and nothing clears: whether
  -- it comes to its end.
  unfoldable pub show_state : Vm W → Debugger → Bool
  show_state vm d = not d.initialized || show_disasm vm.memory vm.pc 5

  -- The loop; nothing in it changes the machine. `none` when the fuel runs out. A mnemonic read past
  -- the end of the table, or with a type that was never set, is a fault.
  unfoldable pub debugger_loop :
      ℕ → Vm W → List (List ℕ) → Debugger → Option (Run Debugger (Unit {0}))
  unfolding show_state
  debugger_loop zero vm lines d = none
  debugger_loop (suc f) vm lines d =
      let next = debugger_loop f vm (drop 1 lines) (resume (on_line lines d)) in
      if d.running && not vm.halt
      then (if show_state vm d then next else some fault)
      else some (done tt d)
