-- ===== src/Lib.antt =====
-- PocolVM: a model of the virtual machine, its bytecode optimiser, its just-in-time compiler, its
-- debugger, its system calls, its assembler and its PocolC compiler, with proofs.
--
-- The program. posm translates an assembly source to a program file: a header of 24 bytes and the
-- code. pm loads such a file into a machine with 640000 bytes of memory, a stack of 1024 words and
-- eight registers, and runs it. A SYS instruction calls the system call layer, which keeps a table of
-- files over the host's. The optimiser rewrites the bytecode in the machine's memory before a run
-- with the JIT, which compiles blocks of it to x86-64 code and keeps them in a cache. The debugger keeps
-- breakpoints and decides where a run stops. poclc compiles PocolC sources, without posm, to files of
-- its own form.
--
-- Where what is modelled.
--   Prelude        the library names and the lemmas that the parts share: Boolean tests, lists, words
--                  of 8, 32 and 64 bits, integers, texts.
--   Machine        pm/vm.h, posm/emit.h: sizes, DESC_PACK, emit64. Machine/Codec has the round trips
--                  of descriptors and words, Machine/Stores the lemmas on writes.
--   Host           the C library under the program, as an interface: fread, fwrite, fopen, fclose,
--                  fseek, ftell, errno, time, nanosleep, chdir, getcwd, mkdir, system. Every
--                  definition that calls them takes it as a parameter; IsHost is what is promised.
--   State          pm/vm.h, pm/vm_syscalls.h: Err, PocolVM, SysCallContext, VFS, VFile. A run of code
--                  ends with a value, by exit, or with a fault: an access outside an object, to
--                  freed memory or through NULL.
--   Vfs            pm/vm_syscalls.c: vfs_init, vfs_find_free_slot, vfs_find_file; Vfs/Files has the
--                  other vfs_ functions, Vfs/Dangling what a failed open leaves.
--   Syscalls       pm/vm_syscalls.c: Context has syscalls_init and the guards, Handlers sys_exit to
--                  sys_system, Dispatch syscalls_exec. Keeps, Frame and Framed are about what they
--                  change of the machine, Ranges about their test on buffers.
--   Vm             pm/vm.c: NEXT, pocol_fetch64, pocol_fetch_operand, pocol_execute_inst. Decimal is
--                  the text that PRINT writes, Isa the instruction set apart from its bytes, Decode
--                  and Refine relate the two; Loop is the interpreter's loop, Load and Start
--                  pocol_load_program_into_vm, Invariant and Safe the machine's invariant.
--   Optimizer      pm/optimizer.c: read_instruction, write_instruction, the three passes and
--                  pocol_optimize_bytecode. Fold is about constant folding, Writes and Diverge about
--                  the other two passes, Levels about the levels.
--   Jit            pm/jit.h, pm/jit.c: the cache and pocol_jit_compile_block. Emit has the emitted
--                  instructions as bytes, Compile compile_instruction, Execute the run of blocks and
--                  pocol_execute_program_jit of pm/vm.c; the processor and the addresses that the
--                  code contains are parameters. Bounds, Cache, Lookup, Stuck and Program are proofs.
--   Poclc          poclc/poclc.h, poclc/poclc.c, poclc/poclc_main.c: Token (tokens and context),
--                  Stream (the file and its blanks), Lexer (next_token), Ast, Parser (expressions),
--                  Statement (statements, functions, the program), Generate (generate_code), Main
--                  (from the open files to the exit). Parser and Statement take any next_token.
--                  Lexer/Progress, Types and Names are about tokens, Generate/Code, Effect and Runs
--                  about the code of an expression, Main/Ends, Words and Refused about whole sources.
--                  Options is poclc_main.c from its arguments on, Options/Usage about its usage.
--   Debugger       pm/vm_debugger.h, pm/vm_debugger.c: breakpoints and watchpoints; Control has the
--                  modes and debugger_should_stop, Saved the saved states, Command the commands and
--                  the loop of pm/pm.c, with what its disassembly reads; Break, Reach,
--                  Stops and Quit are proofs.
--   Assembler      posm/symbol.c (Symbol), posm/lexer.c (Lexer), posm/compiler.c (Parser: parse_inst;
--                  Parser/Passes: pocol_parse_file and pocol_compile_file). Of the rest,
--                  Symbol/Table is about the table as a map, Lexer/Progress, Lexer/Errors and
--                  Lexer/Numbers about tokens, Parser/Operand, Parser/Encode and Parser/Spelled about
--                  the bytes of an instruction, Parser/Emit, Parser/Output and Parser/Compiled about
--                  the file that is left, Parser/Total about the end of the passes, and
--                  Parser/Known about mnemonics.
--   Pm             pm/pm.c, main: its arguments and its calls of the loader, the debugger, the JIT and
--                  the interpreter; Pm/Crash is about refused files.
--   Tests          runs on small inputs, on a host that collects standard output.
--
-- State and numbers. A machine is a record with the fields of PocolVM and the world that the host's
-- calls act on; memory, stack and registers are functions from an index, and each access writes out
-- the bound of the array. Numbers are natural numbers; uint64_t arithmetic keeps its wrap-around, an
-- int64_t or int is its two's complement pattern. Allocation succeeds.
--
-- Fuel. The interpreter's loop, the passes of the optimiser and the assembler's loop run on fuel and
-- give none without it. The loop with a limit of n has n + 1; constant folding ends with more fuel
-- than bytes of memory from where it starts; the assembler ends with the length of the source and 2
-- more; the other two passes of the optimiser go on from the address that they read at, so that the
-- size of memory bounds no number of rounds, and they are stated for every fuel.
-- The JIT's loop over a block ends with fuel above the bytes of memory from its start. The loops of the
-- PocolC lexer have two rounds more than bytes are left, and its compiler three more than the source has
-- bytes.
-- POCOL_MAGIC_SIZE, where the passes start, is defined nowhere in the repository: it is an argument.
--
-- Not modelled: what the x86-64 code of the JIT does, and its statistics; the output of the debugger,
-- beyond the reads of the disassembly that its loop shows; messages and the release of memory; the main
-- of posm, the benchmark and the test framework.
-- In pm/vm.c, pocol_execute_program is declared and not defined; Vm/Loop models the loop that stands
-- behind the two returns of pocol_execute_program_jit.
pub mod Prelude
pub mod Machine
pub mod Host
pub mod State
pub mod Vfs
pub mod Syscalls
pub mod Vm
pub mod Optimizer
pub mod Jit
pub mod Poclc
pub mod Debugger
pub mod Assembler
pub mod Pm
pub mod Tests
