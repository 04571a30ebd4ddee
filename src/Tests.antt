-- ===== src/Tests.antt =====
-- Runs of the models on small inputs.
mod Console
mod Machine
mod Vm
mod Start
mod Syscalls
mod Optimizer
mod Debugger
mod Assembler
mod Lexer
mod Poclc
mod Jit
mod Pm
