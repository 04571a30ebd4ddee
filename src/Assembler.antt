-- ===== src/Assembler.antt =====
-- posm: the assembler, from the symbol table to the two passes.
pub mod Symbol
pub mod Lexer
pub mod Parser
