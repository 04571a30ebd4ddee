-- ===== src/Poclc.antt =====
-- poclc: the compiler of PocolC sources, poclc/poclc.h, poclc/poclc.c and poclc/poclc_main.c.
pub mod Token
pub mod Stream
pub mod Lexer
pub mod Ast
pub mod Parser
pub mod Statement
pub mod Generate
pub mod Main
pub mod Options
