-- ===== src/Assembler.antt =====
-- assembler/: from source text to an executable.
pub mod Report
pub mod Lexeme
pub mod Token
pub mod Lexer
pub mod Parser
pub mod Output
pub mod Encoder
pub mod Assemble
