-- ===== src/Conf.antt =====
-- src/regexplib.c.
pub mod Lexer
pub mod Reader
pub mod Progress
pub mod Bounds
pub mod Total
pub mod Match
pub mod Template
pub mod Lookup
mod Tests
