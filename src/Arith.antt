-- ===== src/Arith.antt =====
-- crates/epsh/src/arith.rs: `$((expr))`, parsed and evaluated in one pass.
pub mod Token
pub mod Eval
mod Tests
