-- ===== src/Script.antt =====
-- lib/script: the interpreter, with its numbers, opcodes and stacks.
pub mod Code
pub mod Result
pub mod Num
pub mod Op
pub mod Stack
pub mod Checks
pub mod Handlers
pub mod Exec
pub mod Bytes
pub mod Verify
mod Tests
