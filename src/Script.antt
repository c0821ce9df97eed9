-- ===== src/Script.antt =====
-- blockdata/script.rs. A script is its bytes, `Script(Box<[u8]>)`.
pub mod Instructions
pub mod Builder
pub mod Pushes
pub mod Minimal
pub mod Programs
pub mod Numbers
pub mod Templates
