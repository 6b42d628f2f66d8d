-- ===== src/Cep.antt =====
-- pkg/cep, one module for each part.
pub mod Value
pub mod Pattern
pub mod Match
pub mod Engine
mod Tests
