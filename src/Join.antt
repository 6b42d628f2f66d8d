-- ===== src/Join.antt =====
-- pkg/join, one module for each part; types.go is in Config.
pub mod Config
pub mod State
pub mod Operator
pub mod Temporal
pub mod Interval
pub mod Window
mod Tests
