-- ===== src/Window.antt =====
-- pkg/window/window.go, one module for each of its three parts.
pub mod Assign
pub mod Trigger
pub mod Operator
mod Tests
