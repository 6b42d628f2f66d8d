-- ===== src/Errors.antt =====
-- pkg/errors: the parts of the error-handling framework, one module each.
pub mod CircuitBreaker
pub mod Registry
pub mod Dlq
pub mod Retry
pub mod Classification
pub mod SideOutput
