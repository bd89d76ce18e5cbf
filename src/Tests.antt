-- ===== src/Tests.antt =====
-- Concrete runs: the theorems applied to small inputs.
mod Session
mod Text
mod Body
mod Configuration
mod Request
mod Router
mod Coordinator
mod Dispatcher
