-- ===== src/Application.antt =====
-- Application services: src/application.
pub mod Coordinator
