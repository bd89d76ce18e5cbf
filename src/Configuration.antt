-- ===== src/Configuration.antt =====
-- The configuration language: src/configuration.
pub mod Syntax
pub mod Lexer
pub mod Tokens
pub mod Consumption
pub mod Parser
pub mod Reading
pub mod Answers
pub mod Typing
pub mod Written
pub mod Locations
pub mod Typed
pub mod Progress
pub mod Rounds
