-- ===== src/Http/Request.antt =====
-- The request parser: src/http/request/http_request_parser.cpp and src/http/request/detail.
pub mod Decimal
pub mod Authority
pub mod Target
pub mod Lines
pub mod Fields
pub mod Head
pub mod Sections
pub mod Extent
pub mod Framing
pub mod Stable
pub mod Fuel
pub mod Message
pub mod Chunks
pub mod Whole
pub mod Pipeline
