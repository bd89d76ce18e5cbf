-- ===== src/Text.antt =====
-- src/foundation/text and the text writers that stand on it.
pub mod Utf8
pub mod IpAddress
