-- ===== src/Http.antt =====
-- HTTP: the parts of src/http and include/sparenode/http that are modelled.
pub mod Ascii
pub mod Parse
pub mod Body
pub mod Status
pub mod Response
pub mod Router
pub mod Request
