-- ===== src/Types.antt =====
-- core/types: what kind of endpoint an address names.
pub mod Discovery
pub mod Endpoints
pub mod Identity
pub mod Infer
pub mod Server
mod Tests
