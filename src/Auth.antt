-- ===== src/Auth.antt =====
-- core/auth: what a request carries to say who asks and for which server.
pub mod Bearer
pub mod Context
pub mod Crypto
pub mod Decryptor
pub mod Sample
pub mod Token
mod Tests
