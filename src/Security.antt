-- ===== src/Security.antt =====
-- internal/security: resource policy and access tokens.
pub mod Policy
pub mod Confinement
pub mod Auth
