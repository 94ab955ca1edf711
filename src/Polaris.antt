-- ===== src/Polaris.antt =====
-- The proxy that adds tokens to requests to Polaris (manifests/polaris-auth-proxy).
pub mod Tokens
pub mod Headers
