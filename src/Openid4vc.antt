-- ===== src/Openid4vc.antt =====
-- The protocols of the servers: openid4vc/src.
pub mod Dpop
pub mod Issuer
pub mod PresentationExchange
pub mod Openid4vp
pub mod Verifier
