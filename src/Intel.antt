-- ===== src/Intel.antt =====
-- What packages/qvl/src/verifyTdx.ts and verifySgx.ts do alike: the configuration, the certificate
-- chain with its fallback, the pinned roots, and the signatures inside a quote's signature section.
pub mod Defs
pub mod Laws
