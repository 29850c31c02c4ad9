-- ===== src/Sev.antt =====
-- The SEV-SNP part of packages/qvl/src: structsSev.ts, parseSev.ts and verifySev.ts.
pub mod Body
pub mod Report
pub mod Chain
pub mod Config
pub mod Verify
pub mod Trust
pub mod Laws
pub mod Accept
pub mod Pinning
pub mod Component
pub mod RoundTrip
