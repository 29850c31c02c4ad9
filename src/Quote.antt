-- ===== src/Quote.antt =====
-- SGX and TDX quotes: the struct layouts and signature sections of packages/qvl/src/structs.ts and
-- the parsers of packages/qvl/src/parse.ts.
pub mod Header
pub mod SgxBody
pub mod TdxBody
pub mod Region
pub mod Signature
pub mod Parse
pub mod Layout
pub mod RoundTrip
pub mod RoundTripV5
pub mod Signed
