-- ===== src/Tests.antt =====
-- The theorems at concrete inputs, with stand-ins for the packages that compute.
mod Packages
mod Codec
mod MessageCodec
mod TunnelRun
mod TunnelWitnesses
mod ClientWitnesses
mod Quotes
mod TdxRun
mod SgxRun
mod SevRun
mod QuoteWitnesses
mod VerifierWitnesses
mod ListWitnesses
mod PolicyWitnesses
