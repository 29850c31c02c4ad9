-- ===== src/Tunnel.antt =====
-- packages/tunnel: the encrypted channel between a client and a server in an enclave.
pub mod Crypto
pub mod Message
pub mod Server
pub mod Client
