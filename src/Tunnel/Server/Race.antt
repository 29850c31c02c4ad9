-- ===== src/Tunnel/Server/Race.antt =====
-- Two quotes under way at once: `#getQuote` of packages/tunnel/src/server.ts puts its key pair in
-- place before it waits and its quote after.
use teekit.Common.{◌≡◌, refl, some}
use teekit.Bytes.{Bytes}
use teekit.Tunnel.Message.{KxAnnounce}
use teekit.Tunnel.Server.{Server, Keypair}
use teekit.Tunnel.Server.Quote.{
  QuoteData, intel_quote, sev_snp_quote, begin_quote, finish_quote, kx_announce,
}

abbrev pub quote_bytes : QuoteData → Bytes
quote_bytes (intel_quote quote verifier_data runtime_data) = quote
quote_bytes (sev_snp_quote quote certs salt) = quote

-- The server announces the quote with the key.
abbrev pub Announces : Server → Keypair → QuoteData → Type 0
Announces s keys fetched =
    (kx : KxAnnounce) × (kx_announce s ≡ some kx)
    × (kx.quote ≡ quote_bytes fetched)
    × (kx.x25519_public_key ≡ keys.public_key)

-- The quote of an earlier request that arrives while a later one is under way is announced with the
-- key of the later one, and so it stays if the later quote came first.
pub announce-overlapping :
    (first second : Keypair) (fetched_first fetched_second : QuoteData) (s : Server)
    → let pending = begin_quote second (begin_quote first s) in
      Announces (finish_quote fetched_first pending) second fetched_first
      × Announces
          (finish_quote fetched_first (finish_quote fetched_second pending))
          second
          fetched_first
unfolding begin_quote finish_quote kx_announce
announce-overlapping first second (intel_quote a b c) (intel_quote d e f) s =
    ((_, refl, refl, refl), (_, refl, refl, refl))
announce-overlapping first second (intel_quote a b c) (sev_snp_quote d e f) s =
    ((_, refl, refl, refl), (_, refl, refl, refl))
announce-overlapping first second (sev_snp_quote a b c) (intel_quote d e f) s =
    ((_, refl, refl, refl), (_, refl, refl, refl))
announce-overlapping first second (sev_snp_quote a b c) (sev_snp_quote d e f) s =
    ((_, refl, refl, refl), (_, refl, refl, refl))
