-- ===== src/Tunnel/Server/Quote.antt =====
-- `#getQuote`, `#sendServerKx` and the two ways in which a control connection is opened, of
-- packages/tunnel/src/server.ts. A quote arrives some time after it was asked for.
use teekit.Common.{ℕ, true, Option, none, some, if◌then◌else◌}
use teekit.Bytes.{Bytes}
use teekit.Dict.{number_key, set, add}
use teekit.Tunnel.Message.{VerifierNonce, intel, plain, SevSnpData, KxAnnounce, server_kx}
use teekit.Tunnel.Server.{Server, Keypair, sent, control_closed, Runtime}
use teekit.Tunnel.Server.Send.{emit}
use teekit.Tunnel.Server.Request.{is_blank}

-- `IntelQuoteData | SevSnpQuoteData`
pub data QuoteData : Type 0 where
  intel_quote :
      (quote : Bytes)
      → (verifier_data : Option VerifierNonce) → (runtime_data : Option Bytes) → QuoteData
  sev_snp_quote : (quote : Bytes) → SevSnpData → (nonce : Option Bytes) → QuoteData

-- Before the wait: the new key pair is in place at once.
unfoldable pub begin_quote : Keypair → Server → Server
begin_quote keys s = record s { keypair = some keys }

-- After the wait.
unfoldable pub finish_quote : QuoteData → Server → Server
finish_quote (intel_quote quote verifier_data runtime_data) s = record s {
  quote = some quote;
  verifier_data = elim verifier_data [ none ↦ none | some nonce ↦ some (intel nonce) ];
  runtime_data = runtime_data;
  sev_snp_data = none;
  key_ready = true;
}
finish_quote (sev_snp_quote quote certs nonce) s = record s {
  quote = some quote;
  verifier_data = elim nonce [ none ↦ none | some bytes ↦ some (plain bytes) ];
  runtime_data = none;
  sev_snp_data = some certs;
  key_ready = true;
}

-- `this.vcekCert ? { … } : null`
unfoldable pub present_certs : Option SevSnpData → Option SevSnpData
present_certs none = none
present_certs (some certs) = if is_blank certs.vcek_cert then none else some certs

-- The announcement, if key pair and quote are set.
unfoldable pub kx_announce : Server → Option KxAnnounce
unfolding present_certs
kx_announce s = elim s.keypair [
  | none ↦ none
  | some keys ↦ elim s.quote [
    | none ↦ none
    | some quote ↦ some (record {
      x25519_public_key = keys.public_key;
      quote = quote;
      runtime_data = s.runtime_data;
      verifier_data = s.verifier_data;
      sev_snp_data = present_certs s.sev_snp_data;
    })
  ]
]

module _ (rt : Runtime) where
  -- The end of `#sendServerKx`; where it throws, its caller closes the socket.
  unfoldable pub announce : ℕ → Server → Server
  announce control_ws s = elim (kx_announce s) [
    | none ↦ emit (control_closed control_ws 1011) s
    | some message ↦ emit (sent control_ws (rt.cbor.encode (server_kx message))) s
  ]

  -- `keys` is the pair that `#getQuote` generates if it is called.
  unfoldable pub send_server_kx : ℕ → Keypair → Server → Server
  unfolding announce begin_quote
  send_server_kx control_ws keys s =
      if s.key_ready then announce control_ws s else begin_quote keys s

  -- The quote that a socket waits for has arrived, or could not be fetched.
  unfoldable pub quote_settled : ℕ → Option QuoteData → Server → Server
  unfolding announce finish_quote
  quote_settled control_ws none s = announce control_ws (emit (control_closed control_ws 1011) s)
  quote_settled control_ws (some fetched) s = announce control_ws (finish_quote fetched s)

  unfoldable pub on_hono_open : (control_ws env extra_context : ℕ) → Keypair → Server → Server
  unfolding send_server_kx
  on_hono_open control_ws env extra_context keys s = send_server_kx control_ws keys (record s {
    control_clients = add control_ws s.control_clients;
    envs = set control_ws env s.envs;
    extra_contexts = set control_ws extra_context s.extra_contexts;
  })

  unfoldable pub on_express_control_connection : ℕ → Keypair → Server → Server
  unfolding send_server_kx
  on_express_control_connection control_ws keys s = send_server_kx control_ws keys (record s {
    control_clients = add control_ws s.control_clients;
    liveness = set control_ws (record { is_alive = true; last_activity_ms = s.now }) s.liveness;
  })
