-- ===== src/Lib.antt =====
-- Two parts of TEEKit. The quote verification library, packages/qvl, decides whether the other end of a
-- channel is a trusted execution environment: quotes of Intel TDX and SGX and reports of AMD SEV-SNP
-- are parsed, their certificate chains are checked up to pinned roots, and their signatures are
-- verified. The tunnel, packages/tunnel, is that channel: over one WebSocket between a client and a
-- server, keys are exchanged and HTTP requests and WebSockets are carried in encrypted messages.
--
-- How the parts interact. A verifier parses the quote (Quote, Sev.Report), finds the certificates in
-- it (Pem), builds and checks their chain (Chain) against revocation lists (Crl, Serial), compares the
-- chain's root with the pinned ones, verifies the signatures inside the quote (Intel, Tdx, Sgx; Sev
-- for reports) and ends with the caller's TCB callback and expected measurements (Measurements).
--
-- The tunnel's server (Tunnel.Server) announces its public key with a quote (Tunnel.Server.Quote), takes
-- the symmetric key that a client seals for it (Tunnel.Crypto), and from then on decrypts what comes over
-- that control socket and dispatches it (Tunnel.Server.Handle): a request goes to the application, a
-- connection becomes a mock WebSocket that the application holds (Tunnel.Server.Mock). A lost control
-- socket is forgotten with all it had (Tunnel.Server.Close), and a heartbeat looks for silent ones
-- (Tunnel.Server.Sweep).
--
-- The tunnel's client (Tunnel.Client) opens a control socket, attests the server by its announcement with
-- the verifiers above (Tunnel.Client.Attest), and seals a fresh symmetric key for the announced one. Then
-- it sends requests (Tunnel.Client.Request) and the messages of its own mock WebSockets
-- (Tunnel.Client.Socket) in envelopes (Tunnel.Client.Send), and dispatches what comes back
-- (Tunnel.Client.Handle).
--
-- The files and the code they model, by paths from the repository's root:
--   Struct, Bytes: `r.Struct` as packages/qvl/src/structs.ts and structsSev.ts use it, little-endian
--     reads
--   Quote: structs.ts and parse.ts (parseTdxQuote, parseSgxQuote, the signed regions);
--     Quote.Layout writes quotes the other way round, as the reference for the parsers
--   Pem, Serial, Crl: packages/qvl/src/utils.ts (extractPemCertificates, normalizeSerialHex,
--     parseCrlRevokedSerials)
--   Chain: verifyPCKChain of packages/qvl/src/verifyTdx.ts
--   Intel: what verifyTdx.ts and verifySgx.ts do alike
--   Tdx, Sgx: the rest of verifyTdx.ts and verifySgx.ts (verifyTdx, verifySgx)
--   Sev: structsSev.ts, parseSev.ts and verifySev.ts
--   Tcb: packages/qvl/src/tcb.ts
--   Identity: packages/qvl/src/verifyQeIdentity.ts
--   Ecdsa: encodeEcdsaSignatureToDer of utils.ts
--   Userdata: getExpectedReportDataFromUserdata and isUserdataBound of utils.ts
--   Measurements: the measurement configurations of all three verifiers
--   Tunnel.Crypto: packages/tunnel/src/crypto.ts
--   Tunnel.Message: packages/tunnel/src/types.ts
--   Tunnel.Server: the state of TunnelServer of packages/tunnel/src/server.ts; its children Send, Mock
--     (ServerRAWebSocket.ts), Request (with utils/server.ts), Quote, Handle (with typeguards.ts), Close and
--     Sweep its operations, Step the events; the other children hold lemmas and theorems
--   Tunnel.Client: the state of TunnelClient of packages/tunnel/src/client.ts; its children Binding (the
--     methods that check a key's binding), Attest (the checks of the server_kx branch of onmessage),
--     Exchange (that branch itself, cut at its waits), Send, Socket (ClientRAWebSocket.ts, with
--     getOriginPort of utils/client.ts), Platform (what Headers and Response make of a response), Handle,
--     Request (fetch) and Step are the code, the others what holds of it
--   Dict: `Map` and `Set` of JavaScript, by their laws
--   Result: the errors, one constructor for each message that is thrown
--   Packages, and TcbService in Tcb: restructure, @scure/base, WebCrypto, pkijs and the certificate
--     getters, fetch and Date.parse, as parameters with the documented laws that are used
--   Tests: the theorems at concrete quotes, with stand-ins for the packages that compute
--
-- Conventions. A function that may throw returns a `Result`; `await` is left out within
-- the verifiers, which run one after the other and share no state. A byte array is a list of numbers, and
-- the whole of its buffer. A certificate is what the getters of QV_X509Certificate return, with a handle
-- for the object's identity. A JavaScript string is the list of its code units. Times are milliseconds
-- after the epoch.
--
-- The tunnel's server is a state and functions on it, one for each handler, and `step` is one event: a
-- message, a quote that arrives, a lost socket, a sweep, a call or an answer of the application. What it
-- does to the outside is the list of effects of the event. A function that waits is cut at the wait, so
-- that other events come between; what an application's listener does when it is called is an event of
-- its own, after the one that called it. Sockets are numbers, maps are association lists in the order of
-- insertion, random values and times come from outside. The tunnel's client is modelled in the same
-- way. A handler of a server_kx waits for the verifiers, then for the callback and the measurements, then
-- for the binding check; each of the three ends by an event of its own, and what the handler reads from
-- the client's fields afterwards may be another handler's. A callback reads the client's fields when it
-- is called. `key_holder` is not in the code: it is the handler that has set the keys last.
--
-- Bounds and fuel. The two loops of the code that follow offsets or links of the input run on fuel, and
-- `stuck` is the result that has not come within it. The walk up the issuers (Chain.Walk) has one step
-- more than there are certificates, for a walk that visits none twice; the loop over a revocation list
-- (Crl) has one more than there are bytes, for entries that take at least one each. Chain.Termination and
-- Crl.Termination are about this fuel. The lengths of DER values wrap around at 32 bits, as the code's do.
--
-- What is not modelled: the decoding of certificates and their cryptography (packages), the text of the
-- built-in root certificates, displays and re-exports; of the tunnel the setting up of http, ws and Hono
-- servers, the parsing of request bodies for Express, the service worker; and the other packages (kettle,
-- images, demo). A decoded message of the tunnel has the fields that its type declares.
pub mod Common
pub mod Dict
pub mod Result
pub mod Bytes
pub mod Struct
pub mod Packages
pub mod Quote
pub mod Pem
pub mod Serial
pub mod Crl
pub mod Measurements
pub mod Chain
pub mod Intel
pub mod Tdx
pub mod Sgx
pub mod Sev
pub mod Tcb
pub mod Userdata
pub mod Ecdsa
pub mod Identity
pub mod Tunnel
pub mod Tests
