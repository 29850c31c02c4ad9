-- ===== src/Tunnel/Server/Keep.antt =====
-- Every handler of `TunnelServer` but the one for a lost socket keeps the invariant of the maps
-- (packages/tunnel/src/server.ts).
use teekit.Common.{
  ℕ, ◌<◌, ◌≡◌, ◌≢◌, refl, sym, ap, ◌∙◌, arith, Option, some, List, Text, Bool-cases, Option-cases,
  false_is_true, list_eq_refl, inl, inr, ==_iff, ◌==◌,
}
use teekit.Bytes.{Bytes}
use teekit.Dict.{number_key, text_key, get, set, add, remove}
use teekit.Dict.Laws.{get-set, get-set_self, get-set_ne, member-add, member-remove, same_refl}
use teekit.Dict.Keys.{set-IsUnique, delete-IsUnique}
use teekit.Dict.Entries.{All-get, All-set, All-delete, All-imp}
use teekit.Tunnel.Message.{
  Message, HttpRequest, Content, http_request, ws_connect, ws_close, ws_message,
}
use teekit.Tunnel.Server.{Server, Connection, MockWebSocket, Keypair, Runtime, open_state, closing}
use teekit.Tunnel.Server.Mock.{
  set_ready_state, emit_close, emit_message, mock_send, mock_close, closing_event,
}
use teekit.Tunnel.Server.Send.{touch, try_send}
use teekit.Tunnel.Server.Rules.{if_keeps, option_keeps, receive_rule, handle_rule}
use teekit.Tunnel.Server.Request.{handle_tunnel_http_request}
use teekit.Tunnel.Server.Handle
use teekit.Tunnel.Server.Frame.{try_send-SameCore, touch-SameCore}
use teekit.Tunnel.Server.Tracked.{
  Mocks, Owned, IsFresh, IsTracked, IsTracked-same, IsTracked-mocks, emit_close-SameButMocks,
  set_ready_state-IsTracked,
}

module _ (rt : Runtime) where
  pub try_send-IsTracked :
      (control_ws : ℕ) (payload : Message) (s : Server)
      → IsTracked s
      → IsTracked (try_send rt control_ws payload s)
  try_send-IsTracked control_ws payload s =
      IsTracked-same s (try_send rt control_ws payload s)
        (try_send-SameCore rt control_ws payload s)

  -- A new mock socket does not disturb those that are there.
  Owned-grow :
      (mocks : Mocks) (clients : List ℕ) (next : ℕ) (m : MockWebSocket)
      → IsFresh mocks next
      → (e : Text × Connection) → Owned mocks clients e
      → Owned (set next m mocks) (add next clients) e
  Owned-grow mocks clients next m fresh e (o, found, id, ws, known) =
      let earlier : e.1.mock_ws < next = fresh e.1.mock_ws o found in
      (
        o,
        get-set_ne e.1.mock_ws next m mocks (λ h. omega arith) ∙ found,
        id,
        ws,
        rw (member-add e.1.mock_ws next clients, known) (ground arith),
      )

  track_connection-IsTracked :
      (control_ws : ℕ) (connection_id : Text) (s : Server)
      → IsTracked s
      → IsTracked (Handle.track_connection control_ws connection_id s)
  unfolding Handle.track_connection
  track_connection-IsTracked control_ws connection_id s w =
      let m : MockWebSocket = record {
        ready_state = open_state;
        connection_id = connection_id;
        control_ws = control_ws;
        extra_context = get control_ws s.extra_contexts;
      } in
      let c : Connection = record { mock_ws = s.next_mock; control_ws = control_ws } in
      record {
        unique = set-IsUnique connection_id c s.sockets w.unique;
        owned =
            All-set (Owned (set s.next_mock m s.mocks) (add s.next_mock s.wss_clients))
              connection_id c s.sockets
              (All-imp (Owned s.mocks s.wss_clients)
                (Owned (set s.next_mock m s.mocks) (add s.next_mock s.wss_clients)) s.sockets
                (Owned-grow s.mocks s.wss_clients s.next_mock m w.fresh) w.owned)
              (
                m,
                get-set_self s.next_mock m s.mocks,
                refl,
                refl,
                rw (member-add s.next_mock s.next_mock s.wss_clients, same_refl s.next_mock),
              );
        fresh = λ x n e. ground (arith, get-set x s.next_mock m s.mocks, w.fresh x n);
        ready = w.ready;
      }

  connect-IsTracked :
      (control_ws : ℕ) (connection_id : Text) (s : Server)
      → IsTracked s
      → IsTracked (Handle.handle_tunnel_web_socket_connect rt control_ws connection_id s)
  unfolding Handle.handle_tunnel_web_socket_connect
  connect-IsTracked control_ws connection_id s w =
      if_keeps IsTracked _ _ _ (try_send-IsTracked control_ws _ s w) (
        try_send-IsTracked control_ws _ (Handle.track_connection control_ws connection_id s)
          (track_connection-IsTracked control_ws connection_id s w))

  -- A connection's mock socket is no other's.
  Owned-remove :
      (mocks : Mocks) (clients : List ℕ) (id : Text) (c : Connection) (e : Text × Connection)
      → Owned mocks clients (id, c)
      → e.0 ≢ id
      → Owned mocks clients e
      → Owned mocks (remove c.mock_ws clients) e
  Owned-remove mocks clients id c e (o, found, ids, ws, known) differ
        (o', found', ids', ws', known') =
      (
        o',
        found',
        ids',
        ws',
        elim (Bool-cases (c.mock_ws == e.1.mock_ws)) [
          | inl same ↦
              let place : c.mock_ws ≡ e.1.mock_ws = (==_iff c.mock_ws e.1.mock_ws).0 same in
              let one : o ≡ o' = ground (arith, ap (λ (i : ℕ). get i mocks) place) in
              absurd
                (differ (sym ids' ∙ (sym (ap (λ (m : MockWebSocket). m.connection_id) one) ∙ ids)))
          | inr apart ↦ rw (member-remove e.1.mock_ws c.mock_ws clients, apart) known'
        ],
      )

  close-IsTracked :
      (connection_id : Text) (code : Option ℕ) (reason : Option Text) (s : Server)
      → IsTracked s
      → IsTracked (Handle.handle_tunnel_web_socket_close connection_id code reason s)
  unfolding Handle.handle_tunnel_web_socket_close
  close-IsTracked connection_id code reason s w =
      elim (Option-cases (get connection_id s.sockets)) [
        | inl missing ↦ rw (missing, Handle.handle_tunnel_web_socket_close) w
        | inr (c, found) ↦
            let told = emit_close c.mock_ws code reason s in
            let v : IsTracked told =
              IsTracked-mocks s told (emit_close-SameButMocks c.mock_ws code reason s) w in
            let there : get connection_id told.sockets ≡ some c =
              rw ((emit_close-SameButMocks c.mock_ws code reason s).0) found in
            let mine =
              All-get (Owned told.mocks told.wss_clients) connection_id told.sockets v.owned
                there in
            rw (found, Handle.handle_tunnel_web_socket_close)
              (record {
                unique = delete-IsUnique connection_id told.sockets v.unique;
                owned =
                    All-delete (Owned told.mocks told.wss_clients)
                      (Owned told.mocks (remove c.mock_ws told.wss_clients)) connection_id
                      told.sockets
                      (λ e apart.
                        Owned-remove told.mocks told.wss_clients connection_id c e mine
                          (λ h. false_is_true apart (rw h (list_eq_refl connection_id))))
                      v.owned;
                fresh = v.fresh;
                ready = v.ready;
              })
      ]

  message-IsTracked :
      (connection_id : Text) (content : Content) (s : Server)
      → IsTracked s
      → IsTracked (Handle.handle_tunnel_web_socket_message connection_id content s)
  unfolding Handle.handle_tunnel_web_socket_message emit_message
  message-IsTracked connection_id content s =
      IsTracked-same s (Handle.handle_tunnel_web_socket_message connection_id content s)
        (ground arith)

  request-IsTracked :
      (control_ws : ℕ) (r : HttpRequest) (s : Server)
      → IsTracked s
      → IsTracked (handle_tunnel_http_request rt control_ws r s)
  unfolding handle_tunnel_http_request
  request-IsTracked control_ws r s w = elim (Option-cases (rt.parse_url r.url)) [
    | inl bad ↦ rw (bad, handle_tunnel_http_request) (try_send-IsTracked control_ws _ s w)
    | inr (url, good) ↦
        rw (good, handle_tunnel_http_request)
          (record { unique = w.unique; owned = w.owned; fresh = w.fresh; ready = w.ready })
  ]

  dispatch-IsTracked :
      (control_ws : ℕ) (message : Message) (s : Server)
      → IsTracked s
      → IsTracked (Handle.dispatch rt control_ws message s)
  unfolding Handle.dispatch
  dispatch-IsTracked control_ws (http_request r) s w = request-IsTracked control_ws r s w
  dispatch-IsTracked control_ws (ws_connect id url protocols) s w =
      connect-IsTracked control_ws id s w
  dispatch-IsTracked control_ws (ws_message id content data_type) s w =
      message-IsTracked id content s w
  dispatch-IsTracked control_ws (ws_close id code reason) s w = close-IsTracked id code reason s w
  dispatch-IsTracked control_ws _ s w = w

  receive-IsTracked :
      (control_ws : ℕ) (keys : Keypair) (message : Message) (s : Server)
      → IsTracked s
      → IsTracked (Handle.receive rt control_ws keys message s)
  receive-IsTracked control_ws keys message s w =
      receive_rule rt IsTracked control_ws s keys message w
        (λ sealed opened absent confirm e. record {
          unique = w.unique;
          owned = w.owned;
          fresh = w.fresh;
          ready = w.ready;
        })
        (λ nonce ciphertext key payload held envelope e. dispatch-IsTracked control_ws payload s w)

  pub handle_control_message-IsTracked :
      (control_ws : ℕ) (bytes : Bytes) (s : Server)
      → IsTracked s
      → IsTracked (Handle.handle_control_message rt control_ws bytes s)
  handle_control_message-IsTracked control_ws bytes s w =
      let live : IsTracked (touch control_ws s) =
        IsTracked-same s (touch control_ws s) (touch-SameCore control_ws s) w in
      let (keys, ready) = w.ready in
      handle_rule rt IsTracked control_ws s bytes keys ready live
        (λ message e. receive-IsTracked control_ws keys message (touch control_ws s) live)

  pub mock_send-IsTracked :
      (mock : ℕ) (content : Content) (s : Server)
      → IsTracked s
      → IsTracked (mock_send rt mock content s)
  unfolding mock_send
  mock_send-IsTracked mock content s w =
      option_keeps IsTracked (get mock s.mocks) _ s
        (λ m e. if_keeps IsTracked _ _ _ (try_send-IsTracked m.control_ws _ s w) w) w

  pub mock_close-IsTracked :
      (mock : ℕ) (code : Option ℕ) (reason : Option Text) (s : Server)
      → IsTracked s
      → IsTracked (mock_close rt mock code reason s)
  unfolding mock_close
  mock_close-IsTracked mock code reason s w =
      option_keeps IsTracked (get mock s.mocks) _ s
        (λ m found. if_keeps IsTracked _ _ _ w (
          let shut = set_ready_state mock closing m s in
          let v : IsTracked shut = set_ready_state-IsTracked mock closing m s found w in
          let told = try_send rt m.control_ws (closing_event m code reason) shut in
          IsTracked-mocks told (emit_close mock code reason told)
            (emit_close-SameButMocks mock code reason told)
            (try_send-IsTracked m.control_ws (closing_event m code reason) shut v)))
        w
