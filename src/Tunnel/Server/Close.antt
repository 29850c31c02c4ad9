-- ===== src/Tunnel/Server/Close.antt =====
-- `#onHonoClose` of packages/tunnel/src/server.ts and the "close" listener of
-- `#onExpressControlConnection`: what is forgotten with a control socket.
use teekit.Common.{ℕ, ◌==◌, some, List, [], ◌∷◌, Text, codes, if◌then◌else◌}
use teekit.Dict.{number_key, text_key, Dict, delete, remove}
use teekit.Tunnel.Server.{Server, Connection}
use teekit.Tunnel.Server.Mock.{emit_close, delete_client}

-- The loop over the connections of the socket.
unfoldable pub close_connection : ℕ → Connection → Server → Server
unfolding delete_client
close_connection control_ws connection s =
    let told =
      delete_client connection.mock_ws
        (emit_close connection.mock_ws (some 1006) (some (codes "tunnel closed")) s) in
    record told { symmetric_keys = delete connection.control_ws told.symmetric_keys }

unfoldable pub close_connections : ℕ → Dict Text Connection → Server → Server
unfolding close_connection
close_connections control_ws [] s = s
close_connections control_ws ((connection_id, connection) ∷ entries) s =
    close_connections control_ws entries
      (if connection.control_ws == control_ws then close_connection control_ws connection s else s)

unfoldable pub to_remove : ℕ → Dict Text Connection → List Text
to_remove control_ws [] = []
to_remove control_ws ((connection_id, connection) ∷ entries) =
    let rest = to_remove control_ws entries in
    if connection.control_ws == control_ws then connection_id ∷ rest else rest

unfoldable pub delete_all : List Text → Dict Text Connection → Dict Text Connection
delete_all [] sockets = sockets
delete_all (id ∷ ids) sockets = delete_all ids (delete id sockets)

-- The environment is forgotten for Hono alone, which alone has one.
unfoldable pub forget_socket : ℕ → Server → Server
forget_socket control_ws s = record s {
  control_clients = remove control_ws s.control_clients;
  symmetric_keys = delete control_ws s.symmetric_keys;
  liveness = delete control_ws s.liveness;
  envs = (if s.is_hono then delete control_ws s.envs else s.envs);
  extra_contexts = delete control_ws s.extra_contexts;
}

unfoldable pub on_close : ℕ → Server → Server
unfolding forget_socket close_connections to_remove delete_all
on_close control_ws s =
    let told = close_connections control_ws s.sockets (forget_socket control_ws s) in
    record told { sockets = delete_all (to_remove control_ws s.sockets) told.sockets }
