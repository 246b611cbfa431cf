-- ===== src/Chat/Shutdown.antt =====
-- server.c: SIGINT and `shutdown_server`.
use homeworks.Prelude.{ℕ, zero, suc, ◌+◌, [], ◌∷◌, ◌++◌, false, text, update, if◌then◌else◌}
use homeworks.Chat.{Server, max_clients, send_to_client, log_event}

-- One round of the loop over the clients.
unfoldable pub disconnect : Server → ℕ → Server
unfolding send_to_client
disconnect s i =
    let c = s.clients i in
    let s1 = send_to_client s c.socket (text "SERVER_SHUTDOWN") in
    if c.active
    then record s1 {
      closed = s1.closed ++ c.socket ∷ [];
      clients = update s1.clients i (record c { active = false });
    }
    else s

unfoldable pub disconnect_all : ℕ → ℕ → Server → Server
unfolding disconnect
disconnect_all i zero s = s
disconnect_all i (suc n) s = disconnect_all (i + 1) n (disconnect s i)

-- The server's own socket is `listener`.
unfoldable pub handle_sigint : Server → ℕ → Server
handle_sigint s listener = record s { server_running = false; closed = s.closed ++ listener ∷ [] }

-- `shutdown_server`, after the file processor's thread has been joined.
unfoldable pub shutdown_server : Server → Server
unfolding disconnect_all log_event
shutdown_server s =
    let s1 =
      log_event s (text "SHUTDOWN") (text "SIGINT received. Disconnecting clients, saving logs.") in
    disconnect_all 0 max_clients
      (record s1 { server_running = false; filled_slots = s1.filled_slots + 1 })
