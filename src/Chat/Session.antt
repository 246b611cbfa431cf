-- ===== src/Chat/Session.antt =====
-- server.c: a client's life, from the `accept` loop of `main` over `client_handler` to
-- `cleanup_client` and the shutdown.
use homeworks.Prelude.{
  ℕ, ◌+◌, ◌-◌, [], ◌∷◌, ◌++◌, Bool, true, false, not, ◌||◌, Option, none, some, CString, text,
  snprintf, concat, length, take, update, ltb, ◌==◌, if◌then◌else◌, first_from,
}
use homeworks.Chat.{Server, max_clients, max_username_len, send_to_client, log_event, set_client}
use homeworks.Chat.Names.{is_valid_username, username_matches}
use homeworks.Chat.Rooms.{leave_room}
use homeworks.Chat.Commands.{Outcome, carry_on, log_out, fault}
use homeworks.Chat.Dispatch.{handle_command}

-- A new connection: the slot that the client gets, or `none` where the server is full. The slot's
-- `previously_joined_rooms` and `received_files` stay as its last client left them.
unfoldable pub accept_client : Server → ℕ → CString → Option ℕ × Server
unfolding send_to_client log_event
accept_client s client_socket client_addr =
    elim (first_from (λ i. not (s.clients i).active) 0 max_clients) [
      | none ↦
          let s1 =
            log_event (send_to_client s client_socket (text "SERVER_FULL")) (text "LOGIN_ERROR")
              (text "Server is full, client connection refused.") in
          (none, record s1 { closed = s1.closed ++ client_socket ∷ [] })
      | some i ↦ (
        some i,
        record s {
          clients = update s.clients i (record (s.clients i) {
            socket = client_socket;
            active = true;
            address = client_addr;
            username = [];
            current_room = [];
          });
          client_count = s.client_count + 1;
        },
      )
    ]

-- One round of the loop that waits for a username: whether it was accepted, and the state.
unfoldable pub login : Server → ℕ → CString → Bool × Server
unfolding send_to_client log_event
login s client buffer =
    let c = s.clients client in
    let taken = first_from (username_matches s buffer) 0 max_clients in
    if not (is_valid_username buffer)
    then (
      false,
      log_event (send_to_client s c.socket (text "INVALID_USERNAME")) (text "LOGIN_ERROR")
          (text "Invalid username format received."),
    )
    else elim taken [
      | some _ ↦ (
        false,
        log_event (send_to_client s c.socket (text "USERNAME_TAKEN")) (text "REJECTED")
            (snprintf 512 (text "Duplicate username attempted: " ++ take max_username_len buffer)),
      )
      | none ↦ (true, set_client s client (record c { username = buffer }))
    ]

-- After the loop: the welcome.
unfoldable pub welcome : Server → ℕ → Server
unfolding send_to_client log_event
welcome s client =
    let c = s.clients client in
    log_event (send_to_client s c.socket (text "WELCOME")) (text "LOGIN") (
      snprintf 512
        (concat (text "user '" ∷ c.username ∷ text "' connected from " ∷ c.address ∷ [])))

-- The socket is what `accept` returned, so it is never -1 here.
unfoldable pub cleanup_client : Server → ℕ → Server
unfolding log_event
cleanup_client s client =
    let c = s.clients client in
    let s1 = if ltb 0 (length c.current_room) then leave_room s client else s in
    let s2 : Server = record s1 { closed = s1.closed ++ (s1.clients client).socket ∷ [] } in
    let s3 =
      if s2.lost_connection
      then log_event s2 (text "DISCONNECT") (
          snprintf 512 (
            concat (
              text "user '"
              ∷ (s2.clients client).username
              ∷ text "' lost connection. Cleaned up resources."
              ∷ [])))
      else s2 in
    if c.active
    then record s3 {
      clients =
          update s3.clients client
            (record (s3.clients client) { active = false; username = []; current_room = [] });
      client_count = s3.client_count - 1;
    }
    else s

-- Where a client's thread stands.
pub data Phase : Type 0 where
  naming chatting ended : Phase

-- `buffer[strcspn (buffer, "\r\n")] = 0` on what `recv` stored, read up to its first zero byte.
unfoldable pub chomp : CString → CString
chomp [] = []
chomp (c ∷ cs) = if c == 0 || c == 10 || c == 13 then [] else c ∷ chomp cs

-- The end of `client_handler` after a command; `none` is a fault. The loop also ends where the
-- server has stopped or the client's slot is no longer active.
unfoldable pub after_command : ℕ → Outcome → Option (Phase × Server)
after_command client fault = none
after_command client (log_out s) = some (ended, cleanup_client s client)
after_command client (carry_on s) = some (chatting, s)

-- One round of `client_handler`: the test of its loop, then what `recv` returns, `none` for a count
-- that is not positive. A lost connection is cleaned up in the loop and again behind it.
unfoldable pub handler_round :
    (Server → Server) → Server → ℕ → ℕ → Phase → Option CString → Option (Phase × Server)
unfolding after_command
handler_round others s client now ended input = some (ended, s)
handler_round others s client now naming input =
    if not s.server_running then some (ended, cleanup_client s client) else elim input [
      | none ↦ some (ended, cleanup_client s client)
      | some buffer ↦
          let (accepted, s1) = login s client (chomp buffer) in
          if accepted then some (chatting, welcome s1 client) else some (naming, s1)
    ]
handler_round others s client now chatting input =
    let lost : Server = record s { lost_connection = true } in
    if not s.server_running || not (s.clients client).active
    then some (ended, cleanup_client s client)
    else elim input [
      | none ↦ some (ended, cleanup_client (cleanup_client lost client) client)
      | some buffer ↦ after_command client (handle_command others s client (chomp buffer) now)
    ]
