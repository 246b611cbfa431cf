-- ===== src/Chat/Dispatch.antt =====
-- server.c: `/whisper`, `/sendfile` and `/exit`, and the choice of the command in `client_handler`.
use homeworks.Prelude.{
  ℕ, ◌+◌, ◌-◌, [], ◌∷◌, ◌++◌, false, Option, none, some, CString, text, streq, starts_with, strchr,
  snprintf, concat, length, take, drop, if◌then◌else◌,
}
use homeworks.Chat.{Server, max_username_len, buffer_size, send_to_client, log_event}
use homeworks.Chat.Names.{find_client_by_username}
use homeworks.Chat.Files.{refuse, handle_file_transfer}
use homeworks.Chat.Commands.{
  Outcome, carry_on, log_out, fault, scan_word, scan_long, skip_spaces, handle_join, handle_leave,
  handle_broadcast, whisper,
}

-- The name a whisper is for: the bytes up to the first space, 16 at most.
-- Without a space `message_start - (buffer + 9)` is past every length, so 16 bytes at most again.
unfoldable pub whisper_target : CString → Option CString → CString
whisper_target args none = take max_username_len args
whisper_target args (some message_start) =
    take max_username_len (take (length args - length message_start) args)

-- Without a space the message would be read from address 1.
unfoldable pub handle_whisper : Server → ℕ → CString → Outcome
unfolding send_to_client log_event
handle_whisper s client args =
    let c = s.clients client in
    let target_user = whisper_target args (strchr args b' ') in
    if streq target_user c.username
    then carry_on (
        refuse s client (text "CANNOT_WHISPER_SELF") (text "REJECTED") (
          concat
            (text "user '" ∷ take 16 c.username ∷ text "' tried to whisper to themselves" ∷ [])))
    else elim (find_client_by_username s target_user) [
      | none ↦ carry_on (
          refuse s client (text "USER_NOT_FOUND") (text "REJECTED") (
            concat (
              text "user '"
              ∷ take 16 c.username
              ∷ text "' tried to whisper to non-existent user '"
              ∷ take 16 target_user
              ∷ text "'"
              ∷ [])))
      | some target ↦ elim (strchr args b' ') [
        | none ↦ fault
        | some message_start ↦ carry_on (whisper s client target target_user (drop 1 message_start))
      ]
    ]

-- `sscanf (params, "%s %s %ld", …)` into arrays of 4096 and 17 bytes.
unfoldable pub handle_sendfile : (Server → Server) → Server → ℕ → CString → ℕ → Outcome
handle_sendfile others s client params now = elim (scan_word buffer_size params) [
  | none ↦ fault
  | some (filename, rest) ↦ elim (scan_word (max_username_len + 1) rest) [
    | none ↦ fault
    | some (target_username, rest') ↦ carry_on (
        handle_file_transfer others s client filename target_username
          (scan_long (skip_spaces rest')) now)
  ]
]

unfoldable pub handle_exit : Server → ℕ → Server
unfolding send_to_client log_event
handle_exit s client =
    let c = s.clients client in
    let s1 = send_to_client (record s { lost_connection = false }) c.socket (text "LOGOUT") in
    let s2 = log_event s1 (text "LOGOUT") (
      snprintf 512 (concat (text "user '" ∷ c.username ∷ text "' logged out with '/exit'" ∷ []))) in
    record s2 { closed = s2.closed ++ c.socket ∷ [] }

-- One line from a client. A line that is no command changes nothing.
unfoldable pub handle_command : (Server → Server) → Server → ℕ → CString → ℕ → Outcome
handle_command others s client buffer now =
    if starts_with buffer (text "/join ")
    then carry_on (handle_join others s client (drop 6 buffer))
    else if streq buffer (text "/leave")
    then carry_on (handle_leave s client)
    else if starts_with buffer (text "/broadcast ")
    then carry_on (handle_broadcast s client (drop 11 buffer))
    else if starts_with buffer (text "/whisper ")
    then handle_whisper s client (drop 9 buffer)
    else if starts_with buffer (text "/sendfile ")
    then handle_sendfile others s client (drop 10 buffer) now
    else if streq buffer (text "/exit")
    then log_out (handle_exit s client)
    else carry_on s
