-- ===== src/Chat/Commands.antt =====
-- server.c: the commands of `client_handler`, its second loop. `fault` is undefined behaviour of
-- the C program.
use homeworks.Prelude.{
  ℕ, ◌+◌, ◌-◌, ◌*◌, ◌^◌, [], ◌∷◌, ◌++◌, Bool, false, ◌&&◌, ◌||◌, not, Option, none, some, CString,
  text, streq, snprintf, concat, isdigit, ℤ, pos, negsuc, length, take, ltb, leb, ◌==◌,
  if◌then◌else◌,
}
use homeworks.Chat.{
  Server, max_users_per_room, max_message_len, buffer_size, send_to_client, log_event,
}
use homeworks.Chat.Names.{is_valid_room_name, find_room}
use homeworks.Chat.Rooms.{leave_room}
use homeworks.Chat.Join.{join_room, broadcast_to_room}
use homeworks.Chat.Files.{refuse}

-- How one command ends: the loop goes on, the loop ends by `break`, or the program faults.
pub data Outcome : Type 0 where
  carry_on : Server → Outcome
  log_out : Server → Outcome
  fault : Outcome

-- `isspace`
unfoldable pub isspace : ℕ → Bool
isspace c = c == 32 || (leb 9 c && leb c 13)

unfoldable pub skip_spaces : CString → CString
unfolding isspace
skip_spaces [] = []
skip_spaces (c ∷ cs) = if isspace c then skip_spaces cs else c ∷ cs

-- The word that `%s` reads where no space stands in front, and the rest.
unfoldable pub word : CString → CString × CString
unfolding isspace
word [] = ([], [])
word (c ∷ cs) = let (w, rest) = word cs in if isspace c then ([], c ∷ cs) else (c ∷ w, rest)

-- The value of the digits that `%ld` reads, added to `acc`.
unfoldable pub digits_value : CString → ℕ → ℕ
digits_value [] acc = acc
digits_value (c ∷ cs) acc = if isdigit c then digits_value cs (acc * 10 + (c - b'0')) else acc

-- `%ld` with its sign, held to the range of a 64-bit `long`; 0, the variable's first value, where
-- there is no number.
unfoldable pub scan_long : CString → ℤ
unfolding digits_value
scan_long [] = pos 0
scan_long (c ∷ cs) =
    let number = λ (s : CString). digits_value s 0 in
    let high = λ (n : ℕ). if ltb n (2 ^ 63) then n else 2 ^ 63 - 1 in
    if c == b'-'
    then if number cs == 0
      then pos 0
      else if ltb (2 ^ 63) (number cs)
      then negsuc (2 ^ 63 - 1)
      else negsuc (number cs - 1)
    else if c == b'+'
    then pos (high (number cs))
    else pos (high (number (c ∷ cs)))

-- A word that `%s` stores in an array of `size` bytes, with what follows; `none` if it does not
-- fit with its terminator.
abbrev pub scan_word : ℕ → CString → Option (CString × CString)
scan_word size s =
    let (w, rest) = word (skip_spaces s) in if ltb (length w) size then some (w, rest) else none

unfoldable pub room_is_full : Server → CString → Bool
room_is_full s room_name = elim (find_room s room_name) [
  | none ↦ false
  | some r ↦ leb max_users_per_room (length (s.rooms r).users)
]

-- `rooms_mutex` is given back between the test of the room and `join_room`: `others` is what the
-- other threads do there.
unfoldable pub handle_join : (Server → Server) → Server → ℕ → CString → Server
unfolding send_to_client log_event
handle_join others s client room_name =
    let c = s.clients client in
    let user = text "user '" ++ take 16 c.username in
    let tried = λ (how : CString). concat (user ∷ how ∷ take 32 room_name ∷ text "'" ∷ []) in
    let (joined, s1) = join_room (others s) client room_name in
    if not (is_valid_room_name room_name)
    then refuse s client (text "INVALID_ROOM_NAME") (text "REJECTED")
        (text "Invalid room name attempted: " ++ take 100 room_name)
    else if streq c.current_room room_name
    then refuse s client (text "ALREADY_IN_ROOM") (text "REJECTED")
        (tried (text "' tried to join the same room '"))
    else if room_is_full s room_name
    then refuse s client (text "ROOM_IS_FULL") (text "REJECTED")
        (tried (text "' tried to join full room '"))
    else if joined
    then send_to_client s1 (s1.clients client).socket
        (snprintf buffer_size (text "JOIN_ROOM " ++ take 32 room_name))
    else send_to_client s1 (s1.clients client).socket (text "INVALID_ROOM")

unfoldable pub handle_leave : Server → ℕ → Server
unfolding send_to_client log_event
handle_leave s client =
    let c = s.clients client in
    let s1 = leave_room s client in
    if length c.current_room == 0
    then refuse s client (text "NOT_IN_ROOM") (text "REJECTED") (
        concat (
          text "user '"
          ∷ take 16 c.username
          ∷ text "' tried to leave a room but is not in one"
          ∷ []))
    else send_to_client s1 (s1.clients client).socket (text "LEAVE_ROOM")

unfoldable pub handle_broadcast : Server → ℕ → CString → Server
unfolding send_to_client log_event
handle_broadcast s client message_content =
    let c = s.clients client in
    let formatted_message = snprintf (max_message_len + 5) (
      concat (
        text "["
        ∷ take 32 c.current_room
        ∷ text "] "
        ∷ take 16 c.username
        ∷ text ": "
        ∷ message_content
        ∷ [])) in
    let s1 = broadcast_to_room s c.current_room formatted_message c.socket in
    let s2 = send_to_client s1 c.socket (text "MESSAGE_BROADCASTED") in
    if length c.current_room == 0
    then refuse s client (text "NOT_IN_ROOM") (text "REJECTED") (
        concat (
          text "user '"
          ∷ take 16 c.username
          ∷ text "' tried to broadcast but is not in a room"
          ∷ []))
    else log_event s2 (text "BROADCAST") (
        snprintf 512 (
          concat (text "user '" ∷ take 32 c.username ∷ text "': " ∷ take 256 message_content ∷ [])))

-- The whisper itself: `message` is what follows the space.
unfoldable pub whisper : Server → ℕ → ℕ → CString → CString → Server
unfolding send_to_client log_event
whisper s client target target_user message =
    let c = s.clients client in
    let s1 = send_to_client s (s.clients target).socket (
      snprintf buffer_size
        (concat (text "WHISPER_MESSAGE " ∷ c.username ∷ text " " ∷ message ∷ []))) in
    let s2 =
      send_to_client s1 c.socket (snprintf buffer_size (text "WHISPER_SENT " ++ target_user)) in
    log_event s2 (text "WHISPER") (
      snprintf 512 (
        concat (
          text "user '"
          ∷ take 16 c.username
          ∷ text "' to '"
          ∷ take 16 target_user
          ∷ text "': "
          ∷ take 256 message
          ∷ [])))
