-- ===== src/Chat/Join.antt =====
-- server.c: joining a room, and the message to a room.
use homeworks.Prelude.{
  ℕ, ◌-◌, List, [], ◌∷◌, ◌++◌, map, Bool, true, false, not, Option, none, some, CString, text,
  streq, snprintf, concat, length, take, keep, update, ltb, ◌==◌, if◌then◌else◌,
}
use homeworks.Chat.{Server, max_rooms, max_room_name_len, buffer_size, log_event, send_all}
use homeworks.Chat.Names.{find_room}
use homeworks.Chat.Rooms.{create_room, leave_room, user_in_room}

-- `find_room`, then `create_room` if there is none.
unfoldable pub find_or_create_room : Server → CString → Option (ℕ × Server)
unfolding find_room create_room
find_or_create_room s room_name = elim (find_room s room_name) [
  | some r ↦ some (r, s)
  | none ↦ create_room s room_name
]

-- Whether the client has been in a room of that name.
unfoldable pub joined_before : List CString → CString → Bool
joined_before [] room_name = false
joined_before (r ∷ rs) room_name = if streq r room_name then true else joined_before rs room_name

-- `users[user_count++] = client`, with no test of the room's size, and the client's own record.
unfoldable pub enter_room : Server → ℕ → ℕ → CString → Bool → Server
enter_room s client r room_name rejoining =
    let room = s.rooms r in
    let c = s.clients client in
    let rooms_joined =
      if rejoining
      then c.previously_joined_rooms
      else if ltb (length c.previously_joined_rooms) max_rooms
      then c.previously_joined_rooms ++ take max_room_name_len room_name ∷ []
      else c.previously_joined_rooms in
    record s {
      rooms = update s.rooms r (record room { users = room.users ++ client ∷ [] });
      clients = update s.clients client (record c {
        current_room = take max_room_name_len room_name;
        previously_joined_rooms = rooms_joined;
      });
    }

-- The log line of a join, by whether the client was in a room and has been in this one.
unfoldable pub log_join : Server → CString → CString → CString → Bool → Bool → Server
unfolding log_event
log_join s username old_room room_name was_in_room rejoining =
    let verb = if rejoining then text "rejoined" else text "joined" in
    if was_in_room
    then log_event s (text "ROOM") (
        snprintf 512 (
          concat (
            text "user '"
            ∷ take 16 username
            ∷ text "' left room '"
            ∷ take 32 old_room
            ∷ text "', "
            ∷ verb
            ∷ text " '"
            ∷ take 32 room_name
            ∷ text "'"
            ∷ [])))
    else log_event s (if rejoining then text "ROOM" else text "JOIN") (
        user_in_room (text "user '") (take 16 username)
          (concat (text "' " ∷ verb ∷ text " room '" ∷ [])) room_name)

-- The notices of a join: to every user of the room whose socket is another than the client's,
-- which the client, last in the list, is not. (Two users with one socket would leave a hole in
-- the array of sockets that the source sends from.)
unfoldable pub notify_join : Server → ℕ → CString → List ℕ → Bool → Server
unfolding log_event send_all
notify_join s client room_name users rejoining =
    let c = s.clients client in
    let verb = if rejoining then text "USER_REJOINED " else text "USER_JOINED " in
    let message = snprintf buffer_size (concat (verb ∷ c.username ∷ text " " ∷ room_name ∷ [])) in
    let sockets = keep (λ x. not (x == c.socket)) (map (λ u. (s.clients u).socket) users) in
    let s1 = send_all s (take (length users - 1) sockets) message in
    if ltb 0 (length users - 1)
    then log_event s1 (text "NOTIFICATION") (
        user_in_room (text "user '") (take 16 c.username)
          (if rejoining then text "' rejoined room '" else text "' joined room '") room_name)
    else s1

-- `join_room`: whether the client joined, and the new state. The client has left its old room
-- also where no room can be created.
unfoldable pub join_room : Server → ℕ → CString → Bool × Server
unfolding find_or_create_room enter_room
join_room s client room_name =
    let c = s.clients client in
    let rejoining = joined_before c.previously_joined_rooms room_name in
    let was_in_room = ltb 0 (length c.current_room) in
    let old_room = take max_room_name_len c.current_room in
    let s1 = if was_in_room then leave_room s client else s in
    elim (find_or_create_room s1 room_name) [
      | none ↦ (false, s1)
      | some (r, s2) ↦
          let s3 = enter_room s2 client r room_name rejoining in
          let s4 = log_join s3 c.username old_room room_name was_in_room rejoining in
          (true, notify_join s4 client room_name (s3.rooms r).users rejoining)
    ]

-- The sockets that `broadcast_to_room` sends to: those of the room's users but the sender's.
unfoldable pub other_sockets : Server → List ℕ → ℕ → List ℕ
other_sockets s [] sender_socket = []
other_sockets s (u ∷ us) sender_socket =
    let rest = other_sockets s us sender_socket in
    if (s.clients u).socket == sender_socket then rest else (s.clients u).socket ∷ rest

unfoldable pub broadcast_to_room : Server → CString → CString → ℕ → Server
unfolding send_all other_sockets
broadcast_to_room s room_name message sender_socket = elim (find_room s room_name) [
  | none ↦ s
  | some r ↦
      send_all s (other_sockets s (s.rooms r).users sender_socket)
        (snprintf 1050 (text "CHAT_MESSAGE " ++ message))
]
