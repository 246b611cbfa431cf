-- ===== src/Chat/Rooms.antt =====
-- server.c: creating and leaving rooms. A function runs as one step:
-- the mutexes order the steps, and what they do not order is described where it matters.
pub mod Leave
use homeworks.Prelude.{
  ℕ, zero, suc, ◌+◌, ◌-◌, List, [], ◌∷◌, ◌++◌, map, Bool, true, false, not, Option, none, some,
  CString, text, streq, snprintf, concat, length, take, drop, keep, get_or, update, ltb, ◌==◌,
  if◌then◌else◌, first_from,
}
use homeworks.Chat.{
  Server, Client, Room, max_clients, max_rooms, max_room_name_len, buffer_size, send_to_client,
  log_event, send_all, set_client, set_room,
}
use homeworks.Chat.Names.{find_room, find_client_by_socket}

-- The new room and the index it takes, or `none` if every slot is in use.
unfoldable pub create_room : Server → CString → Option (ℕ × Server)
create_room s room_name = elim (first_from (λ i. not (s.rooms i).active) 0 max_rooms) [
  | none ↦ none
  | some i ↦ some (
    i,
    record s {
      rooms = update s.rooms i (record { name = room_name; users = []; active = true });
      room_count = s.room_count + 1;
    },
  )
]

-- `for (j = i; j < count - 1; j++) users[j] = users[j + 1]; count--;`
unfoldable pub remove_at : ℕ → List ℕ → List ℕ
remove_at i [] = []
remove_at zero (u ∷ us) = us
remove_at (suc i) (u ∷ us) = u ∷ remove_at i us

-- The loop of `leave_room` over the room's users, with the fuel of one round for each user: the
-- users that stay, and those whose sockets are to be notified.
unfoldable pub leave_loop : ℕ → ℕ → ℕ → List ℕ → List ℕ → List ℕ × List ℕ
unfolding remove_at
leave_loop zero client i users notify = (users, notify)
leave_loop (suc fuel) client i users notify =
    let gone = leave_loop fuel client i (remove_at i users) notify in
    let stays = leave_loop fuel client (i + 1) users (notify ++ get_or users i 0 ∷ []) in
    if get_or users i 0 == client then gone else stays

-- What `leave_room` does to the rooms: the new state and the clients to notify.
unfoldable pub leave_users : Server → ℕ → CString → Server × List ℕ
unfolding leave_loop
leave_users s client room_name = elim (find_room s room_name) [
  | none ↦ (s, [])
  | some r ↦
      let room = s.rooms r in
      let (users, notify) = leave_loop (length room.users) client 0 room.users [] in
      if length users == 0
      then (
        record s {
          rooms = update s.rooms r (record room { users = users; active = false });
          room_count = s.room_count - 1;
        },
        notify,
      )
      else (set_room s r (record room { users = users }), notify)
]

abbrev pub user_in_room : CString → CString → CString → CString → CString
user_in_room before username between room_name =
    snprintf 512 (concat (before ∷ username ∷ between ∷ take 32 room_name ∷ text "'" ∷ []))

-- The end of `leave_room`: the log line, and the notices to those who stay.
unfoldable pub leave_notify : Server → ℕ → CString → CString → List ℕ → Server
unfolding log_event send_all
leave_notify s client username room_name notify =
    let s1 =
      log_event s (text "LEAVE")
        (user_in_room (text "user '") (take 16 username) (text "' left room '") room_name) in
    let s2 = send_all s1 (map (λ u. (s1.clients u).socket) notify) (
      snprintf buffer_size
        (concat (text "USER_LEFT " ∷ take 16 username ∷ text " " ∷ take 32 room_name ∷ []))) in
    if ltb 0 (length notify)
    then log_event s2 (text "NOTIFICATION")
        (user_in_room (text "user '") (take 32 username) (text "' left room '") room_name)
    else s2

unfoldable pub leave_room : Server → ℕ → Server
unfolding leave_users leave_notify
leave_room s client =
    let c = s.clients client in
    let room_name = take max_room_name_len c.current_room in
    let (s1, notify) = leave_users s client room_name in
    let s2 = set_client s1 client (record (s1.clients client) { current_room = [] }) in
    leave_notify s2 client c.username room_name notify
