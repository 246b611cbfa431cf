-- ===== src/Chat/Names.antt =====
-- server.c: which names are valid, and the searches for clients and rooms.
pub mod Searches
use homeworks.Prelude.{
  ℕ, ◌≤◌, ◌<◌, ◌≡◌, List, [], ◌∷◌, Bool, true, false, ◌&&◌, not, Option, none, some, CString, streq,
  isalnum, length, all, ltb, ◌==◌, if◌then◌else◌, first_from, arith,
}
use homeworks.Chat.{
  Server, Client, Room, max_clients, max_rooms, max_username_len, max_room_name_len,
}

unfoldable pub is_valid_username : CString → Bool
is_valid_username username =
    if ltb max_username_len (length username)
    then false
    else if length username == 0
    then false
    else all isalnum username

unfoldable pub is_valid_room_name : CString → Bool
is_valid_room_name room_name =
    if length room_name == 0
    then false
    else if ltb max_room_name_len (length room_name)
    then false
    else all isalnum room_name

-- The tests of the searches. `username_matches` is also the test for a taken name.
abbrev pub username_matches : Server → CString → ℕ → Bool
username_matches s username i =
    if (s.clients i).active then streq (s.clients i).username username else false

abbrev pub socket_matches : Server → ℕ → ℕ → Bool
socket_matches s socket i = if (s.clients i).active then (s.clients i).socket == socket else false

abbrev pub room_matches : Server → CString → ℕ → Bool
room_matches s room_name i = if (s.rooms i).active then streq (s.rooms i).name room_name else false

unfoldable pub find_client_by_username : Server → CString → Option ℕ
find_client_by_username s username = first_from (username_matches s username) 0 max_clients

unfoldable pub find_client_by_socket : Server → ℕ → Option ℕ
find_client_by_socket s socket = first_from (socket_matches s socket) 0 max_clients

unfoldable pub find_room : Server → CString → Option ℕ
find_room s room_name = first_from (room_matches s room_name) 0 max_rooms
