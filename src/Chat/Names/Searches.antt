-- ===== src/Chat/Names/Searches.antt =====
-- What the searches over the tables find.
use homeworks.Prelude.{
  ℕ, ◌<◌, ◌≡◌, ◌≢◌, ap, true, some, none, CString, streq, streq→≡, streq_self, first_from-some,
  first_from-none, arith, first_from,
}
use homeworks.Chat.{Server, max_rooms, max_clients}
use homeworks.Chat.Names.{find_room, find_client_by_username, room_matches, username_matches}

-- The room that is found is active, bears the name and lies in the table.
pub find_room-some :
    (s : Server) (room_name : CString) (r : ℕ)
    → find_room s room_name ≡ some r
    → ((s.rooms r).active ≡ true) × ((s.rooms r).name ≡ room_name) × (r < max_rooms)
unfolding find_room
find_room-some s room_name r e =
    let hit = first_from-some (room_matches s room_name) 0 max_rooms r e in
    ground (arith, hit, streq→≡ (s.rooms r).name room_name)

-- If none is found, no active room bears the name.
pub find_room-none :
    (s : Server) (room_name : CString) (r : ℕ)
    → find_room s room_name ≡ none
    → r < max_rooms
    → (s.rooms r).active ≡ true
    → (s.rooms r).name ≢ room_name
unfolding find_room
find_room-none s room_name r e h a n = ground (
  arith,
  first_from-none (room_matches s room_name) 0 max_rooms r e,
  ap (streq (s.rooms r).name) n,
  streq_self (s.rooms r).name,
)

-- A search for a username that finds none: no active client of the table bears it.
pub username_free :
    (s : Server) (username : CString) (i : ℕ)
    → first_from (username_matches s username) 0 max_clients ≡ none
    → i < max_clients
    → (s.clients i).active ≡ true
    → (s.clients i).username ≢ username
username_free s username i e h a n = ground (
  arith,
  first_from-none (username_matches s username) 0 max_clients i e,
  ap (streq (s.clients i).username) n,
  streq_self (s.clients i).username,
)

pub find_client-some :
    (s : Server) (username : CString) (i : ℕ)
    → find_client_by_username s username ≡ some i
    → ((s.clients i).active ≡ true) × ((s.clients i).username ≡ username) × (i < max_clients)
unfolding find_client_by_username
find_client-some s username i e =
    let hit = first_from-some (username_matches s username) 0 max_clients i e in
    ground (arith, hit, streq→≡ (s.clients i).username username)
