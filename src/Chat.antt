-- ===== src/Chat.antt =====
-- The chat server of System Programming/Final: server.h, with the state that its threads share.
-- The global arrays are functions of the index, a `Client *` or `Room *` is an index, and each
-- function below takes the state and returns it changed. Console output is left out.
pub mod Names
pub mod Rooms
pub mod Join
pub mod Files
pub mod Transfer
pub mod Commands
pub mod Dispatch
pub mod Session
pub mod Shutdown
pub mod Consistency
pub mod Usernames
pub mod FileQueue
pub mod Behaviour
mod Examples
use homeworks.Prelude.{
  ℕ, List, [], ◌∷◌, ◌++◌, Bool, true, false, CString, text, update, ℤ, if◌then◌else◌,
}

abbrev pub max_clients : ℕ
max_clients = 100

abbrev pub max_rooms : ℕ
max_rooms = 50

abbrev pub max_users_per_room : ℕ
max_users_per_room = 15

abbrev pub max_username_len : ℕ
max_username_len = 16

abbrev pub max_room_name_len : ℕ
max_room_name_len = 32

abbrev pub max_message_len : ℕ
max_message_len = 1024

abbrev pub buffer_size : ℕ
buffer_size = 4096

abbrev pub max_file_queue : ℕ
max_file_queue = 5

abbrev pub max_received_files : ℕ
max_received_files = 50

-- A counted array of names is the list of its names in use. `address` is the text that
-- `inet_ntoa` makes of the peer's address.
pub record Client : Type 0 where
  pub socket : ℕ
  pub username : CString
  pub current_room : CString
  pub previously_joined_rooms : List CString
  pub active : Bool
  pub address : CString
  pub received_files : List CString

-- `user_count` is the length of `users`. A list longer than `max_users_per_room` stands for a
-- write past the array.
pub record Room : Type 0 where
  pub name : CString
  pub users : List ℕ
  pub active : Bool

pub record FileTransferRequest : Type 0 where
  pub sender : ℕ
  pub receiver : ℕ
  pub filename : CString
  pub file_size : ℤ
  pub queue_time : ℕ
  pub active : Bool

-- `outbox` holds what `send` was given, with the socket, oldest first; `log` the type and text of
-- each line of the log file; `closed` the sockets that `close` was given.
pub record Server : Type 0 where
  pub clients : ℕ → Client
  pub rooms : ℕ → Room
  pub file_queue : ℕ → FileTransferRequest
  pub queue_size : ℕ
  pub queue_head : ℕ
  pub queue_tail : ℕ
  pub empty_slots : ℕ
  pub filled_slots : ℕ
  pub client_count : ℕ
  pub room_count : ℕ
  pub server_running : Bool
  pub lost_connection : Bool
  pub outbox : List (ℕ × CString)
  pub log : List (CString × CString)
  pub closed : List ℕ

unfoldable pub send_to_client : Server → ℕ → CString → Server
send_to_client s socket message = record s { outbox = s.outbox ++ (socket, message) ∷ [] }

unfoldable pub log_event : Server → CString → CString → Server
log_event s type message = record s { log = s.log ++ (type, message) ∷ [] }

unfoldable pub send_all : Server → List ℕ → CString → Server
unfolding send_to_client
send_all s [] message = s
send_all s (socket ∷ sockets) message = send_all (send_to_client s socket message) sockets message

-- `clients[i] = c` and `rooms[i] = r`
abbrev pub set_client : Server → ℕ → Client → Server
set_client s i c = record s { clients = update s.clients i c }

abbrev pub set_room : Server → ℕ → Room → Server
set_room s i r = record s { rooms = update s.rooms i r }

-- The zeroed globals at program start, as `main` leaves them before its loop.
abbrev pub blank_client : Client
blank_client = record {
  socket = 0;
  username = [];
  current_room = [];
  previously_joined_rooms = [];
  active = false;
  address = [];
  received_files = [];
}

abbrev pub blank_request : FileTransferRequest
blank_request = record {
  sender = 0;
  receiver = 0;
  filename = [];
  file_size = ℤ.pos 0;
  queue_time = 0;
  active = false;
}

abbrev pub init : Server
init = record {
  clients = λ _. blank_client;
  rooms = λ _. record { name = []; users = []; active = false };
  file_queue = λ _. blank_request;
  queue_size = 0;
  queue_head = 0;
  queue_tail = 0;
  empty_slots = max_file_queue;
  filled_slots = 0;
  client_count = 0;
  room_count = 0;
  server_running = true;
  lost_connection = false;
  outbox = [];
  log = (text "INFO", text "File queue processor started") ∷ [];
  closed = [];
}
