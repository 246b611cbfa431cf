-- ===== src/Chat/Consistency/Quiet.antt =====
-- The functions that only send and log: they leave the tables alone.
use mathlib.Core.List.{append-nil, append_assoc}
use homeworks.Prelude.{
  ℕ, ◌≡◌, sym, ◌∙◌, ap, List, [], ◌∷◌, ◌++◌, map, Bool, CString, arith, inl, inr, Option-cases,
}
use homeworks.Chat.{Server, send_to_client, log_event, send_all}
use homeworks.Chat.Names.{find_room}
use homeworks.Chat.Rooms.{leave_notify}
use homeworks.Chat.Join.{log_join, notify_join, broadcast_to_room}
use homeworks.Chat.Files.{refuse}
use homeworks.Chat.Commands.{handle_broadcast, whisper}

-- What a quiet function leaves alone.
pub record IsQuiet (s t : Server) : Type 0 where
  pub same_clients : t.clients ≡ s.clients
  pub same_rooms : t.rooms ≡ s.rooms
  pub same_count : t.client_count ≡ s.client_count

pub send_all-eq :
    (s : Server) (sockets : List ℕ) (message : CString)
    → send_all s sockets message
      ≡ record s { outbox = s.outbox ++ map (λ socket. (socket, message)) sockets }
unfolding send_all
send_all-eq s [] message = ap (λ o. record s { outbox = o }) (sym (append-nil s.outbox))
send_all-eq s (x ∷ xs) message =
    send_all-eq (send_to_client s x message) xs message
    ∙ ap (λ o. record s { outbox = o })
        (append_assoc s.outbox ((x, message) ∷ []) (map (λ socket. (socket, message)) xs))

pub leave_notify-IsQuiet :
    (s : Server) (client : ℕ) (username room_name : CString) (notify : List ℕ)
    → IsQuiet s (leave_notify s client username room_name notify)
unfolding leave_notify
leave_notify-IsQuiet s client username room_name notify = rw send_all-eq (ground arith)

pub log_join-IsQuiet :
    (s : Server) (username old_room room_name : CString) (was_in_room rejoining : Bool)
    → IsQuiet s (log_join s username old_room room_name was_in_room rejoining)
unfolding log_join
log_join-IsQuiet s username old_room room_name was_in_room rejoining = ground arith

pub notify_join-IsQuiet :
    (s : Server) (client : ℕ) (room_name : CString) (users : List ℕ) (rejoining : Bool)
    → IsQuiet s (notify_join s client room_name users rejoining)
unfolding notify_join
notify_join-IsQuiet s client room_name users rejoining = rw send_all-eq (ground arith)

pub broadcast_to_room-IsQuiet :
    (s : Server) (room_name message : CString) (sender_socket : ℕ)
    → IsQuiet s (broadcast_to_room s room_name message sender_socket)
unfolding broadcast_to_room
broadcast_to_room-IsQuiet s room_name message sender_socket =
    elim (Option-cases (find_room s room_name)) [
      | inl missing ↦ rw (missing, broadcast_to_room) (ground arith)
      | inr (r, found) ↦ rw (found, broadcast_to_room) (rw send_all-eq (ground arith))
    ]

pub handle_broadcast-IsQuiet :
    (s : Server) (client : ℕ) (message : CString) → IsQuiet s (handle_broadcast s client message)
unfolding handle_broadcast
handle_broadcast-IsQuiet s client message = grind (arith, broadcast_to_room-IsQuiet)

pub whisper-IsQuiet :
    (s : Server) (client target : ℕ) (target_user message : CString)
    → IsQuiet s (whisper s client target target_user message)
unfolding whisper
whisper-IsQuiet s client target target_user message = ground arith

pub refuse-IsQuiet :
    (s : Server) (client : ℕ) (reply type message : CString)
    → IsQuiet s (refuse s client reply type message)
unfolding send_to_client log_event
refuse-IsQuiet s client reply type message = ground arith

pub log_event-IsQuiet : (s : Server) (type message : CString) → IsQuiet s (log_event s type message)
unfolding log_event
log_event-IsQuiet s type message = ground arith

pub send-IsQuiet :
    (s : Server) (socket : ℕ) (message : CString) → IsQuiet s (send_to_client s socket message)
unfolding send_to_client
send-IsQuiet s socket message = ground arith
