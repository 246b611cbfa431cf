-- ===== src/Chat/Examples.antt =====
-- The theorems on the chat server at concrete states.
use homeworks.Prelude.{
  ℕ, ◌≡◌, refl, ◌⊎◌, [], ◌∷◌, ◌++◌, true, false, none, some, text, pos, ◌<◌, ◌≢◌, length,
  first_from, arith,
}
use homeworks.Chat.{Server, FileTransferRequest, init, max_file_queue, max_clients, log_event}
use homeworks.Chat.Rooms.{leave_loop}
use homeworks.Chat.Files.{add_to_file_queue}
use homeworks.Chat.Session.{naming, chatting, accept_client, handler_round}
use homeworks.Chat.Rooms.Leave.{leave_loop-eq-others}
use homeworks.Chat.Names.{find_room}
use homeworks.Chat.Commands.{room_is_full}
use homeworks.Chat.Consistency.Handlers.{Spares}
use homeworks.Chat.Consistency.Steps.{Consistent}
use homeworks.Chat.Consistency.Lives.{AfterRound}
use homeworks.Chat.Consistency.Rounds.{
  init-Consistent, accept_client-Consistent, handler_round-Consistent,
}
use homeworks.Chat.Usernames.{
  HasUniqueNames, accept_client-HasUniqueNames, handler_round-HasUniqueNames,
}
use homeworks.Chat.FileQueue.{IsQueue, waiting, request_of, slot_state, add_to_file_queue-waiting}

-- One client has connected, and has slot 0.
abbrev connected : Server
connected = (accept_client init 4 (text "127.0.0.1")).1

connected-Consistent : Consistent connected
connected-Consistent = (accept_client-Consistent init 4 (text "127.0.0.1") init-Consistent).0

init-HasUniqueNames : HasUniqueNames init
init-HasUniqueNames = record { unique = λ i j h k a. cc }

init-IsQueue : IsQueue init
init-IsQueue = omega arith

leave_loop_run : leave_loop 3 7 0 (5 ∷ 7 ∷ 9 ∷ []) [] ≡ (5 ∷ 9 ∷ [], 5 ∷ 9 ∷ [])
unfolding leave_loop
leave_loop_run = refl

-- Another thread writes to the log.
abbrev logs : Server → Server
logs s = log_event s (text "INFO") (text "File queue is full, user waiting to send file.")

logs-Spares : (i : ℕ) → Spares logs i
unfolding log_event room_is_full find_room
logs-Spares i = record { keeps = λ s v. v; active = λ s a. a; space = λ s n h. h }

handler_round-Consistent_example :
    AfterRound Consistent (handler_round logs connected 0 7 chatting (some (text "/join lobby")))
handler_round-Consistent_example =
    handler_round-Consistent logs connected 0 7 chatting (some (text "/join lobby")) (logs-Spares 0)
      connected-Consistent

accept_client-Consistent_example :
    let (slot, t) = accept_client connected 5 (text "10.0.0.2") in
    Consistent t
    × (((slot ≡ none)
          × ((j : ℕ) → j < max_clients → (connected.clients j).active ≡ true)
          × (t.clients ≡ connected.clients)
          × (t.closed ≡ connected.closed ++ 5 ∷ []))
        ⊎ ((i : ℕ) × (slot ≡ some i)
            × (i < max_clients)
            × ((connected.clients i).active ≡ false)
            × ((t.clients i).socket ≡ 5)
            × ((t.clients i).active ≡ true)
            × ((j : ℕ) → i ≢ j → t.clients j ≡ connected.clients j)))
accept_client-Consistent_example =
    accept_client-Consistent connected 5 (text "10.0.0.2") connected-Consistent

handler_round-HasUniqueNames_example :
    AfterRound HasUniqueNames (handler_round (λ t. t) connected 0 7 naming (some (text "ada")))
handler_round-HasUniqueNames_example =
    handler_round-HasUniqueNames (λ t. t) connected 0 7 naming (some (text "ada")) (λ t v. v)
      (accept_client-HasUniqueNames init 4 (text "127.0.0.1") init-HasUniqueNames)

leave_loop-eq-others_example : leave_loop 3 7 0 (5 ∷ 7 ∷ 9 ∷ []) [] ≡ (5 ∷ 9 ∷ [], 5 ∷ 9 ∷ [])
leave_loop-eq-others_example = leave_loop-eq-others 7 (5 ∷ 7 ∷ 9 ∷ [])

-- The first request of a fresh server.
abbrev first_request : FileTransferRequest
first_request = request_of 0 1 (text "notes.txt") (pos 100) 50

add_to_file_queue-waiting_example :
    let (added, t) = add_to_file_queue (λ u. u) init 0 1 (text "notes.txt") (pos 100) 50 in
    let base = slot_state (λ u. u) init 0 in
    IsQueue t
    × (((added ≡ true) × (waiting t ≡ waiting base ++ first_request ∷ []))
        ⊎ ((added ≡ false) × (waiting t ≡ waiting base) × (length (waiting t) ≡ max_file_queue)))
add_to_file_queue-waiting_example =
    add_to_file_queue-waiting (λ u. u) init 0 1 (text "notes.txt") (pos 100) 50 (λ u q. q)
      init-IsQueue

-- Two requests wait, the first in the last slot of the ring.
abbrev two_waiting : Server
two_waiting = record init {
  file_queue = λ i. first_request;
  queue_head = 4;
  queue_size = 2;
  queue_tail = 1;
  empty_slots = 3;
  filled_slots = 2;
}

active-connected : (connected.clients 0).active ≡ true
unfolding accept_client first_from
active-connected = refl
