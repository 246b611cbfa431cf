-- ===== src/Chat/Files.antt =====
-- server.c: the file transfers. A request waits in a ring of `max_file_queue` slots, guarded by
-- two counting semaphores; `others` is what the other threads do while one of them sleeps.
use homeworks.Prelude.{
  ℕ, ◌+◌, ◌-◌, ◌*◌, ◌%◌, List, [], ◌∷◌, ◌++◌, Bool, true, false, not, ◌||◌, none, some, CString,
  text, streq, strcaseeq, strrchr, snprintf, concat, decimal, decimal_int, ℤ, pos, negsuc, length,
  take, drop, update, ltb, if◌then◌else◌,
}
use homeworks.Chat.{
  Server, Client, FileTransferRequest, max_file_queue, max_received_files, buffer_size,
  send_to_client, log_event,
}
use homeworks.Chat.Names.{find_client_by_username}

unfoldable pub file_exists_for_receiver : List CString → CString → Bool
file_exists_for_receiver [] filename = false
file_exists_for_receiver (f ∷ fs) filename =
    if streq f filename then true else file_exists_for_receiver fs filename

unfoldable pub add_file_to_receiver : Client → CString → Client
add_file_to_receiver receiver filename =
    if ltb (length receiver.received_files) max_received_files
    then record receiver {
      received_files = receiver.received_files ++ take (buffer_size - 1) filename ∷ [];
    }
    else receiver

-- The part of `add_to_file_queue` under `queue_mutex`, and the `sem_post` after it.
unfoldable pub enqueue_request : Server → ℕ → ℕ → CString → ℤ → ℕ → Server
unfolding send_to_client log_event
enqueue_request s sender receiver filename file_size now =
    let request : FileTransferRequest = record {
      sender = sender;
      receiver = receiver;
      filename = take (buffer_size - 1) filename;
      file_size = file_size;
      queue_time = now;
      active = true;
    } in
    let s1 : Server = record s {
      file_queue = update s.file_queue s.queue_tail request;
      queue_tail = (s.queue_tail + 1) % max_file_queue;
      queue_size = s.queue_size + 1;
      filled_slots = s.filled_slots + 1;
    } in
    let c = s.clients sender in
    let s2 =
      send_to_client s1 c.socket
        (snprintf buffer_size (text "FILE_QUEUED " ++ decimal s1.queue_size)) in
    log_event s2 (text "FILE-QUEUE") (
      snprintf 512 (
        concat (
          text "Upload '"
          ∷ filename
          ∷ text "' from "
          ∷ take 16 c.username
          ∷ text " added to queue."
          ∷ [])))

-- What a sender is told while the queue is full.
unfoldable pub announce_full : Server → ℕ → Server
unfolding send_to_client log_event
announce_full s sender =
    log_event (send_to_client s (s.clients sender).socket (text "FILE_QUEUE_FULL")) (text "INFO")
      (text "File queue is full, user waiting to send file.")

-- `sem_trywait`, then `sem_timedwait` for at most 20 seconds, during which `others` act. The
-- result is the function's, 1 or 0, and the state.
unfoldable pub add_to_file_queue :
    (Server → Server) → Server → ℕ → ℕ → CString → ℤ → ℕ → Bool × Server
unfolding enqueue_request announce_full
add_to_file_queue others s sender receiver filename file_size now =
    let s1 = others (announce_full s sender) in
    let names = concat (
      text "File transfer from '"
      ∷ take 16 (s1.clients sender).username
      ∷ text "' to '"
      ∷ take 16 (s1.clients receiver).username
      ∷ text "' cannot be performed, queue is full"
      ∷ []) in
    if ltb 0 s.empty_slots
    then (
      true,
      enqueue_request (record s { empty_slots = s.empty_slots - 1 }) sender receiver filename
          file_size now,
    )
    else if ltb 0 s1.empty_slots
    then (
      true,
      enqueue_request (record s1 { empty_slots = s1.empty_slots - 1 }) sender receiver filename
          file_size now,
    )
    else (
      false,
      log_event (send_to_client s1 (s1.clients sender).socket (text "FILE_QUEUE_STILL_FULL"))
          (text "ERROR") (snprintf 512 names),
    )

-- `file_size > 3 * 1024 * 1024`
unfoldable pub exceeds_limit : ℤ → Bool
exceeds_limit (pos n) = ltb (3 * 1024 * 1024) n
exceeds_limit (negsuc n) = false

unfoldable pub has_valid_extension : CString → Bool
has_valid_extension filename = elim (strrchr filename b'.') [
  | none ↦ false
  | some extension ↦
      let e = drop 1 extension in
      strcaseeq e (text "txt")
      || strcaseeq e (text "pdf")
      || strcaseeq e (text "jpg")
      || strcaseeq e (text "png")
]

-- A reply that refuses, and its log line.
abbrev pub refuse : Server → ℕ → CString → CString → CString → Server
refuse s client reply type message =
    log_event (send_to_client s (s.clients client).socket reply) type (snprintf 512 message)

unfoldable pub handle_file_transfer :
    (Server → Server) → Server → ℕ → CString → CString → ℤ → ℕ → Server
unfolding has_valid_extension exceeds_limit
handle_file_transfer others s client filename target_username file_size now =
    let c = s.clients client in
    let user = text "user '" ++ take 16 c.username in
    if streq c.username target_username
    then refuse s client (text "SEND_TO_SELF") (text "REJECTED")
        (user ++ text "' tried to send a file to themselves")
    else if exceeds_limit file_size
    then refuse s client (snprintf buffer_size (text "FILE_IS_LARGE " ++ decimal_int file_size))
        (text "ERROR")
        (concat (
          text "File '"
          ∷ filename
          ∷ text "' from user '"
          ∷ c.username
          ∷ text "' exceeds size limit."
          ∷ []))
    else if has_valid_extension filename
    then elim (find_client_by_username s target_username) [
      | none ↦ refuse s client (text "USER_NOT_FOUND") (text "REJECTED") (
          concat (
            user
            ∷ text "' tried to send file to non-existent user '"
            ∷ take 16 target_username
            ∷ text "'"
            ∷ []))
      | some target ↦
          (add_to_file_queue others
            (log_event s (text "FILE_TRANSFER_REQUEST") (
              snprintf 512 (
                concat (
                  user
                  ∷ text "' requested to send file '"
                  ∷ take 64 filename
                  ∷ text "' ("
                  ∷ decimal_int file_size
                  ∷ text " bytes) to user '"
                  ∷ take 16 target_username
                  ∷ text "'"
                  ∷ []))))
            client target filename file_size now).1
    ]
    else refuse s client (text "WRONG_EXTENSION") (text "REJECTED") (
        concat
          (user ∷ text "' tried to send a file with invalid extension: " ∷ take 64 filename ∷ []))

-- How a turn of `file_queue_processor` ends: it still waits for `filled_slots`, it has left its loop,
-- or it has got past.
pub data Turn (A : Type 0) : Type 0 where
  waits : Turn A
  stops : Server → Turn A
  goes_on : A → Turn A

-- The body of `file_queue_processor` from `sem_wait` up to `process_file_transfer`. Where the server
-- stopped while it waited, it leaves the loop.
unfoldable pub take_request : Server → Turn (FileTransferRequest × Server)
take_request s =
    let s1 : Server = record s { filled_slots = s.filled_slots - 1 } in
    let s2 : Server = record s1 {
      file_queue =
          update s.file_queue s.queue_head (record (s.file_queue s.queue_head) { active = false });
      queue_head = (s.queue_head + 1) % max_file_queue;
      queue_size = s.queue_size - 1;
      empty_slots = s.empty_slots + 1;
    } in
    if ltb 0 s.filled_slots
    then if not s.server_running then stops s1 else goes_on (s.file_queue s.queue_head, s2)
    else waits
