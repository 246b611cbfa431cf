-- ===== src/Chat/Transfer.antt =====
-- server.c: what the file processor does with a request that it has taken from the queue.
use homeworks.Prelude.{
  ℕ, ◌-◌, [], ◌∷◌, ◌++◌, text, snprintf, concat, decimal, take, not, if◌then◌else◌,
}
use homeworks.Chat.{Server, FileTransferRequest, buffer_size, send_to_client, log_event, set_client}
use homeworks.Chat.Files.{
  file_exists_for_receiver, add_file_to_receiver, Turn, waits, stops, goes_on, take_request,
}

-- Before `sleep (3)`. `now` is not before the time at which the request was queued.
unfoldable pub start_transfer : Server → FileTransferRequest → ℕ → Server
unfolding send_to_client log_event
start_transfer s request now =
    let sender = s.clients request.sender in
    let seconds = decimal (now - request.queue_time) in
    let file = take 256 request.filename in
    log_event
      (send_to_client s sender.socket (
        snprintf buffer_size
          (concat (text "FILE_TRANSFER_STARTED " ∷ file ∷ text " " ∷ seconds ∷ []))))
      (text "FILE")
      (snprintf 512 (
        concat (
          text "'"
          ∷ file
          ∷ text "' from user '"
          ∷ take 16 sender.username
          ∷ text "' started upload after "
          ∷ seconds
          ∷ text " seconds in queue."
          ∷ [])))

-- Both branches tell the receiver and then the sender.
unfoldable pub notify_transfer : Server → FileTransferRequest → Server
unfolding send_to_client
notify_transfer s request =
    let sender = s.clients request.sender in
    let receiver = s.clients request.receiver in
    let file = take 256 request.filename in
    send_to_client
      (send_to_client s receiver.socket (
        snprintf buffer_size
          (concat (text "FILE_RECEIVED " ∷ take 16 sender.username ∷ text " " ∷ file ∷ []))))
      sender.socket
      (snprintf buffer_size (
        concat (text "FILE_TRANSFER_COMPLETE " ∷ file ∷ text " " ∷ take 16 receiver.username ∷ [])))

-- After `sleep (3)`.
unfoldable pub finish_transfer : Server → FileTransferRequest → Server
unfolding notify_transfer log_event add_file_to_receiver
finish_transfer s request =
    let receiver = s.clients request.receiver in
    let file = take 256 request.filename in
    let from_to = concat (
      file
      ∷ text "' sent from '"
      ∷ (s.clients request.sender).username
      ∷ text "' to '"
      ∷ receiver.username
      ∷ text "'."
      ∷ []) in
    if file_exists_for_receiver receiver.received_files request.filename
    then log_event
        (log_event (notify_transfer s request) (text "FILE")
          (snprintf 512 (concat (text "Conflict: '" ∷ file ∷ text "' received twice" ∷ []))))
        (text "SEND_FILE") (snprintf 512 (text "'" ++ from_to))
    else log_event
        (notify_transfer
          (set_client s request.receiver (add_file_to_receiver receiver request.filename)) request)
        (text "SEND_FILE") (snprintf 512 (text "'test_files/" ++ from_to))

unfoldable pub process_file_transfer : (Server → Server) → Server → FileTransferRequest → ℕ → Server
unfolding start_transfer finish_transfer
process_file_transfer others s request now =
    finish_transfer (others (start_transfer s request now)) request

-- One round of `file_queue_processor`. `others` is what the other threads do while it waits for
-- `filled_slots`, and again while it sleeps.
unfoldable pub processor_round : (Server → Server) → Server → ℕ → Turn Server
unfolding take_request process_file_transfer
processor_round others s now =
    if not s.server_running then stops s else elim (take_request (others s)) [
      | waits ↦ waits
      | stops s1 ↦ stops s1
      | goes_on (request, s1) ↦ goes_on (process_file_transfer others s1 request now)
    ]
