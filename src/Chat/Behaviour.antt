-- ===== src/Chat/Behaviour.antt =====
-- What single commands do: a join, a transfer, and a slot's next client.
use homeworks.Prelude.{
  ℕ, ◌-◌, ◌≤◌, ◌<◌, ◌≡◌, ◌≢◌, refl, sym, ap, ◌∙◌, inl, inr, ◌⊎◌, [], ◌∷◌, ◌++◌, Bool, true, false,
  not, Option, some, CString, length, take, update, ltb, Bool-cases, Option-cases, if_cases, arith,
  first_from,
}
use homeworks.Chat.{
  Server, Client, FileTransferRequest, max_clients, max_received_files, buffer_size, set_client,
}
use homeworks.Chat.Names.{find_room, is_valid_room_name}
use homeworks.Chat.Names.Searches.{find_room-some, find_room-none}
use homeworks.Chat.Join.{join_room}
use homeworks.Chat.Files.{file_exists_for_receiver, add_file_to_receiver}
use homeworks.Chat.Transfer.{notify_transfer, finish_transfer}
use homeworks.Chat.Commands.{room_is_full}
use homeworks.Chat.Session.{accept_client, cleanup_client}
use homeworks.Chat.Consistency.{count}
use homeworks.Chat.Consistency.Steps.{Consistent}
use homeworks.Chat.Consistency.Joining.{valid_name, not-full-HasSpace}
use homeworks.Chat.Consistency.Joined.{Joins, joined, refused, join_room-Joins}

-- The room of a client is the one that `find_room` finds under its name.
room_of_client :
    (t : Server) (i : ℕ) (n : CString)
    → Consistent t
    → n ≢ []
    → (t.clients i).current_room ≡ n
    → (r : ℕ) × (find_room t n ≡ some r) × (count i (t.rooms r).users ≡ 1)
room_of_client t i n v h e =
    let (q, a, m) = v.housed i (λ z. h (sym e ∙ z)) in
    elim (Option-cases (find_room t n)) [
      | inl missing ↦ absurd (find_room-none t n q missing (v.inside q a) a (m ∙ e))
      | inr (r, found) ↦
          let hit = find_room-some t n r found in (r, found, v.present r i hit.0 (e ∙ sym hit.1))
    ]

-- In consistent tables `join_room`, called for an active client with a valid name of a room that
-- is not full, either returns 1, and the client stands exactly once in the room that `find_room`
-- then finds, which its `current_room` names; or it returns 0, and the client is in no room, also
-- where it was in one before.
pub join_room_lem :
    (s : Server) (i : ℕ) (n : CString)
    → Consistent s
    → (s.clients i).active ≡ true
    → is_valid_room_name n ≡ true
    → room_is_full s n ≡ false
    → let (ok, t) = join_room s i n in
      ((ok ≡ true)
        × ((t.clients i).current_room ≡ n)
        × ((r : ℕ) × (find_room t n ≡ some r) × (count i (t.rooms r).users ≡ 1)))
      ⊎ ((ok ≡ false) × ((t.clients i).current_room ≡ []))
join_room_lem s i n v a valid space =
    go (join_room s i n)
      (join_room-Joins s i n v a (valid_name n valid) (not-full-HasSpace s n v space))
  where
    go :
        (out : Bool × Server)
        → Joins s i n out
        → ((out.0 ≡ true)
            × ((out.1.clients i).current_room ≡ n)
            × ((r : ℕ) × (find_room out.1 n ≡ some r) × (count i (out.1.rooms r).users ≡ 1)))
          ⊎ ((out.0 ≡ false) × ((out.1.clients i).current_room ≡ []))
    go out (joined e entered) = inl (
      e,
      entered.in_room,
      room_of_client out.1 i n entered.consistent (valid_name n valid).0 entered.in_room,
    )
    go out (refused e roomless) = inr (ap (λ (o : Bool × Server). o.0) e, roomless.roomless)

accept-history :
    (s t : Server) (i socket : ℕ) (address : CString)
    → accept_client s socket address ≡ (some i, t)
    → ((t.clients i).username ≡ [])
      × ((t.clients i).previously_joined_rooms ≡ (s.clients i).previously_joined_rooms)
      × ((t.clients i).received_files ≡ (s.clients i).received_files)
unfolding accept_client
accept-history s t i socket address e =
    elim (Option-cases (first_from (λ i. not (s.clients i).active) 0 max_clients)) [
      | inl full ↦ cc (rw (full, accept_client) at e)
      | inr (j, free) ↦
          let e' = rw (free, accept_client) at e in
          let same : j ≡ i = cc (ap (λ (o : Option ℕ × Server). o.0) e') in
          let state = ap (λ (o : Option ℕ × Server). o.1.clients i) e' in
          ground (arith, state, same)
    ]

cleanup-history :
    (s : Server) (i : ℕ)
    → (s.clients i).current_room ≡ []
    → (((cleanup_client s i).clients i).previously_joined_rooms
        ≡ (s.clients i).previously_joined_rooms)
      × (((cleanup_client s i).clients i).received_files ≡ (s.clients i).received_files)
unfolding cleanup_client
cleanup-history s i outside =
    let here : ltb 0 (length (s.clients i).current_room) ≡ false = rw outside refl in
    rw here (ground arith)

-- What the server remembers of a client outlives it: when a client that has left its room is
-- cleaned up and the next connection gets its slot, the new client, still without a name, has the
-- old one's list of rooms joined and list of files received.
pub accept-cleanup :
    (s t : Server) (i socket : ℕ) (address : CString)
    → (s.clients i).current_room ≡ []
    → accept_client (cleanup_client s i) socket address ≡ (some i, t)
    → ((t.clients i).username ≡ [])
      × ((t.clients i).previously_joined_rooms ≡ (s.clients i).previously_joined_rooms)
      × ((t.clients i).received_files ≡ (s.clients i).received_files)
accept-cleanup s t i socket address outside e =
    let new = accept-history (cleanup_client s i) t i socket address e in
    let old = cleanup-history s i outside in (new.0, new.1 ∙ old.0, new.2 ∙ old.1)

received_names :
    (cs : ℕ → Client) (r i : ℕ) (f : CString)
    → ((update cs r (add_file_to_receiver (cs r) f) i).socket ≡ (cs i).socket)
      × ((update cs r (add_file_to_receiver (cs r) f) i).username ≡ (cs i).username)
unfolding add_file_to_receiver
received_names cs r i f = ground arith

notify_transfer-outbox :
    (s t : Server) (request : FileTransferRequest)
    → t.outbox ≡ s.outbox
    → ((i : ℕ) → (t.clients i).socket ≡ (s.clients i).socket)
    → ((i : ℕ) → (t.clients i).username ≡ (s.clients i).username)
    → (notify_transfer t request).outbox ≡ (notify_transfer s request).outbox
unfolding notify_transfer
notify_transfer-outbox s t request e sockets names =
    rw
      (
        e,
        sockets request.sender,
        sockets request.receiver,
        names request.sender,
        names request.receiver,
      )
      refl

received-outbox :
    (s : Server) (request : FileTransferRequest)
    → (notify_transfer
        (set_client s request.receiver
          (add_file_to_receiver (s.clients request.receiver) request.filename))
        request).outbox
      ≡ (notify_transfer s request).outbox
received-outbox s request =
    let r = request.receiver in
    let c = add_file_to_receiver (s.clients r) request.filename in
    notify_transfer-outbox s (set_client s r c) request refl
      (λ i. (received_names s.clients r i request.filename).0)
      (λ i. (received_names s.clients r i request.filename).1)

finish_transfer-outbox :
    (s : Server) (request : FileTransferRequest)
    → (finish_transfer s request).outbox ≡ (notify_transfer s request).outbox
unfolding finish_transfer
finish_transfer-outbox s request =
    if_cases (λ (t : Server). t.outbox ≡ (notify_transfer s request).outbox)
      (file_exists_for_receiver (s.clients request.receiver).received_files request.filename)
      (λ _. refl) (λ _. received-outbox s request)

finish_transfer-files :
    (s : Server) (request : FileTransferRequest)
    → let files = (s.clients request.receiver).received_files in
      let files' = ((finish_transfer s request).clients request.receiver).received_files in
      let known = file_exists_for_receiver files request.filename in
      ((known ≡ false)
        × (length files < max_received_files)
        × (files' ≡ files ++ take (buffer_size - 1) request.filename ∷ []))
      ⊎ (((known ≡ true) ⊎ (max_received_files ≤ length files)) × (files' ≡ files))
unfolding finish_transfer
finish_transfer-files s request =
    let files = (s.clients request.receiver).received_files in
    elim (Bool-cases (file_exists_for_receiver files request.filename)) [
      | inl known ↦ rw known (inr (inl refl, refl))
      | inr new ↦ elim (Bool-cases (ltb (length files) max_received_files)) [
        | inl room ↦ rw (new, room) (inl (refl, ground arith, ground arith))
        | inr full ↦ rw (new, full) (inr (inr (ground arith), ground arith))
      ]
    ]

-- A transfer sends one message to the receiver and then one to the sender, the same whether the
-- receiver had a file of that name or not. The receiver's list of names grows by this one exactly
-- where it did not hold it and had fewer than 50.
pub finish_transfer_lem :
    (s : Server) (request : FileTransferRequest)
    → let t = finish_transfer s request in
      let files = (s.clients request.receiver).received_files in
      let files' = (t.clients request.receiver).received_files in
      let known = file_exists_for_receiver files request.filename in
      (t.outbox ≡ (notify_transfer s request).outbox)
      × (((known ≡ false)
            × (length files < max_received_files)
            × (files' ≡ files ++ take (buffer_size - 1) request.filename ∷ []))
          ⊎ (((known ≡ true) ⊎ (max_received_files ≤ length files)) × (files' ≡ files)))
finish_transfer_lem s request = (finish_transfer-outbox s request, finish_transfer-files s request)
