-- ===== src/Chat/Consistency/Rounds.antt =====
-- The tables stay consistent through connecting, logging in, commands, leaving and cleaning up.
use homeworks.Prelude.{
  ℕ, ◌≡◌, ◌≢◌, refl, sym, ap, ◌∙◌, inl, inr, [], Bool, true, false, not, Option, CString, length,
  update, ltb, if◌then◌else◌, Bool-cases, Option-cases, if_cases, arith, first_from,
  first_from-some, first_from-none, none, some, ◌⊎◌, ◌<◌, ◌∷◌, ◌++◌,
}
use homeworks.Chat.{Server, Client, Room, init, max_clients}
use homeworks.Chat.Rooms.{leave_room}
use homeworks.Chat.Dispatch.{handle_command}
use homeworks.Chat.Names.{username_matches, is_valid_username}
use homeworks.Chat.Session.{Phase, accept_client, login, cleanup_client, handler_round}
use homeworks.Chat.Consistency.{IsConsistent}
use homeworks.Chat.Consistency.Steps.{Consistent, leave_room-Consistent, leave_room-clients}
use homeworks.Chat.Consistency.Handlers.{
  Spares, quiet-Consistent, handle_join-Consistent, handle_leave-Consistent,
}
use homeworks.Chat.Consistency.Transfers.{After}
use homeworks.Chat.Consistency.Lives.{AfterRound, handle_command-keeps, handler_round-keeps}

-- A new record for a client that stays in its room.
swap-IsConsistent :
    (cs : ℕ → Client) (rs : ℕ → Room) (i : ℕ) (c : Client)
    → IsConsistent cs rs
    → c.current_room ≡ (cs i).current_room
    → (c.active ≡ false → c.current_room ≡ [])
    → IsConsistent (update cs i c) rs
swap-IsConsistent cs rs i c v same off = record {
  inside = v.inside;
  named = v.named;
  distinct = v.distinct;
  bounded = v.bounded;
  present = λ r j a e. v.present r j a (room_of j ∙ e);
  absent = λ r j a e. v.absent r j a (λ f. e (sym (room_of j) ∙ f));
  housed =
      λ j h. let (r, a, e) = v.housed j (λ f. h (sym (room_of j) ∙ f)) in (r, a, e ∙ room_of j);
  idle = λ j a. ground (arith, v.idle j, off);
}
  where
    room_of : (j : ℕ) → (cs j).current_room ≡ (update cs i c j).current_room
    room_of j = ground arith

pub init-Consistent : Consistent init
init-Consistent = record {
  inside = λ r a. cc;
  named = λ r a. cc;
  distinct = λ r q a. cc;
  bounded = λ r a. cc;
  present = λ r i a. cc;
  absent = λ r i a. cc;
  housed = λ i h. absurd (h refl);
  idle = λ i a. refl;
}

-- A new connection takes an unused slot of the table, and no other client changes; where every slot
-- is in use, it is closed and no client changes. The tables stay consistent either way.
pub accept_client-Consistent :
    (s : Server) (socket : ℕ) (address : CString)
    → Consistent s
    → let (slot, t) = accept_client s socket address in
      Consistent t
      × (((slot ≡ none)
            × ((j : ℕ) → j < max_clients → (s.clients j).active ≡ true)
            × (t.clients ≡ s.clients)
            × (t.closed ≡ s.closed ++ socket ∷ []))
          ⊎ ((i : ℕ) × (slot ≡ some i)
              × (i < max_clients)
              × ((s.clients i).active ≡ false)
              × ((t.clients i).socket ≡ socket)
              × ((t.clients i).active ≡ true)
              × ((j : ℕ) → i ≢ j → t.clients j ≡ s.clients j)))
unfolding accept_client
accept_client-Consistent s socket address v =
    elim (Option-cases (first_from (λ i. not (s.clients i).active) 0 max_clients)) [
      | inl full ↦
          rw (full, accept_client)
            (
              v,
              inl (
                refl,
                λ j h.
                    let used =
                      first_from-none (λ i. not (s.clients i).active) 0 max_clients j full
                        (omega arith) (omega arith) in
                    ground (arith, used),
                refl,
                refl,
              ),
            )
      | inr (i, free) ↦
          let hit = first_from-some (λ i. not (s.clients i).active) 0 max_clients i free in
          rw (free, accept_client)
            (
              swap-IsConsistent s.clients s.rooms i _ v (sym (v.idle i (ground (arith, hit.0))))
                  (λ _. refl),
              inr (
                i,
                refl,
                omega (arith, hit),
                ground (arith, hit.0),
                ground arith,
                ground arith,
                λ j ne. ground arith,
              ),
            )
    ]

login-Consistent :
    (s : Server) (i : ℕ) (buffer : CString) → Consistent s → Consistent (login s i buffer).1
unfolding login
login-Consistent s i buffer v =
    if_cases (λ (o : Bool × Server). Consistent o.1) (not (is_valid_username buffer)) (λ _. v)
      λ _. elim (Option-cases (first_from (username_matches s buffer) 0 max_clients)) [
        | inl free ↦ rw (free, login) (swap-IsConsistent s.clients s.rooms i _ v refl (v.idle i))
        | inr (j, taken) ↦ rw (taken, login) v
      ]

-- `cleanup_client` up to the last assignments: the client has left its room.
record Left (t : Server) (i : ℕ) : Type 0 where
  consistent : Consistent t
  roomless : (t.clients i).current_room ≡ []

leaver-Left :
    (s : Server) (i : ℕ)
    → Consistent s
    → Left (if ltb 0 (length (s.clients i).current_room) then leave_room s i else s) i
leaver-Left s i v =
    if_cases (λ t. Left t i) (ltb 0 (length (s.clients i).current_room))
      (λ h.
        let inside : (s.clients i).current_room ≢ [] = λ e. ground (arith, ap length e) in
        record {
          consistent = leave_room-Consistent s i v inside;
          roomless = rw (leave_room-clients s i v inside) (ground arith);
        })
      (λ h. record { consistent = v; roomless = ground arith })

pub cleanup_client-Consistent :
    (s : Server) (i : ℕ) → Consistent s → Consistent (cleanup_client s i)
unfolding cleanup_client
cleanup_client-Consistent s i v =
    let s1 = if ltb 0 (length (s.clients i).current_room) then leave_room s i else s in
    let out = leaver-Left s i v in
    if_cases Consistent (s.clients i).active
      (λ _. elim (Bool-cases s1.lost_connection) [
        | inl lost ↦ rw lost (
            swap-IsConsistent s1.clients s1.rooms i _ out.consistent (sym out.roomless) (λ _. refl))
        | inr kept ↦ rw kept (
            swap-IsConsistent s1.clients s1.rooms i _ out.consistent (sym out.roomless) (λ _. refl))
      ])
      (λ _. v)

-- Any line that an active client sends keeps the two tables consistent, if the other threads spare
-- the client meanwhile: no room passes its 15 users, no two active rooms share a name,
-- each client stands exactly once in the room of its `current_room` and in no other, and its room
-- is active. (A line that makes the program fault has no state after it.)
pub handle_command-Consistent :
    (others : Server → Server) (s : Server) (i : ℕ) (buffer : CString) (now : ℕ)
    → Spares others i
    → Consistent s
    → (s.clients i).active ≡ true
    → After Consistent (handle_command others s i buffer now)
handle_command-Consistent others s i buffer now o v a =
    handle_command-keeps Consistent (λ s t q w. quiet-Consistent w q) others o.keeps i
      (λ t n b w. handle_join-Consistent others t i n o w b) handle_leave-Consistent s buffer now a
      v

-- A whole round of `client_handler`, in each of its phases and whatever `recv` returns, keeps the
-- tables consistent: the login, a command, the loss of the connection and the clean-up after each.
-- The conditions are on the other threads, while this one sleeps in `/sendfile` or stands in
-- `/join` between the test for a full room and the entry: they keep the tables consistent, leave the
-- client's slot in use, and fill no room that was not full. In consistent tables no room has more
-- than 15 users, each client stands exactly once in the room of its `current_room` and in no other,
-- and its room is active. (A line that makes the program fault has no state after it.)
pub handler_round-Consistent :
    (others : Server → Server) (s : Server) (i now : ℕ) (phase : Phase) (input : Option CString)
    → Spares others i
    → Consistent s
    → AfterRound Consistent (handler_round others s i now phase input)
handler_round-Consistent others s i now phase input o v =
    handler_round-keeps Consistent (λ s t q w. quiet-Consistent w q) others o.keeps i
      (λ t n b w. handle_join-Consistent others t i n o w b) handle_leave-Consistent
      cleanup_client-Consistent login-Consistent s now phase input v
