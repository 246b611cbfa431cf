-- ===== src/Chat/Usernames.antt =====
-- No two connected clients bear the same username.
use homeworks.Prelude.{
  ℕ, ◌+◌, ◌<◌, ◌≡◌, ◌≢◌, ◌⊎◌, refl, sym, ap, ◌∙◌, inl, inr, [], Bool, true, not, Option, none, some,
  CString, length, take, update, ltb, ◌==◌, if◌then◌else◌, Bool-cases, Option-cases, if_cases,
  arith, first_from, streq,
}
use homeworks.Chat.{Server, Client, max_clients, max_rooms, max_room_name_len}
use homeworks.Chat.Names.{find_room, is_valid_room_name, is_valid_username, username_matches}
use homeworks.Chat.Names.Searches.{username_free}
use homeworks.Chat.Rooms.{leave_users, leave_room, create_room}
use homeworks.Chat.Join.{find_or_create_room, enter_room, join_room, joined_before}
use homeworks.Chat.Commands.{handle_join, handle_leave, room_is_full}
use homeworks.Chat.Session.{Phase, accept_client, login, cleanup_client, handler_round}
use homeworks.Chat.Consistency.Quiet.{
  IsQuiet, refuse-IsQuiet, send-IsQuiet, log_event-IsQuiet, log_join-IsQuiet, notify_join-IsQuiet,
}
use homeworks.Chat.Consistency.Steps.{leave_room-tables}
use homeworks.Chat.Consistency.Lives.{AfterRound, handler_round-keeps}

pub record HasUniqueNames (s : Server) : Type 0 where
  pub unique :
      (i j : ℕ)
      → i < max_clients
      → j < max_clients
      → (s.clients i).active ≡ true
      → (s.clients j).active ≡ true
      → (s.clients i).username ≡ (s.clients j).username
      → (s.clients i).username ≢ []
      → i ≡ j

-- Nobody's name changes, and nobody comes or goes.
record SameNames (s t : Server) : Type 0 where
  same_name : (i : ℕ) → (t.clients i).username ≡ (s.clients i).username
  same_active : (i : ℕ) → (t.clients i).active ≡ (s.clients i).active

SameNames-trans : {s t u : Server} → SameNames s t → SameNames t u → SameNames s u
SameNames-trans p q = record {
  same_name = λ i. q.same_name i ∙ p.same_name i;
  same_active = λ i. q.same_active i ∙ p.same_active i;
}

SameNames-keeps : {s t : Server} → SameNames s t → HasUniqueNames s → HasUniqueNames t
SameNames-keeps q u = record {
  unique = λ i j h k a b e n.
      u.unique i j h k (sym (q.same_active i) ∙ a) (sym (q.same_active j) ∙ b)
        (sym (q.same_name i) ∙ e ∙ q.same_name j) (λ z. n (q.same_name i ∙ z));
}

quiet-SameNames : {s t : Server} → IsQuiet s t → SameNames s t
quiet-SameNames q = record {
  same_name = λ i. ap (λ (f : ℕ → Client). (f i).username) q.same_clients;
  same_active = λ i. ap (λ (f : ℕ → Client). (f i).active) q.same_clients;
}

leave_users-clients : (s : Server) (i : ℕ) (n : CString) → (leave_users s i n).0.clients ≡ s.clients
unfolding leave_users
leave_users-clients s i n = elim (Option-cases (find_room s n)) [
  | inl missing ↦ rw (missing, leave_users) refl
  | inr (r, found) ↦ rw (found, leave_users) (ground arith)
]

leave_room-SameNames : (s : Server) (i : ℕ) → SameNames s (leave_room s i)
leave_room-SameNames s i =
    let n = take max_room_name_len (s.clients i).current_room in
    record {
      same_name = λ j. rw ((leave_room-tables s i).1, leave_users-clients s i n) (ground arith);
      same_active = λ j. rw ((leave_room-tables s i).1, leave_users-clients s i n) (ground arith);
    }

find_or_create_room-clients :
    (s : Server) (n : CString)
    → (find_or_create_room s n ≡ none)
      ⊎ ((r : ℕ) × (t : Server) × (find_or_create_room s n ≡ some (r, t)) × (t.clients ≡ s.clients))
unfolding find_or_create_room create_room
find_or_create_room-clients s n = elim (Option-cases (find_room s n)) [
  | inr (r, found) ↦ inr (r, s, rw (found, find_or_create_room), refl)
  | inl missing ↦ elim (Option-cases (first_from (λ i. not (s.rooms i).active) 0 max_rooms)) [
    | inl full ↦ inl (rw (missing, find_or_create_room) (rw (full, create_room)))
    | inr (r, free) ↦ inr (
      r,
      record s {
        rooms = update s.rooms r (record { name = n; users = []; active = true });
        room_count = s.room_count + 1;
      },
      rw (missing, find_or_create_room) (rw (free, create_room)),
      refl,
    )
  ]
]

enter_room-SameNames :
    (s : Server) (i r : ℕ) (n : CString) (rejoining : Bool)
    → SameNames s (enter_room s i r n rejoining)
unfolding enter_room
enter_room-SameNames s i r n rejoining = record {
  same_name = λ j. ground arith;
  same_active = λ j. ground arith;
}

join_room-SameNames : (s : Server) (i : ℕ) (n : CString) → SameNames s (join_room s i n).1
unfolding join_room
join_room-SameNames s i n =
    let inside = ltb 0 (length (s.clients i).current_room) in
    let s1 = if inside then leave_room s i else s in
    let left : SameNames s s1 =
      if_cases (SameNames s) inside (λ _. leave_room-SameNames s i)
        (λ _. record { same_name = λ j. refl; same_active = λ j. refl }) in
    elim (find_or_create_room-clients s1 n) [
      | inl full ↦ rw (full, join_room) left
      | inr (r, t, found, same) ↦
          let rejoining = joined_before (s.clients i).previously_joined_rooms n in
          let s3 = enter_room t i r n rejoining in
          let logged =
            log_join-IsQuiet s3 (s.clients i).username
              (take max_room_name_len (s.clients i).current_room) n inside rejoining in
          let told = notify_join-IsQuiet _ i n (s3.rooms r).users rejoining in
          let made : SameNames s1 t = record {
            same_name = λ j. ap (λ (f : ℕ → Client). (f j).username) same;
            same_active = λ j. ap (λ (f : ℕ → Client). (f j).active) same;
          } in
          rw (found, join_room)
            (SameNames-trans left (
              SameNames-trans made (
                SameNames-trans (enter_room-SameNames t i r n rejoining)
                  (SameNames-trans (quiet-SameNames logged) (quiet-SameNames told)))))
    ]

handle_join-HasUniqueNames :
    (others : Server → Server) (s : Server) (i : ℕ) (n : CString)
    → ((t : Server) → HasUniqueNames t → HasUniqueNames (others t))
    → HasUniqueNames s
    → HasUniqueNames (handle_join others s i n)
unfolding handle_join
handle_join-HasUniqueNames others s i n keeps u =
    let refused = λ (reply type message : CString).
      SameNames-keeps (quiet-SameNames (refuse-IsQuiet s i reply type message)) u in
    if_cases HasUniqueNames (not (is_valid_room_name n)) (λ _. refused _ _ _)
      λ _.
        if_cases HasUniqueNames (streq (s.clients i).current_room n) (λ _. refused _ _ _)
          λ _.
            if_cases HasUniqueNames (room_is_full s n) (λ _. refused _ _ _)
              λ _.
                if_cases HasUniqueNames (join_room (others s) i n).0
                  (λ _.
                    SameNames-keeps
                      (SameNames-trans (join_room-SameNames (others s) i n)
                        (quiet-SameNames (send-IsQuiet _ _ _)))
                      (keeps s u))
                  (λ _.
                    SameNames-keeps
                      (SameNames-trans (join_room-SameNames (others s) i n)
                        (quiet-SameNames (send-IsQuiet _ _ _)))
                      (keeps s u))

handle_leave-SameNames : (s : Server) (i : ℕ) → SameNames s (handle_leave s i)
unfolding handle_leave
handle_leave-SameNames s i =
    if_cases (SameNames s) (length (s.clients i).current_room == 0)
      (λ _. quiet-SameNames (refuse-IsQuiet s i _ _ _))
      (λ _. SameNames-trans (leave_room-SameNames s i) (quiet-SameNames (send-IsQuiet _ _ _)))

-- A client's record replaced: its name is empty, or nobody else's.
swap-HasUniqueNames :
    (s t : Server) (i : ℕ) (c : Client)
    → t.clients ≡ update s.clients i c
    → HasUniqueNames s
    → ((j : ℕ)
        → j < max_clients
        → (s.clients j).active ≡ true
        → c.username ≢ []
        → (s.clients j).username ≢ c.username)
    → HasUniqueNames t
swap-HasUniqueNames s t i c e u fresh = record {
  unique = rw e (λ j k h l a b same n. ground (arith, u.unique j k h l, fresh j h, fresh k l));
}

-- A new connection, which has no name yet, keeps the usernames distinct.
pub accept_client-HasUniqueNames :
    (s : Server) (socket : ℕ) (address : CString)
    → HasUniqueNames s
    → HasUniqueNames (accept_client s socket address).1
unfolding accept_client
accept_client-HasUniqueNames s socket address u =
    elim (Option-cases (first_from (λ i. not (s.clients i).active) 0 max_clients)) [
      | inl full ↦
          rw (full, accept_client)
            (SameNames-keeps (record { same_name = λ j. refl; same_active = λ j. refl }) u)
      | inr (i, free) ↦
          rw (free, accept_client) (swap-HasUniqueNames s _ i _ refl u (λ j h a n. absurd (n refl)))
    ]

login-HasUniqueNames :
    (s : Server) (i : ℕ) (buffer : CString) → HasUniqueNames s → HasUniqueNames (login s i buffer).1
unfolding login
login-HasUniqueNames s i buffer u =
    if_cases (λ (o : Bool × Server). HasUniqueNames o.1) (not (is_valid_username buffer))
      (λ _.
        SameNames-keeps
          (SameNames-trans (quiet-SameNames (send-IsQuiet s _ _))
            (quiet-SameNames (log_event-IsQuiet _ _ _)))
          u)
      λ _. elim (Option-cases (first_from (username_matches s buffer) 0 max_clients)) [
        | inl free ↦
            rw (free, login)
              (swap-HasUniqueNames s _ i _ refl u (λ j h a n. username_free s buffer j free h a))
        | inr (j, taken) ↦
            rw (taken, login) (SameNames-keeps (quiet-SameNames (refuse-IsQuiet s i _ _ _)) u)
      ]

cleanup_client-HasUniqueNames :
    (s : Server) (i : ℕ) → HasUniqueNames s → HasUniqueNames (cleanup_client s i)
unfolding cleanup_client
cleanup_client-HasUniqueNames s i u =
    let inside = ltb 0 (length (s.clients i).current_room) in
    let s1 = if inside then leave_room s i else s in
    let left : SameNames s s1 =
      if_cases (SameNames s) inside (λ _. leave_room-SameNames s i)
        (λ _. record { same_name = λ j. refl; same_active = λ j. refl }) in
    if_cases HasUniqueNames (s.clients i).active
      (λ _. elim (Bool-cases s1.lost_connection) [
        | inl lost ↦ rw lost (
            swap-HasUniqueNames s1 _ i _ refl (SameNames-keeps left u) (λ j h a n. absurd (n refl)))
        | inr kept ↦ rw kept (
            swap-HasUniqueNames s1 _ i _ refl (SameNames-keeps left u) (λ j h a n. absurd (n refl)))
      ])
      (λ _. u)

-- Through every round of `client_handler` no two connected clients have the same username, if
-- what the other threads do while `/sendfile` waits, or in `/join` before the entry, keeps it so. A client that has not been given
-- a name yet has the empty one.
pub handler_round-HasUniqueNames :
    (others : Server → Server) (s : Server) (i now : ℕ) (phase : Phase) (input : Option CString)
    → ((t : Server) → HasUniqueNames t → HasUniqueNames (others t))
    → HasUniqueNames s
    → AfterRound HasUniqueNames (handler_round others s i now phase input)
handler_round-HasUniqueNames others s i now phase input keeps u =
    handler_round-keeps HasUniqueNames (λ s t q w. SameNames-keeps (quiet-SameNames q) w) others
      keeps i (λ t n b w. handle_join-HasUniqueNames others t i n keeps w)
      (λ t j w. SameNames-keeps (handle_leave-SameNames t j) w) cleanup_client-HasUniqueNames
      login-HasUniqueNames s now phase input u
