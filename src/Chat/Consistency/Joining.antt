-- ===== src/Chat/Consistency/Joining.antt =====
-- `join_room` keeps the tables consistent and puts the client into the room.
use homeworks.Prelude.{
  ◌+◌, ◌⊎◌, ℕ, ◌<◌, ◌≤◌, ◌≡◌, ◌≢◌, refl, sym, ap, ◌∙◌, inl, inr, [], true, false, not, Option, none,
  some, CString, length, ltb, if◌then◌else◌, Bool-cases, Option-cases, arith, first_from-some,
  first_from,
}
use homeworks.Chat.{Server, max_rooms, max_room_name_len, max_users_per_room}
use homeworks.Chat.Names.{find_room, is_valid_room_name}
use homeworks.Chat.Names.Searches.{find_room-some, find_room-none}
use homeworks.Chat.Rooms.{leave_room, create_room}
use homeworks.Chat.Join.{find_or_create_room}
use homeworks.Chat.Commands.{room_is_full}
use homeworks.Chat.Consistency.Entering.{created_rooms, creating-IsConsistent}
use homeworks.Chat.Consistency.Steps.{
  Consistent, leave_room-Consistent, leave_room-clients, leave_room-users,
}

-- A name that `is_valid_room_name` accepts is not empty and fits its array.
pub valid_name :
    (n : CString) → is_valid_room_name n ≡ true → (n ≢ []) × (length n ≤ max_room_name_len)
unfolding is_valid_room_name
valid_name n h = (λ e. ground (arith, ap length e), ground arith)

-- The active room of that name, if there is one, has a place left.
abbrev pub HasSpace : Server → CString → Type 0
HasSpace s n =
    (r : ℕ)
    → (s.rooms r).active ≡ true
    → (s.rooms r).name ≡ n
    → length (s.rooms r).users < max_users_per_room

pub not-full-HasSpace :
    (s : Server) (n : CString) → Consistent s → room_is_full s n ≡ false → HasSpace s n
unfolding room_is_full
not-full-HasSpace s n v h r a e = elim (Option-cases (find_room s n)) [
  | inl missing ↦ absurd (find_room-none s n r missing (v.inside r a) a e)
  | inr (q, found) ↦
      let hit = find_room-some s n q found in
      let same = v.distinct q r hit.0 a (hit.1 ∙ sym e) in
      ground (arith, rw (found, room_is_full) at h)
]

-- What `find_or_create_room` returns: an active room of that name, in consistent tables.
pub record Ready (s t : Server) (n : CString) (r : ℕ) : Type 0 where
  pub consistent : Consistent t
  pub alive : (t.rooms r).active ≡ true
  pub same_name : (t.rooms r).name ≡ n
  pub same_clients : t.clients ≡ s.clients
  pub space : length (t.rooms r).users < max_users_per_room

-- A search for a room that fails, or one that is ready to be entered.
abbrev pub Provides : Server → CString → Option (ℕ × Server) → Type 0
Provides s n out = (out ≡ none) ⊎ ((r : ℕ) × (t : Server) × (out ≡ some (r, t)) × Ready s t n r)

create_room-Ready :
    (s : Server) (n : CString)
    → Consistent s
    → (n ≢ []) × (length n ≤ max_room_name_len)
    → find_room s n ≡ none
    → Provides s n (create_room s n)
unfolding create_room
create_room-Ready s n v valid missing =
    elim (Option-cases (first_from (λ i. not (s.rooms i).active) 0 max_rooms)) [
      | inl full ↦ inl (rw (full, create_room))
      | inr (i, unused) ↦
          let hit = first_from-some (λ i. not (s.rooms i).active) 0 max_rooms i unused in
          let made =
            creating-IsConsistent s.clients s.rooms i n v (omega (arith, hit.2))
              (ground (arith, hit.0)) valid
              (λ q a. find_room-none s n q missing (v.inside q a) a) in
          inr (
            i,
            record s { rooms = created_rooms s.clients s.rooms i n; room_count = s.room_count + 1 },
            rw (unused, create_room),
            record {
              consistent = made;
              alive = ground arith;
              same_name = ground arith;
              same_clients = refl;
              space = ground arith;
            },
          )
    ]

pub find_or_create_room-Ready :
    (s : Server) (n : CString)
    → Consistent s
    → (n ≢ []) × (length n ≤ max_room_name_len)
    → HasSpace s n
    → Provides s n (find_or_create_room s n)
unfolding find_or_create_room
find_or_create_room-Ready s n v valid room = elim (Option-cases (find_room s n)) [
  | inl missing ↦ rw (missing, find_or_create_room) (create_room-Ready s n v valid missing)
  | inr (r, found) ↦
      let hit = find_room-some s n r found in
      inr (
        r,
        s,
        rw (found, find_or_create_room),
        record {
          consistent = v;
          alive = hit.0;
          same_name = hit.1;
          same_clients = refl;
          space = room r hit.0 hit.1;
        },
      )
]

-- The state from which `join_room` looks for the room: the client has left the one it was in.
abbrev pub left_first : Server → ℕ → Server
left_first s i = if ltb 0 (length (s.clients i).current_room) then leave_room s i else s

pub record Roomless (s t : Server) (i : ℕ) (n : CString) : Type 0 where
  pub consistent : Consistent t
  pub roomless : (t.clients i).current_room ≡ []
  pub connected : (t.clients i).active ≡ true
  pub room : HasSpace t n

pub left_first-Roomless :
    (s : Server) (i : ℕ) (n : CString)
    → Consistent s
    → (s.clients i).active ≡ true
    → HasSpace s n
    → Roomless s (left_first s i) i n
left_first-Roomless s i n v a room = elim (Bool-cases (ltb 0 (length (s.clients i).current_room))) [
  | inl housed ↦
      let h : (s.clients i).current_room ≢ [] = λ e. ground (arith, ap length e) in
      rw housed (record {
        consistent = leave_room-Consistent s i v h;
        roomless = rw (leave_room-clients s i v h) (ground arith);
        connected = rw (leave_room-clients s i v h) (ground arith);
        room = λ r b e.
            let was = leave_room-users s i r v h b in
            ground (arith, was, room r was.0 (sym was.1 ∙ e));
      })
  | inr outside ↦
      rw outside (record { consistent = v; roomless = ground arith; connected = a; room = room })
]
