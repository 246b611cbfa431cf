-- ===== src/Chat/Consistency/Steps.antt =====
-- `leave_room` and `join_room` keep the tables consistent.
use homeworks.Prelude.{
  ℕ, ◌≤◌, ◌≡◌, ◌≢◌, refl, sym, ap, ◌∙◌, inl, inr, [], Bool, true, false, not, some, CString, length,
  take, take-all, ◌==◌, Bool-cases, Option-cases, arith, update, length-keep-le,
}
use homeworks.Chat.{Server, max_room_name_len}
use homeworks.Chat.Names.{find_room}
use homeworks.Chat.Names.Searches.{find_room-some, find_room-none}
use homeworks.Chat.Rooms.{leave_users, leave_room}
use homeworks.Chat.Rooms.Leave.{others, leave_loop-eq-others}
use homeworks.Chat.Consistency.{IsConsistent}
use homeworks.Chat.Consistency.Leaving.{left_rooms, leaving-IsConsistent}
use homeworks.Chat.Consistency.Quiet.{leave_notify-IsQuiet}

abbrev pub Consistent : Server → Type 0
Consistent s = IsConsistent s.clients s.rooms

-- A client that is in a room is in one that `leave_room` finds.
pub found_room :
    (s : Server) (i : ℕ)
    → Consistent s
    → (s.clients i).current_room ≢ []
    → (r : ℕ) × (find_room s (take max_room_name_len (s.clients i).current_room) ≡ some r)
      × ((s.rooms r).active ≡ true)
      × ((s.clients i).current_room ≡ (s.rooms r).name)
found_room s i v h =
    let (q, a, n) = v.housed i h in
    let short =
      take-all max_room_name_len (s.clients i).current_room
        (ground (arith, v.named q a, ap length n)) in
    elim (Option-cases (find_room s (s.clients i).current_room)) [
      | inl missing ↦
          absurd (find_room-none s (s.clients i).current_room q missing (v.inside q a) a n)
      | inr (r, found) ↦
          let hit = find_room-some s (s.clients i).current_room r found in
          (r, rw short found, hit.0, sym hit.1)
    ]

-- The rooms of `leave_users` where the room is found.
leave_users-rooms :
    (s : Server) (i r : ℕ) (room_name : CString)
    → find_room s room_name ≡ some r
    → (s.rooms r).active ≡ true
    → (b : Bool) × ((leave_users s i room_name).0.rooms ≡ left_rooms s.clients s.rooms i r b)
      × ((leave_users s i room_name).0.clients ≡ s.clients)
      × (b ≡ false → length (others i (s.rooms r).users) ≡ 0)
unfolding leave_users
leave_users-rooms s i r room_name found alive =
    elim (Bool-cases (length (others i (s.rooms r).users) == 0)) [
      | inl emptied ↦ (
        false,
        rw (found, leave_users, leave_loop-eq-others, emptied) refl,
        rw (found, leave_users, leave_loop-eq-others, emptied) refl,
        λ _. ground arith,
      )
      | inr kept ↦ (
        (s.rooms r).active,
        rw (found, leave_users, leave_loop-eq-others, kept) refl,
        rw (found, leave_users, leave_loop-eq-others, kept) refl,
        λ e. absurd (ground arith),
      )
    ]

pub leave_room-tables :
    (s : Server) (i : ℕ)
    → let s1 = (leave_users s i (take max_room_name_len (s.clients i).current_room)).0 in
      ((leave_room s i).rooms ≡ s1.rooms)
      × ((leave_room s i).clients
          ≡ update s1.clients i (record (s1.clients i) { current_room = [] }))
unfolding leave_room
leave_room-tables s i =
    let out = leave_users s i (take max_room_name_len (s.clients i).current_room) in
    let s1 = out.0 in
    let quiet =
      leave_notify-IsQuiet
        (record s1 { clients = update s1.clients i (record (s1.clients i) { current_room = [] }) })
        i (s.clients i).username (take max_room_name_len (s.clients i).current_room) out.1 in
    (quiet.same_rooms, quiet.same_clients)

-- `leave_room` takes the client out of its room and changes no other client.
pub leave_room-clients :
    (s : Server) (i : ℕ)
    → Consistent s
    → (s.clients i).current_room ≢ []
    → (leave_room s i).clients ≡ update s.clients i (record (s.clients i) { current_room = [] })
leave_room-clients s i v h =
    let (r, found, alive, here) = found_room s i v h in
    let (b, rooms, clients, empty) =
      leave_users-rooms s i r (take max_room_name_len (s.clients i).current_room) found alive in
    (leave_room-tables s i).1 ∙ rw clients refl

pub leave_room-Consistent :
    (s : Server) (i : ℕ)
    → Consistent s
    → (s.clients i).current_room ≢ []
    → Consistent (leave_room s i)
leave_room-Consistent s i v h =
    let (r, found, alive, here) = found_room s i v h in
    let (b, rooms, clients, empty) =
      leave_users-rooms s i r (take max_room_name_len (s.clients i).current_room) found alive in
    rw ((leave_room-tables s i).0, (leave_room-tables s i).1, rooms, clients)
      (leaving-IsConsistent s.clients s.rooms i r b v alive here empty)

-- `leave_room` makes no room, renames none and adds nobody to one.
pub leave_room-users :
    (s : Server) (i q : ℕ)
    → Consistent s
    → (s.clients i).current_room ≢ []
    → ((leave_room s i).rooms q).active ≡ true
    → ((s.rooms q).active ≡ true)
      × (((leave_room s i).rooms q).name ≡ (s.rooms q).name)
      × (length ((leave_room s i).rooms q).users ≤ length (s.rooms q).users)
leave_room-users s i q v h =
    let (r, found, alive, here) = found_room s i v h in
    let (b, rooms, clients, empty) =
      leave_users-rooms s i r (take max_room_name_len (s.clients i).current_room) found alive in
    rw ((leave_room-tables s i).0, rooms)
      (λ a. ground (arith, length-keep-le (λ u. not (u == i)) (s.rooms r).users))
