-- ===== src/Chat/Consistency.antt =====
-- What ties the clients to the rooms: the tables `clients` and `rooms` of server.h agree.
pub mod Leaving
pub mod Entering
pub mod Quiet
pub mod Steps
pub mod Joining
pub mod Transfers
pub mod Joined
pub mod Handlers
pub mod Lives
pub mod Rounds
use homeworks.Prelude.{
  ℕ, zero, suc, ◌+◌, ◌≤◌, ◌<◌, ◌≡◌, ◌≢◌, refl, ◌⊎◌, List, [], ◌∷◌, ◌++◌, Bool, true, false, CString,
  length, keep, not, ◌==◌, if◌then◌else◌, arith,
}
use homeworks.Chat.{Client, Room, max_rooms, max_users_per_room, max_room_name_len}
use homeworks.Chat.Rooms.Leave.{others}

-- How often a client stands in a list of users.
abbrev pub count : ℕ → List ℕ → ℕ
count i [] = 0
count i (u ∷ us) = if u == i then suc (count i us) else count i us

pub count-append : (i : ℕ) (us vs : List ℕ) → count i (us ++ vs) ≡ count i us + count i vs
count-append i [] vs = omega arith
count-append i (u ∷ us) vs = ground (arith, count-append i us vs)

pub count-others_self : (i : ℕ) (us : List ℕ) → count i (others i us) ≡ 0
count-others_self i [] = refl
count-others_self i (u ∷ us) = ground (arith, count-others_self i us)

pub count-others_ne : (i j : ℕ) (us : List ℕ) → i ≢ j → count j (others i us) ≡ count j us
count-others_ne i j [] h = refl
count-others_ne i j (u ∷ us) h = ground (arith, count-others_ne i j us)

pub count-le-length : (i : ℕ) (us : List ℕ) → count i us ≤ length us
count-le-length i [] = omega arith
count-le-length i (u ∷ us) = ground (arith, count-le-length i us)

-- An active room lies in the table, has a name of 1 to 32 bytes that no other active room has, and
-- at most 15 users. A client stands once in the active room that its `current_room` names, and
-- in no other. A client that is in a room is in an active one, and an unused slot is in none.
pub record IsConsistent (cs : ℕ → Client) (rs : ℕ → Room) : Type 0 where
  pub inside : (r : ℕ) → (rs r).active ≡ true → r < max_rooms
  pub named :
      (r : ℕ) → (rs r).active ≡ true → ((rs r).name ≢ []) × (length (rs r).name ≤ max_room_name_len)
  pub distinct :
      (r q : ℕ) → (rs r).active ≡ true → (rs q).active ≡ true → (rs r).name ≡ (rs q).name → r ≡ q
  pub bounded : (r : ℕ) → (rs r).active ≡ true → length (rs r).users ≤ max_users_per_room
  pub present :
      (r i : ℕ)
      → (rs r).active ≡ true
      → (cs i).current_room ≡ (rs r).name
      → count i (rs r).users ≡ 1
  pub absent :
      (r i : ℕ)
      → (rs r).active ≡ true
      → (cs i).current_room ≢ (rs r).name
      → count i (rs r).users ≡ 0
  pub housed :
      (i : ℕ)
      → (cs i).current_room ≢ []
      → (r : ℕ) × ((rs r).active ≡ true) × ((rs r).name ≡ (cs i).current_room)
  pub idle : (i : ℕ) → (cs i).active ≡ false → (cs i).current_room ≡ []
