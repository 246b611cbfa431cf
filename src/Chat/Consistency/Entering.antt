-- ===== src/Chat/Consistency/Entering.antt =====
-- A client that is in no room enters one, which may be new.
use homeworks.Prelude.{
  ℕ, ◌≤◌, ◌<◌, ◌≡◌, ◌≢◌, sym, ◌∙◌, inl, inr, List, [], ◌∷◌, ◌++◌, true, false, CString, length,
  update, ◌==◌, Bool-cases, arith, length-append,
}
use homeworks.Chat.{Client, Room, max_rooms, max_users_per_room, max_room_name_len}
use homeworks.Chat.Consistency.{IsConsistent, count, count-append}

-- A new, empty room in an unused slot, under a name that no active room has.
module _ (cs : ℕ → Client) (rs : ℕ → Room) (r : ℕ) (room_name : CString) where
  abbrev pub created_rooms : ℕ → Room
  created_rooms = update rs r (record { name = room_name; users = []; active = true })

  module _ (v : IsConsistent cs rs) (within : r < max_rooms) (unused : (rs r).active ≡ false)
      (valid : (room_name ≢ []) × (length room_name ≤ max_room_name_len))
      (fresh : (q : ℕ) → (rs q).active ≡ true → (rs q).name ≢ room_name) where
    nobody : (i : ℕ) → (cs i).current_room ≢ room_name
    nobody i e = let (q, a, n) = v.housed i (ground arith) in fresh q a (n ∙ e)

    created_distinct :
        (p q : ℕ)
        → (created_rooms p).active ≡ true
        → (created_rooms q).active ≡ true
        → (created_rooms p).name ≡ (created_rooms q).name
        → p ≡ q
    created_distinct p q a b e = ground (arith, v.distinct p q, fresh p, fresh q)

    pub creating-IsConsistent : IsConsistent cs created_rooms
    creating-IsConsistent = record {
      inside = λ q a. ground (arith, v.inside q);
      named = λ q a. ground (arith, v.named q);
      distinct = created_distinct;
      bounded = λ q a. ground (arith, v.bounded q);
      present = λ q i a e. ground (arith, v.present q i, nobody i);
      absent = λ q i a e. ground (arith, v.absent q i);
      housed = λ i h. let (q, a, n) = v.housed i h in (q, ground arith, ground arith);
      idle = v.idle;
    }

-- The client `i`, in no room, is added to the active room `r`.
module _ (cs : ℕ → Client) (rs : ℕ → Room) (i r : ℕ) (history : List CString) where
  abbrev pub entered_clients : ℕ → Client
  entered_clients =
      update cs i (record (cs i) { current_room = (rs r).name; previously_joined_rooms = history })

  abbrev pub entered_rooms : ℕ → Room
  entered_rooms = update rs r (record (rs r) { users = (rs r).users ++ i ∷ [] })

  module _ (v : IsConsistent cs rs) (alive : (rs r).active ≡ true)
      (roomless : (cs i).current_room ≡ []) (connected : (cs i).active ≡ true)
      (space : length (rs r).users < max_users_per_room) where
    active_of_entered : (q : ℕ) → (entered_rooms q).active ≡ true → (rs q).active ≡ true
    active_of_entered q h = ground arith

    name_of_entered : (q : ℕ) → (entered_rooms q).name ≡ (rs q).name
    name_of_entered q = ground arith

    entered_present :
        (q j : ℕ)
        → (entered_rooms q).active ≡ true
        → (entered_clients j).current_room ≡ (entered_rooms q).name
        → count j (entered_rooms q).users ≡ 1
    entered_present q j a e = elim (Bool-cases (i == j)) [
      | inl same ↦ ground (
        arith,
        v.absent q i (active_of_entered q a),
        v.distinct r q alive,
        v.named r alive,
        count-append j (rs r).users (i ∷ []),
      )
      | inr other ↦
          ground
            (arith, v.present q j (active_of_entered q a), count-append j (rs r).users (i ∷ []))
    ]

    entered_absent :
        (q j : ℕ)
        → (entered_rooms q).active ≡ true
        → (entered_clients j).current_room ≢ (entered_rooms q).name
        → count j (entered_rooms q).users ≡ 0
    entered_absent q j a e = elim (Bool-cases (i == j)) [
      | inl same ↦ ground (
        arith,
        v.absent q i (active_of_entered q a),
        v.named q (active_of_entered q a),
        count-append j (rs r).users (i ∷ []),
      )
      | inr other ↦
          ground (arith, v.absent q j (active_of_entered q a), count-append j (rs r).users (i ∷ []))
    ]

    entered_housed :
        (j : ℕ)
        → (entered_clients j).current_room ≢ []
        → (q : ℕ) × ((entered_rooms q).active ≡ true)
          × ((entered_rooms q).name ≡ (entered_clients j).current_room)
    entered_housed j h = elim (Bool-cases (i == j)) [
      | inl same ↦ (r, ground arith, ground arith)
      | inr other ↦ let (q, a, n) = v.housed j (ground arith) in (q, ground arith, ground arith)
    ]

    -- Entering keeps the tables consistent.
    pub entering-IsConsistent : IsConsistent entered_clients entered_rooms
    entering-IsConsistent = record {
      inside = λ q a. v.inside q (active_of_entered q a);
      named = λ q a. rw (name_of_entered q) (v.named q (active_of_entered q a));
      distinct = λ p q a b e.
          v.distinct p q (active_of_entered p a) (active_of_entered q b)
            (sym (name_of_entered p) ∙ e ∙ name_of_entered q);
      bounded = λ q a.
          ground (arith, v.bounded q (active_of_entered q a), length-append (rs r).users (i ∷ []));
      present = entered_present;
      absent = entered_absent;
      housed = entered_housed;
      idle = λ j a. ground (arith, v.idle j);
    }
