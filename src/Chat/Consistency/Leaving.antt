-- ===== src/Chat/Consistency/Leaving.antt =====
-- A client that leaves its room.
use homeworks.Prelude.{
  ℕ, ◌≡◌, ◌≢◌, sym, ◌∙◌, inl, inr, [], Bool, true, false, length, not, update, ◌==◌, Bool-cases,
  arith, length-keep-le,
}
use homeworks.Chat.{Client, Room}
use homeworks.Chat.Rooms.Leave.{others}
use homeworks.Chat.Consistency.{
  IsConsistent, count, count-others_self, count-others_ne, count-le-length,
}

-- The tables after the client `i` has left the room `r`, which stays active as `b` says.
module _ (cs : ℕ → Client) (rs : ℕ → Room) (i r : ℕ) (b : Bool) where
  abbrev pub left_clients : ℕ → Client
  left_clients = update cs i (record (cs i) { current_room = [] })

  abbrev pub left_rooms : ℕ → Room
  left_rooms = update rs r (record (rs r) { users = others i (rs r).users; active = b })

  module _ (v : IsConsistent cs rs) (alive : (rs r).active ≡ true)
      (here : (cs i).current_room ≡ (rs r).name)
      (empty : b ≡ false → length (others i (rs r).users) ≡ 0) where
    active_of_left : (q : ℕ) → (left_rooms q).active ≡ true → (rs q).active ≡ true
    active_of_left q h = ground arith

    name_of_left : (q : ℕ) → (left_rooms q).name ≡ (rs q).name
    name_of_left q = ground arith

    left_present :
        (q j : ℕ)
        → (left_rooms q).active ≡ true
        → (left_clients j).current_room ≡ (left_rooms q).name
        → count j (left_rooms q).users ≡ 1
    left_present q j a e = elim (Bool-cases (i == j)) [
      | inl same ↦ ground (arith, v.named q (active_of_left q a), name_of_left q)
      | inr other ↦
          ground (arith, v.present q j (active_of_left q a), count-others_ne i j (rs r).users)
    ]

    left_absent :
        (q j : ℕ)
        → (left_rooms q).active ≡ true
        → (left_clients j).current_room ≢ (left_rooms q).name
        → count j (left_rooms q).users ≡ 0
    left_absent q j a e = elim (Bool-cases (i == j)) [
      | inl same ↦ elim (Bool-cases (r == q)) [
        | inl at_r ↦ ground (arith, count-others_self i (rs r).users)
        | inr off_r ↦ ground (
          arith,
          v.absent q i (active_of_left q a) (λ eq.
              absurd (ground (arith, v.distinct r q alive (active_of_left q a) (sym here ∙ eq)))),
        )
      ]
      | inr other ↦
          ground (arith, v.absent q j (active_of_left q a), count-others_ne i j (rs r).users)
    ]

    -- The room of another client is still active.
    left_houses :
        (j q : ℕ)
        → (i == j) ≡ false
        → (rs q).active ≡ true
        → (rs q).name ≡ (cs j).current_room
        → (left_rooms q).active ≡ true
    left_houses j q other a e = elim (Bool-cases (r == q)) [
      | inl at_r ↦ ground (
        arith,
        v.present r j alive,
        count-others_ne i j (rs r).users,
        count-le-length j (others i (rs r).users),
      )
      | inr off_r ↦ ground arith
    ]

    left_housed :
        (j : ℕ)
        → (left_clients j).current_room ≢ []
        → (q : ℕ) × ((left_rooms q).active ≡ true)
          × ((left_rooms q).name ≡ (left_clients j).current_room)
    left_housed j h = elim (Bool-cases (i == j)) [
      | inl same ↦ absurd (ground arith)
      | inr other ↦
          let (q, a, e) = v.housed j (ground arith) in (q, left_houses j q other a e, ground arith)
    ]

    -- Leaving keeps the tables consistent.
    pub leaving-IsConsistent : IsConsistent left_clients left_rooms
    leaving-IsConsistent = record {
      inside = λ q a. v.inside q (active_of_left q a);
      named = λ q a. rw (name_of_left q) (v.named q (active_of_left q a));
      distinct = λ p q a a' e.
          v.distinct p q (active_of_left p a) (active_of_left q a')
            (sym (name_of_left p) ∙ e ∙ name_of_left q);
      bounded = λ q a. ground (
        arith,
        v.bounded q (active_of_left q a),
        length-keep-le (λ u. not (u == i)) (rs r).users,
      );
      present = left_present;
      absent = left_absent;
      housed = left_housed;
      idle = λ j a. ground (arith, v.idle j);
    }
