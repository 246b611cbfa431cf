-- ===== src/Chat/Consistency/Handlers.antt =====
-- The commands keep the tables consistent.
use homeworks.Prelude.{
  ℕ, ◌≡◌, ap, inl, inr, Bool, true, false, CString, length, streq, ◌==◌, Bool-cases, arith,
}
use homeworks.Chat.{Server}
use homeworks.Chat.Names.{is_valid_room_name}
use homeworks.Chat.Join.{join_room}
use homeworks.Chat.Commands.{room_is_full, handle_join, handle_leave}
use homeworks.Chat.Consistency.Quiet.{IsQuiet}
use homeworks.Chat.Consistency.Steps.{Consistent, leave_room-Consistent}
use homeworks.Chat.Consistency.Joining.{valid_name, not-full-HasSpace}
use homeworks.Chat.Consistency.Joined.{Joins, joined, refused, join_room-Joins}

pub quiet-Consistent : {s t : Server} → Consistent s → IsQuiet s t → Consistent t
quiet-Consistent v q = rw (q.same_clients, q.same_rooms) v

result-Consistent :
    {s : Server} {i : ℕ} {n : CString} {out : Bool × Server} → Joins s i n out → Consistent out.1
result-Consistent (joined e entered) = entered.consistent
result-Consistent (refused e out) = out.consistent

-- What the other threads may do while client i's thread sleeps, or stands between the test for a
-- full room and `join_room`: they keep the tables consistent, leave the client's slot in use, and
-- fill no room that was not full. (No lock of the program excludes the last.)
pub record Spares (others : Server → Server) (i : ℕ) : Type 0 where
  pub keeps : (s : Server) → Consistent s → Consistent (others s)
  pub active : (s : Server) → (s.clients i).active ≡ true → ((others s).clients i).active ≡ true
  pub space :
      (s : Server) (n : CString) → room_is_full s n ≡ false → room_is_full (others s) n ≡ false

-- `/join`, whatever the name and the room: the tables stay consistent, so in particular no room
-- gets a sixteenth user, if the other threads spare the client.
pub handle_join-Consistent :
    (others : Server → Server) (s : Server) (i : ℕ) (n : CString)
    → Spares others i
    → Consistent s
    → (s.clients i).active ≡ true
    → Consistent (handle_join others s i n)
unfolding handle_join
handle_join-Consistent others s i n o v a = elim (Bool-cases (is_valid_room_name n)) [
  | inr invalid ↦ rw invalid v
  | inl valid ↦ elim (Bool-cases (streq (s.clients i).current_room n)) [
    | inl same ↦ rw (valid, same) v
    | inr other ↦ elim (Bool-cases (room_is_full s n)) [
      | inl full ↦ rw (valid, other, full) v
      | inr space ↦
          let t = others s in
          let w = o.keeps s v in
          let out = result-Consistent (
            join_room-Joins t i n w (o.active s a) (valid_name n valid)
              (not-full-HasSpace t n w (o.space s n space))) in
          elim (Bool-cases (join_room t i n).0) [
            | inl yes' ↦ rw (valid, other, space, yes') out
            | inr no' ↦ rw (valid, other, space, no') out
          ]
    ]
  ]
]

pub handle_leave-Consistent : (s : Server) (i : ℕ) → Consistent s → Consistent (handle_leave s i)
unfolding handle_leave
handle_leave-Consistent s i v = elim (Bool-cases (length (s.clients i).current_room == 0)) [
  | inl outside ↦ rw outside v
  | inr inside ↦ rw inside (leave_room-Consistent s i v (λ e. ground (arith, ap length e)))
]
