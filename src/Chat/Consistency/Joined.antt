-- ===== src/Chat/Consistency/Joined.antt =====
-- The whole of `join_room`, from the searches to the notices.
use homeworks.Prelude.{
  ℕ, ◌≤◌, ◌≡◌, ◌≢◌, refl, inl, inr, List, [], Bool, true, false, CString, length, take, take-all,
  ltb, arith,
}
use homeworks.Chat.{Server, max_room_name_len}
use homeworks.Chat.Join.{enter_room, join_room, joined_before}
use homeworks.Chat.Consistency.Entering.{entering-IsConsistent}
use homeworks.Chat.Consistency.Quiet.{IsQuiet, log_join-IsQuiet, notify_join-IsQuiet}
use homeworks.Chat.Consistency.Steps.{Consistent}
use homeworks.Chat.Consistency.Joining.{
  HasSpace, Ready, Roomless, find_or_create_room-Ready, left_first, left_first-Roomless,
}

-- The client stands in the tables as `enter_room` leaves it.
pub record Entered (t : Server) (i : ℕ) (n : CString) : Type 0 where
  pub consistent : Consistent t
  pub in_room : (t.clients i).current_room ≡ n
  pub still_active : (t.clients i).active ≡ true

enter_room-Entered :
    (s t : Server) (i r : ℕ) (n : CString) (rejoining : Bool)
    → (n ≢ []) × (length n ≤ max_room_name_len)
    → (s.clients i).current_room ≡ []
    → (s.clients i).active ≡ true
    → Ready s t n r
    → Entered (enter_room t i r n rejoining) i n
unfolding enter_room
enter_room-Entered s t i r n rejoining valid roomless connected ready =
    let short = take-all max_room_name_len n valid.1 in
    let v = λ (history : List CString).
      entering-IsConsistent t.clients t.rooms i r history ready.consistent ready.alive
        (rw ready.same_clients roomless) (rw ready.same_clients connected) ready.space in
    record {
      consistent = rw (short, ← ready.same_name) (v _);
      in_room = rw short (ground arith);
      still_active = rw ready.same_clients (ground arith);
    }

quiet_keeps : {t u : Server} {i : ℕ} {n : CString} → Entered t i n → IsQuiet t u → Entered u i n
quiet_keeps e q = record {
  consistent = rw (q.same_clients, q.same_rooms) e.consistent;
  in_room = rw q.same_clients e.in_room;
  still_active = rw q.same_clients e.still_active;
}

-- What `join_room` returns: the client is in the room, or it failed and the client has only left.
pub data Joins (s : Server) (i : ℕ) (n : CString) (out : Bool × Server) : Type 0 where
  joined : out.0 ≡ true → Entered out.1 i n → Joins s i n out
  refused : out ≡ (false, left_first s i) → Roomless s out.1 i n → Joins s i n out

pub join_room-Joins :
    (s : Server) (i : ℕ) (n : CString)
    → Consistent s
    → (s.clients i).active ≡ true
    → (n ≢ []) × (length n ≤ max_room_name_len)
    → HasSpace s n
    → Joins s i n (join_room s i n)
unfolding join_room
join_room-Joins s i n v a valid room =
    let out = left_first-Roomless s i n v a room in
    elim (find_or_create_room-Ready (left_first s i) n out.consistent valid out.room) [
      | inl full ↦ refused (rw (full, join_room)) (rw (full, join_room) out)
      | inr (r, t, found, ready) ↦
          let rejoining = joined_before (s.clients i).previously_joined_rooms n in
          let s3 = enter_room t i r n rejoining in
          let entered =
            enter_room-Entered (left_first s i) t i r n rejoining valid out.roomless out.connected
              ready in
          let logged =
            log_join-IsQuiet s3 (s.clients i).username
              (take max_room_name_len (s.clients i).current_room) n
              (ltb 0 (length (s.clients i).current_room)) rejoining in
          rw (found, join_room)
            (joined refl (
              quiet_keeps (quiet_keeps entered logged)
                (notify_join-IsQuiet _ i n (s3.rooms r).users rejoining)))
    ]
