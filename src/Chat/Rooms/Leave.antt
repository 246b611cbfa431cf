-- ===== src/Chat/Rooms/Leave.antt =====
-- The loop of `leave_room` against a filter of the room's users.
use mathlib.Core.List.{append-nil, append_assoc}
use homeworks.Prelude.{
  ℕ, ◌+◌, ◌≡◌, refl, ap, List, [], ◌∷◌, ◌++◌, not, length, keep, get_or, ◌==◌, Bool-cases, inl, inr,
  arith, length-append,
}
use homeworks.Chat.Rooms.{remove_at, leave_loop}

-- The users other than one.
abbrev pub others : ℕ → List ℕ → List ℕ
others client = keep (λ u. not (u == client))

get_or-append : (pre : List ℕ) (u : ℕ) (rest : List ℕ) → get_or (pre ++ u ∷ rest) (length pre) 0 ≡ u
get_or-append [] u rest = refl
get_or-append (p ∷ pre) u rest = get_or-append pre u rest

remove_at-append :
    (pre : List ℕ) (u : ℕ) (rest : List ℕ) → remove_at (length pre) (pre ++ u ∷ rest) ≡ pre ++ rest
unfolding remove_at
remove_at-append [] u rest = refl
remove_at-append (p ∷ pre) u rest = ap (◌∷◌ p) (remove_at-append pre u rest)

leave_loop-append :
    (client i : ℕ) (pre rest notify : List ℕ)
    → i ≡ length pre
    → leave_loop (length rest) client i (pre ++ rest) notify
      ≡ (pre ++ others client rest, notify ++ others client rest)
unfolding leave_loop
leave_loop-append client i pre [] notify e = rw (append-nil notify)
leave_loop-append client i pre (u ∷ rest) notify e = elim (Bool-cases (u == client)) [
  | inl gone ↦
      rw (e, get_or-append, gone, remove_at-append)
        (leave_loop-append client (length pre) pre rest notify refl)
  | inr stays ↦
      rw (e, get_or-append, stays)
        (rw
          (
            append_assoc pre (u ∷ []) rest,
            append_assoc pre (u ∷ []) (others client rest),
            append_assoc notify (u ∷ []) (others client rest),
          )
          at
          (leave_loop-append client (length pre + 1) (pre ++ u ∷ []) rest (notify ++ u ∷ [])
            (omega (arith, length-append pre (u ∷ [])))))
]

-- The loop, which shifts the users left at each hit and steps its index back, removes exactly the
-- client wherever it stands in the room, keeps the order of the others, and lists those others to
-- be notified.
pub leave_loop-eq-others :
    (client : ℕ) (users : List ℕ)
    → leave_loop (length users) client 0 users [] ≡ (others client users, others client users)
leave_loop-eq-others client users = leave_loop-append client 0 [] users [] refl
