-- ===== src/Satellites/Removal.antt =====
-- What a timeout does to the queue.
use homeworks.Prelude.{
  ℕ, zero, suc, ◌+◌, ◌-◌, ◌<◌, ◌≤◌, ◌≡◌, refl, sym, ap, ◌∙◌, subst, ◌⊎◌, inl, inr, true, false, ltb,
  ◌==◌, if◌then◌else◌, Bool-cases, update, arith, first_from, leb, Option-cases, first_from-some,
  first_from-none,
}
use homeworks.Satellites.{
  SatelliteRequest, State, close_gap, is_waiting, satellite_times_out, satellite_polls, connected,
  timed_out, still_waiting,
}
use homeworks.Satellites.Queue.{update-other, Before, IsSorted, chain, placed}

-- After the loop the pointers from j on have moved up by one place.
pub close_gap-lem :
    (j n : ℕ) (queue : ℕ → ℕ) (k : ℕ)
    → k < j + n
    → close_gap j n queue k ≡ queue (if ltb k j then k else k + 1)
unfolding close_gap
close_gap-lem j zero queue k l = ap queue (ground arith)
close_gap-lem j (suc n) queue k l =
    close_gap-lem (j + 1) n (update queue j (queue (j + 1))) k (omega arith)
    ∙ round (Bool-cases (ltb k j)) (Bool-cases (k == j))
  where
    round :
        (ltb k j ≡ true) ⊎ (ltb k j ≡ false)
        → ((k == j) ≡ true) ⊎ ((k == j) ≡ false)
        → update queue j (queue (j + 1)) (if ltb k (j + 1) then k else k + 1)
          ≡ queue (if ltb k j then k else k + 1)
    round (inl a) _ = rw (below a, a) (update-other queue j (queue (j + 1)) k (inl (ground arith)))
      where
        below : ltb k j ≡ true → ltb k (j + 1) ≡ true
        below e = ground arith
    round (inr a) (inl b) =
        rw (below b, a) (placed queue j (queue (j + 1)) k (ground arith) ∙ ap queue (ground arith))
      where
        below : (k == j) ≡ true → ltb k (j + 1) ≡ true
        below e = ground arith
    round (inr a) (inr b) =
        rw (above a b, a) (update-other queue j (queue (j + 1)) (k + 1) (inr (ground arith)))
      where
        above : ltb k j ≡ false → (k == j) ≡ false → ltb k (j + 1) ≡ false
        above e f = ground arith

step-lt : (j k : ℕ) → (if ltb k j then k else k + 1) < (if ltb (k + 1) j then k + 1 else k + 1 + 1)
step-lt j k = ground arith

step-le : (j k : ℕ) → (if ltb k j then k else k + 1) ≤ k + 1
step-le j k = ground arith

between :
    (requests : ℕ → SatelliteRequest) (queue : ℕ → ℕ) (n a b : ℕ)
    → IsSorted requests queue n
    → a < b
    → b < n
    → Before (requests (queue a)) (requests (queue b))
between requests queue n a b s h l =
    subst (λ x. Before (requests (queue a)) (requests (queue x))) {x = a + (b - a)} (omega arith)
      (chain requests queue n (b - a) a s (omega arith))

gap-Sorted :
    (requests : ℕ → SatelliteRequest) (queue : ℕ → ℕ) (n j : ℕ)
    → IsSorted requests queue n
    → j < n
    → IsSorted requests (close_gap j (n - 1 - j) queue) (n - 1)
gap-Sorted requests queue n j s h = record {
  pairs = λ k l.
      subst (λ x. Before (requests x) (requests (close_gap j (n - 1 - j) queue (k + 1))))
        (sym (close_gap-lem j (n - 1 - j) queue k (omega arith)))
        (subst (λ x. Before (requests (queue (if ltb k j then k else k + 1))) (requests x))
          (sym (close_gap-lem j (n - 1 - j) queue (k + 1) (omega arith)))
          (between requests queue n _ _ s (step-lt j k) (omega (arith, step-le j (k + 1)))));
}

-- What a timeout may come to at any place k: nothing changes, and at k there is no request of the
-- satellite that waits; or such a request at some place i is gone, and the one at k has moved up
-- by one place where it stood behind i.
abbrev pub IsRemoval : State → ℕ → ℕ → State → Type 0
IsRemoval s id k t =
    ((t ≡ s) × ((s.queue_size ≤ k) ⊎ (is_waiting s id k ≡ false)))
    ⊎ ((i : ℕ) × (i < s.queue_size)
        × (is_waiting s id i ≡ true)
        × (t.queue_size + 1 ≡ s.queue_size)
        × ((t.queue_size ≤ k)
            ⊎ (t.request_queue k ≡ s.request_queue (if ltb k i then k else k + 1))))

pub times_out-cases :
    (s : State) (id k : ℕ)
    → IsSorted s.requests s.request_queue s.queue_size
    → let t = satellite_times_out s id in
      IsSorted t.requests t.request_queue t.queue_size × IsRemoval s id k t
unfolding satellite_times_out
times_out-cases s id k h = elim (Option-cases (first_from (is_waiting s id) 0 s.queue_size)) [
  | inl e ↦
      rw (e, satellite_times_out)
        (
          h,
          inl (
            refl,
            elim (Bool-cases (ltb k s.queue_size)) [
              | inl l ↦ inr (
                  first_from-none (is_waiting s id) 0 s.queue_size k e (omega arith) (ground arith))
              | inr l ↦ inl (ground arith)
            ],
          ),
        )
  | inr (i, e) ↦
      let found = first_from-some (is_waiting s id) 0 s.queue_size i e in
      rw (e, satellite_times_out)
        (
          gap-Sorted s.requests s.request_queue s.queue_size i h (omega (arith, found)),
          inr (
            i,
            omega (arith, found),
            found.0,
            omega (arith, found),
            elim (Bool-cases (ltb k (s.queue_size - 1))) [
              | inl l ↦
                  inr (
                    close_gap-lem i (s.queue_size - 1 - i) s.request_queue k
                      (ground (arith, found)))
              | inr l ↦ inl (ground arith)
            ],
          ),
        )
]

-- A round of a satellite's polling on a sorted queue leaves it sorted. The satellite is connected
-- when its request is served, and goes on waiting before its deadline, both without a change to
-- the queue; from the deadline on it times out, and its request leaves the queue if it waits there.
pub satellite_polls-IsSorted :
    (s : State) (id now deadline k : ℕ)
    → IsSorted s.requests s.request_queue s.queue_size
    → let (poll, t) = satellite_polls s id now deadline in
      IsSorted t.requests t.request_queue t.queue_size
      × (((poll ≡ connected) × ((s.requests id).being_served ≡ true) × (t ≡ s))
          ⊎ (((poll ≡ still_waiting) × (now < deadline) × (t ≡ s))
              ⊎ ((poll ≡ timed_out) × (deadline ≤ now) × IsRemoval s id k t)))
unfolding satellite_polls
satellite_polls-IsSorted s id now deadline k h = elim (Bool-cases (s.requests id).being_served) [
  | inl e ↦ rw e (h, inl (refl, refl, refl))
  | inr e ↦ elim (Bool-cases (leb deadline now)) [
    | inl l ↦
        let out = times_out-cases s id k h in
        rw (e, l) (out.0, inr (inr (refl, ground arith, out.1)))
    | inr l ↦ rw (e, l) (h, inr (inl (refl, ground arith, refl)))
  ]
]
