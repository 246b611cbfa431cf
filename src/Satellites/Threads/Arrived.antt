-- ===== src/Satellites/Threads/Arrived.antt =====
-- HW3 main.c: what stands in the queue, whatever its order is: the pointers stay among those that
-- were put in.
use homeworks.Prelude.{
  ℕ, zero, suc, ◌+◌, ◌-◌, ◌≤◌, ◌<◌, ◌≡◌, ◌≢◌, sym, refl, subst, update, ◌==◌, if◌then◌else◌,
  if_cases, ltb, arith, inl, inr, Option-cases, first_from, first_from-some,
}
use homeworks.Satellites.{
  SatelliteRequest, State, shift_loop, stays_before, add_to_queue, satellite_times_out, is_waiting,
}
use homeworks.Satellites.Removal.{close_gap-lem}

-- What holds of every pointer in the queue.
abbrev pub AllQueued : (ℕ → Type 0) → State → Type 0
AllQueued P s = (k : ℕ) → k < s.queue_size → P (s.request_queue k)

module _ (P : ℕ → Type 0) where
  pub update-All :
      (queue : ℕ → ℕ) (j x k : ℕ) → P x → (k ≢ j → P (queue k)) → P (update queue j x k)
  update-All queue j x k own other = if_cases P (j == k) (λ _. own) (λ e. other (ground arith))

  -- The loop of `add_to_queue` leaves one place to fill.
  shift_loop-All :
      (requests : ℕ → SatelliteRequest) (new : SatelliteRequest) (n i : ℕ) (queue : ℕ → ℕ)
      → i ≤ n
      → ((k : ℕ) → k ≤ n → k ≢ i → P (queue k))
      → (k : ℕ) → k ≤ n
      → k ≢ (shift_loop requests new i queue).0
      → P ((shift_loop requests new i queue).1 k)
  unfolding shift_loop
  shift_loop-All requests new n zero queue l h = h
  shift_loop-All requests new n (suc i) queue l h =
      if_cases (λ (out : ℕ × (ℕ → ℕ)). (k : ℕ) → k ≤ n → k ≢ out.0 → P (out.1 k))
        (stays_before (requests (queue i)) new) (λ _. h)
        (λ _.
          shift_loop-All requests new n i (update queue (suc i) (queue i)) (omega arith) (λ k m ne.
            update-All queue (suc i) (queue i) k (h i (omega arith) (omega arith)) (λ o. h k m o)))

  pub add_to_queue-All :
      (s : State) (req : ℕ) → P req → AllQueued P s → AllQueued P (add_to_queue s req)
  unfolding add_to_queue
  add_to_queue-All s req own h k l =
      let out = shift_loop s.requests (s.requests req) s.queue_size s.request_queue in
      update-All out.1 out.0 req k own (
        shift_loop-All s.requests (s.requests req) s.queue_size s.queue_size s.request_queue
          (omega arith) (λ j m ne. h j (omega arith)) k (omega arith))

  pub times_out-All : (s : State) (id : ℕ) → AllQueued P s → AllQueued P (satellite_times_out s id)
  unfolding satellite_times_out
  times_out-All s id h = elim (Option-cases (first_from (is_waiting s id) 0 s.queue_size)) [
    | inl e ↦ rw (satellite_times_out, e) h
    | inr (j, e) ↦
        let found = first_from-some (is_waiting s id) 0 s.queue_size j e in
        rw (satellite_times_out, e)
          (λ k l.
            subst P
              (sym
                (close_gap-lem j (s.queue_size - 1 - j) s.request_queue k (omega (arith, found))))
              (h (if ltb k j then k else k + 1) (ground arith)))
  ]

pub size-satellite_times_out :
    (s : State) (id : ℕ)
    → ((satellite_times_out s id).queue_size ≤ s.queue_size)
      × ((satellite_times_out s id).available_engineers ≡ s.available_engineers)
      × ((satellite_times_out s id).requests ≡ s.requests)
unfolding satellite_times_out
size-satellite_times_out s id = elim (Option-cases (first_from (is_waiting s id) 0 s.queue_size)) [
  | inl e ↦ rw (satellite_times_out, e) (omega arith, refl, refl)
  | inr (j, e) ↦ rw (satellite_times_out, e) (omega arith, refl, refl)
]
