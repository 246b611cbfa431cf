-- ===== src/Satellites/Sorted.antt =====
-- add_to_queue and pop_from_queue keep the queue sorted.
use homeworks.Prelude.{
  lt→ltb, le→ltb, ℕ, zero, suc, ◌+◌, ◌-◌, ◌≤◌, ◌<◌, ◌≡◌, refl, sym, ap, ◌∙◌, subst, ◌⊎◌, inl, inr,
  none, some, ltb, ◌==◌, Bool-cases, if◌then◌else◌, update, arith, ==→≡, [], ◌∷◌,
}
use homeworks.Satellites.{SatelliteRequest, State, add_to_queue, move_up, pop_from_queue}
use homeworks.Satellites.Queue.{
  Before, not-Before, IsGap, shift_loop-IsGap, IsSorted, chain, update-other, placed, contents,
  window,
}

-- Two places after the insertion that hold pointers whose requests stand in order.
neighbours :
    (requests : ℕ → SatelliteRequest) (q : ℕ → ℕ) (k a b : ℕ)
    → q k ≡ a
    → q (k + 1) ≡ b
    → Before (requests a) (requests b)
    → Before (requests (q k)) (requests (q (k + 1)))
neighbours requests q k a b e f h =
    subst (λ x. Before (requests x) (requests (q (k + 1)))) (sym e)
      (subst (λ x. Before (requests a) (requests x)) (sym f) h)

gap-pair :
    (requests : ℕ → SatelliteRequest) (new : ℕ) (queue after : ℕ → ℕ) (place n k : ℕ)
    → IsGap requests (requests new) queue after place n
    → IsSorted requests queue n
    → k < n
    → Before (requests (update after place new k)) (requests (update after place new (k + 1)))
gap-pair requests new queue after place n k g s l = elim (Bool-cases (ltb k place)) [
  | inl e ↦ elim (Bool-cases (k + 1 == place)) [
    | inl f ↦
        neighbours requests (update after place new) k (queue k) new
          (update-other after place new k (inl (ground arith)) ∙ g.below k (ground arith))
          (placed after place new (k + 1) (==→≡ (k + 1) place f))
          (g.stopped k (==→≡ (k + 1) place f))
    | inr f ↦
        neighbours requests (update after place new) k (queue k) (queue (k + 1))
          (update-other after place new k (inl (ground arith)) ∙ g.below k (ground arith))
          (update-other after place new (k + 1) (inl (ground arith))
            ∙ g.below (k + 1) (ground arith))
          (s.pairs k (ground (arith, g.within)))
  ]
  | inr e ↦ elim (Bool-cases (k == place)) [
    | inl f ↦
        neighbours requests (update after place new) k new (queue k)
          (placed after place new k (==→≡ k place f))
          (update-other after place new (k + 1) (inr (ground arith)) ∙ g.above k (ground arith) l)
          (not-Before _ _ (g.passed k (ground arith) l))
    | inr f ↦ later (k - 1) (ground arith) (ground arith)
  ]
]
  where
    later :
        (j : ℕ)
        → k ≡ j + 1
        → place ≤ j
        → Before (requests (update after place new k)) (requests (update after place new (k + 1)))
    later j e h =
        neighbours requests (update after place new) k (queue j) (queue k)
          (update-other after place new k (inr (omega arith))
            ∙ ap after e
            ∙ g.above j h (omega arith))
          (update-other after place new (k + 1) (inr (omega arith)) ∙ g.above k (omega arith) l)
          (subst (λ x. Before (requests (queue j)) (requests (queue x))) (sym e)
            (s.pairs j (omega arith)))

-- `add_to_queue` keeps a sorted queue sorted by priority, and by the time of arrival among equals.
pub add_to_queue-IsSorted :
    (s : State) (req : ℕ)
    → IsSorted s.requests s.request_queue s.queue_size
    → IsSorted
        (add_to_queue s req).requests
        (add_to_queue s req).request_queue
        (add_to_queue s req).queue_size
unfolding add_to_queue
add_to_queue-IsSorted s req h = record {
  pairs = λ k l.
      gap-pair s.requests req s.request_queue _ _ s.queue_size k
        (shift_loop-IsGap s.requests (s.requests req) s.queue_size s.request_queue) h (omega arith);
}

-- One round of the loop of `pop_from_queue`, seen from place k.
round :
    (queue : ℕ → ℕ) (i k : ℕ)
    → 0 < i
    → update queue (i - 1) (queue i) (if ltb (k + 1) (i + 1) then k else k + 1)
      ≡ queue (if ltb (k + 1) i then k else k + 1)
round queue i k h = elim (Bool-cases (ltb (k + 1) i)) [
  | inl a ↦
      rw (lt→ltb (k + 1) (i + 1) (ground arith), a)
        (update-other queue (i - 1) (queue i) k (inl (ground arith)))
  | inr a ↦ elim (Bool-cases (k + 1 == i)) [
    | inl b ↦
        rw (lt→ltb (k + 1) (i + 1) (ground arith), a)
          (placed queue (i - 1) (queue i) k (ground arith) ∙ ap queue (ground arith))
    | inr b ↦
        rw (le→ltb (k + 1) (i + 1) (ground arith), a)
          (update-other queue (i - 1) (queue i) (k + 1) (inr (ground arith)))
  ]
]

move_up-lem :
    (i n : ℕ) (queue : ℕ → ℕ) (k : ℕ)
    → 0 < i
    → k + 1 < i + n
    → move_up i n queue k ≡ queue (if ltb (k + 1) i then k else k + 1)
unfolding move_up
move_up-lem i zero queue k h l = ap queue (ground arith)
move_up-lem i (suc n) queue k h l =
    move_up-lem (i + 1) n (update queue (i - 1) (queue i)) k (omega arith) (omega arith)
    ∙ round queue i k h

-- In the queue after the loop each pointer has moved up by one place.
moved :
    (s : State) (k : ℕ)
    → k + 1 < s.queue_size
    → move_up 1 (s.queue_size - 1) s.request_queue k ≡ s.request_queue (k + 1)
moved s k h =
    move_up-lem 1 (s.queue_size - 1) s.request_queue k (omega arith) (omega arith)
    ∙ ap s.request_queue (ground arith)

window-shift :
    (queue after : ℕ → ℕ) (i n : ℕ)
    → ((k : ℕ) → k < i + n → after k ≡ queue (k + 1))
    → window queue (i + 1) n ≡ window after i n
unfolding window
window-shift queue after i zero h = refl
window-shift queue after i (suc n) h =
    rw (h i (omega arith), window-shift queue after (i + 1) n (λ k l. h k (omega arith))) refl

head : (queue : ℕ → ℕ) (n : ℕ) → 0 < n → window queue 0 n ≡ queue 0 ∷ window queue 1 (n - 1)
unfolding window
head queue n h = ap (window queue 0) {y = suc (n - 1)} (omega arith)

-- `pop_from_queue` gives NULL exactly on an empty queue; otherwise it takes the first request, the
-- others keep their order, a sorted queue stays sorted, and the request it takes is served no
-- later than the one at any place i.
pub pop_from_queue-contents :
    (s : State) (i : ℕ)
    → IsSorted s.requests s.request_queue s.queue_size
    → ((pop_from_queue s ≡ none) × (s.queue_size ≡ 0) × (contents s ≡ []))
      ⊎ ((req : ℕ) × (t : State) × (pop_from_queue s ≡ some (req, t))
          × (contents s ≡ req ∷ contents t)
          × IsSorted t.requests t.request_queue t.queue_size
          × ((s.queue_size ≤ i) ⊎ Before (s.requests req) (s.requests (s.request_queue i))))
unfolding pop_from_queue contents
pop_from_queue-contents s i h = elim (Bool-cases (s.queue_size == 0)) [
  | inl e ↦
      inl (rw e refl, ==→≡ s.queue_size 0 e, ap (window s.request_queue 0) (==→≡ s.queue_size 0 e))
  | inr e ↦ inr (
    s.request_queue 0,
    record s {
      request_queue = move_up 1 (s.queue_size - 1) s.request_queue;
      queue_size = s.queue_size - 1;
    },
    rw e refl,
    head s.request_queue s.queue_size (ground arith)
        ∙ ap (◌∷◌ (s.request_queue 0))
            (window-shift s.request_queue _ 0 (s.queue_size - 1) (λ k l. moved s k (omega arith))),
    record {
      pairs = λ k l.
          neighbours s.requests (move_up 1 (s.queue_size - 1) s.request_queue) k _ _
            (moved s k (omega arith)) (moved s (k + 1) (omega arith))
            (h.pairs (k + 1) (omega arith));
    },
    elim (Bool-cases (ltb i s.queue_size)) [
      | inl l ↦ inr (
          subst (λ x. Before (s.requests (s.request_queue 0)) (s.requests (s.request_queue x)))
            (omega arith) (chain s.requests s.request_queue s.queue_size i 0 h (ground arith)))
      | inr l ↦ inl (ground arith)
    ],
  )
]
