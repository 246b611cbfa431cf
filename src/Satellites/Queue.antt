-- ===== src/Satellites/Queue.antt =====
-- add_to_queue and pop_from_queue: a queue sorted by priority, first come first served.
use homeworks.Prelude.{
  ℕ, zero, suc, ◌+◌, ◌-◌, ◌≤◌, ◌<◌, ◌≡◌, refl, sym, ap, ◌∙◌, subst, ◌⊎◌, inl, inr, true, false,
  ◌==◌, Bool-cases, if_cases, if◌then◌else◌, update, arith, ==→≡, List, [], ◌∷◌,
}
use homeworks.Satellites.{SatelliteRequest, State, stays_before, shift_loop, add_to_queue}

-- r is served no later than s: a lower number is a higher priority, and an earlier request goes
-- first among equals.
unfoldable pub Before : SatelliteRequest → SatelliteRequest → Type 0
Before r s = stays_before r s ≡ true

pub Before-trans : (r s t : SatelliteRequest) → Before r s → Before s t → Before r t
unfolding Before stays_before
Before-trans r s t h k = ground arith

pub not-Before : (r s : SatelliteRequest) → stays_before r s ≡ false → Before s r
unfolding Before stays_before
not-Before r s h = ground arith

pub intro_Before : (r s : SatelliteRequest) → r.priority < s.priority → Before r s
unfolding Before stays_before
intro_Before r s h = ground arith

-- What the loop does to the first n pointers: it opens a gap at `place`.
pub record IsGap (requests : ℕ → SatelliteRequest) (new : SatelliteRequest) (queue after : ℕ → ℕ)
    (place n : ℕ) : Type 0 where
  pub within : place ≤ n
  pub below : (k : ℕ) → k < place → after k ≡ queue k
  pub above : (k : ℕ) → place ≤ k → k < n → after (k + 1) ≡ queue k
  pub stopped : (k : ℕ) → k + 1 ≡ place → Before (requests (queue k)) new
  pub passed : (k : ℕ) → place ≤ k → k < n → stays_before (requests (queue k)) new ≡ false
  pub outside : (k : ℕ) → n < k → after k ≡ queue k

pub update_self : (queue : ℕ → ℕ) (i v : ℕ) → update queue i v i ≡ v
update_self queue i v = ground arith

pub update-other : (queue : ℕ → ℕ) (i v k : ℕ) → (k < i) ⊎ (i < k) → update queue i v k ≡ queue k
update-other queue i v k h = ground arith

-- One more round of the loop in front, which moves the pointer at i up.
widen :
    (requests : ℕ → SatelliteRequest) (new : SatelliteRequest) (queue after : ℕ → ℕ) (p i : ℕ)
    → stays_before (requests (queue i)) new ≡ false
    → IsGap requests new (update queue (suc i) (queue i)) after p i
    → IsGap requests new queue after p (suc i)
widen requests new queue after p i pass g = record {
  within = omega (arith, g.within);
  below =
      λ k h. g.below k h ∙ update-other queue (suc i) (queue i) k (inl (omega (arith, g.within)));
  above = λ k h l. elim (Bool-cases (k == i)) [
    | inl e ↦
        subst (λ x. after (x + 1) ≡ queue x) (sym (==→≡ k i e))
          (subst (λ x. after x ≡ queue i) (omega arith)
            (g.outside (suc i) (omega arith) ∙ update_self queue (suc i) (queue i)))
    | inr e ↦ g.above k h (ground arith) ∙ update-other queue (suc i) (queue i) k (inl l)
  ];
  stopped = λ k e.
      subst (λ x. Before (requests x) new)
        (update-other queue (suc i) (queue i) k (inl (omega (arith, g.within)))) (g.stopped k e);
  passed = λ k h l. elim (Bool-cases (k == i)) [
    | inl e ↦ subst (λ x. stays_before (requests (queue x)) new ≡ false) (sym (==→≡ k i e)) pass
    | inr e ↦
        subst (λ x. stays_before (requests x) new ≡ false)
          (update-other queue (suc i) (queue i) k (inl l)) (g.passed k h (ground arith))
  ];
  outside = λ k h. g.outside k (omega arith) ∙ update-other queue (suc i) (queue i) k (inr h);
}

pub shift_loop-IsGap :
    (requests : ℕ → SatelliteRequest) (new : SatelliteRequest) (n : ℕ) (queue : ℕ → ℕ)
    → IsGap requests new queue
        (shift_loop requests new n queue).1
        (shift_loop requests new n queue).0
        n
unfolding shift_loop Before
shift_loop-IsGap requests new zero queue = record {
  within = omega arith;
  below = λ k h. refl;
  above = λ k h l. absurd (omega arith);
  stopped = λ k e. absurd (omega arith);
  passed = λ k h l. absurd (omega arith);
  outside = λ k h. refl;
}
shift_loop-IsGap requests new (suc i) queue =
    if_cases (λ (out : ℕ × (ℕ → ℕ)). IsGap requests new queue out.1 out.0 (suc i))
      (stays_before (requests (queue i)) new)
      (λ stop. record {
        within = omega arith;
        below = λ k h. refl;
        above = λ k h l. absurd (omega arith);
        stopped =
            λ k e. subst (λ x. stays_before (requests (queue x)) new ≡ true) (omega arith) stop;
        passed = λ k h l. absurd (omega arith);
        outside = λ k h. refl;
      })
      (λ pass.
        widen requests new queue _ _ i pass
          (shift_loop-IsGap requests new i (update queue (suc i) (queue i))))

-- Neighbours in the first n places of the queue stand in the order of service.
pub record IsSorted (requests : ℕ → SatelliteRequest) (queue : ℕ → ℕ) (n : ℕ) : Type 0 where
  pub pairs : (k : ℕ) → k + 1 < n → Before (requests (queue k)) (requests (queue (k + 1)))

pub Before-refl : (r : SatelliteRequest) → Before r r
unfolding Before stays_before
Before-refl r = ground arith

-- So does any earlier place with any later one.
pub chain :
    (requests : ℕ → SatelliteRequest) (queue : ℕ → ℕ) (n d i : ℕ)
    → IsSorted requests queue n
    → i + d < n
    → Before (requests (queue i)) (requests (queue (i + d)))
chain requests queue n zero i s h =
    subst (λ x. Before (requests (queue i)) (requests (queue x))) (omega arith) (Before-refl _)
chain requests queue n (suc d) i s h =
    Before-trans _ _ _ (chain requests queue n d i s (omega arith)) (
      subst (λ x. Before (requests (queue (i + d))) (requests (queue x))) (omega arith)
        (s.pairs (i + d) (omega arith)))

-- The pointers in the n places from i.
unfoldable pub window : (ℕ → ℕ) → ℕ → ℕ → List ℕ
window queue i zero = []
window queue i (suc n) = queue i ∷ window queue (i + 1) n

unfoldable pub contents : State → List ℕ
unfolding window
contents s = window s.request_queue 0 s.queue_size

-- The reference: insertion from the front, behind all that stay before the new request.
unfoldable pub insert_request : (ℕ → SatelliteRequest) → ℕ → List ℕ → List ℕ
insert_request requests new [] = new ∷ []
insert_request requests new (q ∷ qs) =
    let rest = insert_request requests new qs in
    if stays_before (requests q) (requests new) then q ∷ rest else new ∷ q ∷ qs

window-moved :
    (queue after : ℕ → ℕ) (i n : ℕ)
    → ((k : ℕ) → i ≤ k → k < i + n → after (k + 1) ≡ queue k)
    → window after (i + 1) n ≡ window queue i n
unfolding window
window-moved queue after i zero h = refl
window-moved queue after i (suc n) h =
    rw
      (
        h i (omega arith) (omega arith),
        window-moved queue after (i + 1) n (λ k a b. h k (omega arith) (omega arith)),
      )
      refl

early :
    (requests : ℕ → SatelliteRequest) (new : SatelliteRequest) (queue after : ℕ → ℕ) (place n i : ℕ)
    → IsGap requests new queue after place n
    → IsSorted requests queue n
    → i < place
    → stays_before (requests (queue i)) new ≡ true
unfolding Before
early requests new queue after place n i g s h =
    Before-trans _ (requests (queue (place - 1))) _
      (subst (λ x. Before (requests (queue i)) (requests (queue x))) (omega arith)
        (chain requests queue n (place - 1 - i) i s (omega (arith, g.within))))
      (g.stopped (place - 1) (omega arith))

pub placed : (after : ℕ → ℕ) (place new i : ℕ) → i ≡ place → update after place new i ≡ new
placed after place new i e = ground arith

insert-window :
    (requests : ℕ → SatelliteRequest) (new : ℕ) (queue after : ℕ → ℕ) (place i n : ℕ)
    → IsGap requests (requests new) queue after place (i + n)
    → IsSorted requests queue (i + n)
    → i ≤ place
    → insert_request requests new (window queue i n) ≡ window (update after place new) i (suc n)
unfolding window insert_request
insert-window requests new queue after place i zero g s h =
    ap (λ x. x ∷ []) (sym (placed after place new i (omega (arith, g.within))))
insert-window requests new queue after place i (suc n) g s h = elim (Bool-cases (i == place)) [
  | inl e ↦ rw (g.passed i (ground arith) (omega arith)) (
      ap (◌∷◌ new) (
        sym (
          window-moved queue (update after place new) i (suc n) (λ k a b.
            update-other after place new (k + 1) (inr (ground arith))
            ∙ g.above k (ground arith) b)))
      ∙ ap (λ x. x ∷ window (update after place new) (i + 1) (suc n))
          (sym (placed after place new i (==→≡ i place e))))
  | inr e ↦ rw (early requests (requests new) queue after place (i + suc n) i g s (ground arith)) (
      ap (◌∷◌ (queue i)) (
        insert-window requests new queue after place (i + 1) n
          (subst (IsGap requests (requests new) queue after place) (omega arith) g)
          (subst (IsSorted requests queue) (omega arith) s) (ground arith))
      ∙ ap (λ x. x ∷ window (update after place new) (i + 1) (suc n))
          (sym (update-other after place new i (inl (ground arith)) ∙ g.below i (ground arith))))
]

-- On a sorted queue the loop of `add_to_queue`, which shifts from the back, inserts the request
-- behind all that are served no later than it and in front of the rest, and no other changes its
-- place among the others.
pub add_to_queue-contents :
    (s : State) (req : ℕ)
    → IsSorted s.requests s.request_queue s.queue_size
    → contents (add_to_queue s req) ≡ insert_request s.requests req (contents s)
unfolding contents add_to_queue
add_to_queue-contents s req h =
    ap (window (update _ _ req) 0) {y = suc s.queue_size} (omega arith)
    ∙ sym (
        insert-window s.requests req s.request_queue _ _ 0 s.queue_size
          (subst (IsGap s.requests (s.requests req) s.request_queue _ _) (omega arith)
            (shift_loop-IsGap s.requests (s.requests req) s.queue_size s.request_queue))
          (subst (IsSorted s.requests s.request_queue) (omega arith) h) (omega arith))
