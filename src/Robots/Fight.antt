-- ===== src/Robots/Fight.antt =====
-- Grid::fight of PA4.cpp: how a fight ends.
use homeworks.Prelude.{
  ℕ, zero, suc, ◌-◌, ◌≤◌, ◌<◌, ◌≡◌, ◌≢◌, ◌⊎◌, inl, inr, refl, sym, ap, ◌∙◌, subst, Bool, true,
  false, none, some, ◌==◌, not, if_cases, Bool-cases, ==→≡, ==_self, update, ℤ, pos, negsuc, ◌-ℤ◌,
  is_positive, arith,
}
use mathlib.Core.Bool.{false≢true}
use homeworks.Robots.{
  Kind, optimusprime, robocop, roomba, bulldozer, kamikaze, is_kamikaze, Robot, World, set_robot,
  take_cell, clear_cell, one_less, get_damage, hit_message, fight_round, fight_loop, rounds, fight,
}

-- What a hit leaves of a robot: all but its hitpoints.
pub record IsSameBody (r s : Robot) : Type 0 where
  pub kind : s.kind ≡ r.kind
  pub x : s.x ≡ r.x
  pub y : s.y ≡ r.y
  pub moved : s.moved ≡ r.moved
  pub strength : s.strength ≡ r.strength

same_body : (r : Robot) → IsSameBody r r
same_body r = record { kind = refl; x = refl; y = refl; moved = refl; strength = refl }

trans_body : {r s t : Robot} → IsSameBody r s → IsSameBody s t → IsSameBody r t
trans_body p q = record {
  kind = q.kind ∙ p.kind;
  x = q.x ∙ p.x;
  y = q.y ∙ p.y;
  moved = q.moved ∙ p.moved;
  strength = q.strength ∙ p.strength;
}

-- Hits change neither the grid nor the count.
record IsHit (w v : World) : Type 0 where
  bodies : (r : ℕ) → IsSameBody (w.robots r) (v.robots r)
  grid : v.grid ≡ w.grid
  count : v.count ≡ w.count

-- One of the two robots has left the grid: the attacker, or its victim, whose cell it then has.
pub record IsFought (from to : ℕ) (w v : World) : Type 0 where
  pub bodies : (r : ℕ) → IsSameBody (w.robots r) (v.robots r)
  pub cells :
      (v.grid ≡ update w.grid from none)
      ⊎ (v.grid ≡ update (update w.grid to (w.grid from)) from none)
  pub count : v.count ≡ w.count - 1

rounds-hit :
    (h d : ℤ) → is_positive d ≡ true → is_positive (h -ℤ d) ≡ true → rounds (h -ℤ d) < rounds h
rounds-hit (pos n) (pos d) p q = ground arith
rounds-hit (pos n) (negsuc d) p q = absurd (ground arith)
rounds-hit (negsuc n) (pos d) p q = absurd (ground arith)
rounds-hit (negsuc n) (negsuc d) p q = absurd (ground arith)

rounds-positive : (h : ℤ) → 0 < rounds h
rounds-positive (pos n) = omega arith
rounds-positive (negsuc n) = omega arith

not-false : (b : Bool) → not b ≡ false → b ≡ true
not-false true e = refl
not-false false e = sym e

module _ (rand : ℕ → ℕ) where
  -- Only a kamikaze can deal no damage.
  get_damage-is_positive :
      (r : Robot) (i : ℕ) → is_kamikaze r.kind ≡ false → is_positive (get_damage rand r i).0 ≡ true
  unfolding get_damage
  get_damage-is_positive r i h = by_kind r.kind refl
    where
      by_kind : (k : Kind) → r.kind ≡ k → is_positive (get_damage rand r i).0 ≡ true
      by_kind optimusprime e = rw (get_damage, e) (ground arith)
      by_kind robocop e = rw (get_damage, e) (ground arith)
      by_kind roomba e = rw (get_damage, e) (ground arith)
      by_kind bulldozer e = rw (get_damage, e) (ground arith)
      by_kind kamikaze e = absurd (false≢true (sym h ∙ ap is_kamikaze e))

  hit_message-IsHit : (a v : ℕ) (w : World) → IsHit w (hit_message rand a v w).0
  unfolding hit_message
  hit_message-IsHit a v w = record { bodies = bodies_of; grid = refl; count = refl }
    where
      bodies_of : (r : ℕ) → IsSameBody (w.robots r) ((hit_message rand a v w).0.robots r)
      bodies_of r = elim (Bool-cases (v == r)) [
        | inl here ↦
            subst (λ j. IsSameBody (w.robots j) ((hit_message rand a v w).0.robots j))
              (==→≡ v r here)
              (rw (==_self v)
                record { kind = refl; x = refl; y = refl; moved = refl; strength = refl })
        | inr other ↦ rw other (same_body (w.robots r))
      ]

  trans_IsHit : {u v w : World} → IsHit u v → IsHit v w → IsHit u w
  trans_IsHit p q = record {
    bodies = λ r. trans_body (p.bodies r) (q.bodies r);
    grid = q.grid ∙ p.grid;
    count = q.count ∙ p.count;
  }

  -- The end of a fight after hits: the attacker leaves, or it takes its victim's cell.
  leaves :
      (from to : ℕ) {w v : World} → IsHit w v → IsFought from to w (one_less (clear_cell v from))
  leaves from to p = record {
    bodies = p.bodies;
    cells = inl (ap (λ g. update g from none) p.grid);
    count = ap (λ n. n - 1) p.count;
  }

  takes :
      (from to : ℕ) {w v : World} → IsHit w v → IsFought from to w (one_less (take_cell v from to))
  takes from to p = record {
    bodies = p.bodies;
    cells = inr (ap (λ g. update (update g to (g from)) from none) p.grid);
    count = ap (λ n. n - 1) p.count;
  }

  hit_message-hitpoints :
      (a v : ℕ) (w : World)
      → ((hit_message rand a v w).0.robots v).hitpoints
        ≡ (w.robots v).hitpoints -ℤ (get_damage rand (w.robots a) w.draws).0
  unfolding hit_message
  hit_message-hitpoints a v w = rw (==_self v) refl

  hit_message-others :
      (a v r : ℕ) (w : World) → v ≢ r → (hit_message rand a v w).0.robots r ≡ w.robots r
  unfolding hit_message
  hit_message-others a v r w ne = let other : (v == r) ≡ false = ground arith in rw other refl

  hit_message-alive :
      (a v : ℕ) (w : World)
      → (hit_message rand a v w).1 ≡ false
      → is_positive ((w.robots v).hitpoints -ℤ (get_damage rand (w.robots a) w.draws).0) ≡ true
  unfolding hit_message
  hit_message-alive a v w e =
      not-false (is_positive ((w.robots v).hitpoints -ℤ (get_damage rand (w.robots a) w.draws).0)) e

  -- A victim that lives through a round of a robot other than a kamikaze has fewer hitpoints.
  hits-rounds :
      (a v : ℕ) (w : World)
      → a ≢ v
      → is_kamikaze (w.robots a).kind ≡ false
      → (hit_message rand a v w).1 ≡ false
      → rounds ((hit_message rand v a (hit_message rand a v w).0).0.robots v).hitpoints
        < rounds (w.robots v).hitpoints
  hits-rounds a v w ne brave alive =
      rw (hit_message-others v a v (hit_message rand a v w).0 ne, hit_message-hitpoints a v w)
        (rounds-hit (w.robots v).hitpoints (get_damage rand (w.robots a) w.draws).0
          (get_damage-is_positive (w.robots a) w.draws brave) (hit_message-alive a v w alive))

  -- How a round can go: the fight ends, or the victim's hitpoints go down.
  Round : (from to v : ℕ) → World → World × Bool → Type 0
  Round from to v w r =
      ((r.1 ≡ true) × IsFought from to w r.0)
      ⊎ ((r.1 ≡ false)
          × IsHit w r.0
          × (rounds (r.0.robots v).hitpoints < rounds (w.robots v).hitpoints))

  fight_round-cases :
      (from to a v : ℕ) (w : World) → a ≢ v → Round from to v w (fight_round rand from to a v w)
  unfolding fight_round Round
  fight_round-cases from to a v w ne =
      let hit = hit_message rand a v w in
      let back = hit_message rand v a hit.0 in
      let one = hit_message-IsHit a v w in
      let two = trans_IsHit one (hit_message-IsHit v a hit.0) in
      if_cases (Round from to v w) (is_kamikaze (w.robots a).kind)
        (λ _. inl (refl, leaves from to one))
        (λ brave.
          if_cases (Round from to v w) hit.1 (λ _. inl (refl, takes from to one))
            (λ alive.
              if_cases (Round from to v w) (is_kamikaze (w.robots v).kind)
                (λ _. inl (refl, takes from to two))
                (λ _.
                  if_cases (Round from to v w) back.1 (λ _. inl (refl, leaves from to two))
                    (λ _. inr (refl, two, hits-rounds a v w ne brave alive)))))

  IsFought-after_hit :
      {from to : ℕ} {u v w : World} → IsHit u v → IsFought from to v w → IsFought from to u w
  IsFought-after_hit {from} {to} p q = record {
    bodies = λ r. trans_body (p.bodies r) (q.bodies r);
    cells = elim q.cells [
      | inl e ↦ inl (e ∙ ap (λ g. update g from none) p.grid)
      | inr e ↦ inr (e ∙ ap (λ g. update (update g to (g from)) from none) p.grid)
    ];
    count = q.count ∙ ap (λ n. n - 1) p.count;
  }

  fight_loop-IsFought :
      (fuel from to a v : ℕ) (w : World)
      → a ≢ v
      → rounds (w.robots v).hitpoints ≤ fuel
      → (u : World) × (fight_loop rand fuel from to a v w ≡ some u) × IsFought from to w u
  unfolding fight_loop Round
  fight_loop-IsFought zero from to a v w ne h =
      absurd (omega (arith, rounds-positive (w.robots v).hitpoints))
  fight_loop-IsFought (suc fuel) from to a v w ne h = elim (fight_round-cases from to a v w ne) [
    | inl (ended, fought) ↦ ((fight_round rand from to a v w).0, rw ended refl, fought)
    | inr (goes_on, hit, less) ↦
        let (u, e, fought) =
          fight_loop-IsFought fuel from to a v (fight_round rand from to a v w).0 ne
            (omega (arith, h, less)) in
        (u, rw goes_on e, IsFought-after_hit hit fought)
  ]

  -- A fight between two robots ends, within as many rounds as the victim has hitpoints and one more.
  -- Either the attacker is gone, or it stands in its victim's cell; the count goes down by one; no
  -- other cell changes, and of the robots only hitpoints and the attacker's move flag.
  pub fight-IsFought :
      (from to a v : ℕ) (w : World)
      → w.grid from ≡ some a
      → w.grid to ≡ some v
      → a ≢ v
      → (u : World) × (fight rand from to w ≡ some u)
        × IsFought from to (set_robot w a (record (w.robots a) { moved = true })) u
  unfolding fight
  fight-IsFought from to a v w e f ne =
      let other : (a == v) ≡ false = ground arith in
      let (u, ends, fought) =
        fight_loop-IsFought (rounds (w.robots v).hitpoints) from to a v
          (set_robot w a (record (w.robots a) { moved = true })) ne (rw other (omega arith)) in
      (u, rw (fight, e, f) ends, fought)
