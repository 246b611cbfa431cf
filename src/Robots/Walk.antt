-- ===== src/Robots/Walk.antt =====
-- Robot::move and Grid::moveRobot of PA4.cpp: the grid and the robots agree.
use homeworks.Prelude.{
  ℕ, zero, suc, ◌+◌, ◌*◌, ◌%◌, ◌≤◌, ◌<◌, ◌≡◌, ◌≢◌, ◌⊎◌, inl, inr, refl, sym, ap, ◌∙◌, subst, true,
  false, Option, none, some, ◌==◌, Bool-cases, Option-cases, ==→≡, ==_self, update, arith,
}
use mathlib.Core.Option.{none-ne-some, some-injective}
use homeworks.Robots.{World, set_robot, take_cell, cell, grid_size, neighbour, move_robot, move}
use homeworks.Robots.Fight.{IsFought, fight-IsFought}

-- Whether a cell has a robot.
abbrev pub bit : Option ℕ → ℕ
bit none = 0
bit (some r) = 1

-- The robots on the first n cells.
unfoldable pub occupied : ℕ → (ℕ → Option ℕ) → ℕ
occupied zero g = 0
occupied (suc n) g = bit (g n) + occupied n g

-- The number of robots is counted right, and each robot knows the cell that it stands on.
pub record IsPlaced (w : World) : Type 0 where
  pub counted : occupied (grid_size * grid_size) w.grid ≡ w.count
  pub placed :
      (c r : ℕ)
      → w.grid c ≡ some r
      → ((w.robots r).x < grid_size)
        × ((w.robots r).y < grid_size)
        × (cell (w.robots r).x (w.robots r).y ≡ c)

occupied-ge :
    (n i : ℕ) (g : ℕ → Option ℕ) (o : Option ℕ) → n ≤ i → occupied n (update g i o) ≡ occupied n g
unfolding occupied
occupied-ge zero i g o h = refl
occupied-ge (suc n) i g o h =
    let other : (i == n) ≡ false = ground arith in
    rw other (ap (λ k. bit (g n) + k) (occupied-ge n i g o (omega arith)))

-- A write changes the number by what it puts and what was there.
pub occupied-update :
    (n i : ℕ) (g : ℕ → Option ℕ) (o : Option ℕ)
    → i < n
    → occupied n (update g i o) + bit (g i) ≡ occupied n g + bit o
unfolding occupied
occupied-update zero i g o h = absurd (omega arith)
occupied-update (suc n) i g o h = elim (Bool-cases (i == n)) [
  | inl here ↦
      let same : i ≡ n = ==→≡ i n here in
      rw here (rw same (omega (arith, occupied-ge n n g o (omega arith))))
  | inr other ↦ rw other (omega (arith, occupied-update n i g o (ground arith)))
]

neighbour-cell :
    (dir x y : ℕ) (to : ℕ × ℕ)
    → neighbour dir x y ≡ some to
    → x < grid_size
    → y < grid_size
    → (to.0 < grid_size) × (to.1 < grid_size) × (cell to.0 to.1 ≢ cell x y)
unfolding neighbour
neighbour-cell zero x zero to e hx hy = ground arith
neighbour-cell zero x (suc y) to e hx hy = ground arith
neighbour-cell (suc zero) x y to e hx hy = ground arith
neighbour-cell (suc (suc zero)) x y to e hx hy = ground arith
neighbour-cell (suc (suc (suc dir))) zero y to e hx hy = ground arith
neighbour-cell (suc (suc (suc dir))) (suc x) y to e hx hy = ground arith

module _ (g : ℕ → Option ℕ) (n from to r : ℕ) (from_in : from < n) (to_in : to < n)
    (e : g from ≡ some r) (ne : to ≢ from) where
  -- The robot on one cell goes.
  occupied-clear : occupied n (update g from none) + 1 ≡ occupied n g
  occupied-clear =
      let one : bit (g from) ≡ 1 = ap bit e in
      omega (arith, occupied-update n from g none from_in, one)

  -- The robot on one cell takes another.
  occupied-take : occupied n (update (update g to (g from)) from none) + bit (g to) ≡ occupied n g
  occupied-take =
      let one : bit (g from) ≡ 1 = ap bit e in
      let other : (to == from) ≡ false = ground arith in
      let there : bit (update g to (g from) from) ≡ 1 = rw other one in
      omega (
        arith,
        occupied-update n to g (g from) to_in,
        occupied-update n from (update g to (g from)) none from_in,
        one,
        there,
      )

-- A robot that stands somewhere after robot r has left one cell, for another or for good.
stands_after :
    (g g' : ℕ → Option ℕ) (from to r c s : ℕ)
    → g from ≡ some r
    → (g' ≡ update g from none) ⊎ (g' ≡ update (update g to (g from)) from none)
    → g' c ≡ some s
    → ((to ≡ c) × (some r ≡ some s)) ⊎ ((c ≢ from) × (g c ≡ some s))
stands_after g g' from to r c s e cells f = elim (Bool-cases (from == c)) [
  | inl left ↦
      let empty : g' c ≡ none = elim cells [
        | inl q ↦ ap (λ k. k c) q ∙ rw left refl
        | inr q ↦ ap (λ k. k c) q ∙ rw left refl
      ] in
      absurd (none-ne-some s (sym empty ∙ f))
  | inr kept ↦
      let ne : c ≢ from = ground arith in
      elim cells [
        | inl q ↦ inr (ne, rw kept at (sym (ap (λ k. k c) q) ∙ f))
        | inr q ↦ elim (Bool-cases (to == c)) [
          | inl here ↦ inl (==→≡ to c here, sym e ∙ rw (kept, here) at (sym (ap (λ k. k c) q) ∙ f))
          | inr other ↦ inr (ne, rw (kept, other) at (sym (ap (λ k. k c) q) ∙ f))
        ]
      ]
]

-- Then the robots know their cells again, once robot r knows the other cell.
placed-after :
    (w v : World) (r x y from : ℕ)
    → IsPlaced w
    → w.grid from ≡ some r
    → x < grid_size
    → y < grid_size
    → ((s : ℕ) → s ≢ r → ((v.robots s).x ≡ (w.robots s).x) × ((v.robots s).y ≡ (w.robots s).y))
    → (v.grid ≡ update w.grid from none)
      ⊎ (v.grid ≡ update (update w.grid (cell x y) (w.grid from)) from none)
    → (c s : ℕ) → v.grid c ≡ some s
    → let u = set_robot v r (record (v.robots r) { x = x; y = y }) in
      ((u.robots s).x < grid_size)
      × ((u.robots s).y < grid_size)
      × (cell (u.robots s).x (u.robots s).y ≡ c)
placed-after w v r x y from h e hx hy keeps cells c s f =
    elim (stands_after w.grid v.grid from (cell x y) r c s e cells f) [
      | inl (here, it) ↦
          let same : (r == s) ≡ true =
            subst (λ j. (r == j) ≡ true) (some-injective r s it) (==_self r) in
          rw same (hx, hy, here)
      | inr (ne, there) ↦
          let own = h.placed c s there in
          let left = h.placed from r e in
          let stays : s ≢ r =
            λ q. ne (sym own.2 ∙ ap (λ j. cell (w.robots j).x (w.robots j).y) q ∙ left.2) in
          let kept = keeps s stays in
          let other : (r == s) ≡ false = ground arith in
          rw other (omega (arith, own, kept), omega (arith, own, kept), omega (arith, own, kept))
    ]

-- What a move leaves: a world in order, in which the robot has fought or stands where it thinks.
pub record IsMoved (r : ℕ) (v : World) : Type 0 where
  pub in_order : IsPlaced v
  pub known : ((v.robots r).moved ≡ true) ⊎ (v.grid (cell (v.robots r).x (v.robots r).y) ≡ some r)

module _ (r : ℕ) (w : World) (x y : ℕ) (h : IsPlaced w)
    (e : w.grid (cell (w.robots r).x (w.robots r).y) ≡ some r) (hx : x < grid_size)
    (hy : y < grid_size) (ne : cell x y ≢ cell (w.robots r).x (w.robots r).y) where
  -- A step to a free cell.
  walk-IsMoved :
      w.grid (cell x y) ≡ none
      → IsMoved r (
          let v = take_cell w (cell (w.robots r).x (w.robots r).y) (cell x y) in
          set_robot v r (record (v.robots r) { x = x; y = y }))
  walk-IsMoved free =
      let own = h.placed (cell (w.robots r).x (w.robots r).y) r e in
      let empty : bit (w.grid (cell x y)) ≡ 0 = ap bit free in
      let other : (cell (w.robots r).x (w.robots r).y == cell x y) ≡ false = ground arith in
      record {
        in_order = record {
          counted = omega (
            arith,
            occupied-take w.grid (grid_size * grid_size) (cell (w.robots r).x (w.robots r).y)
                (cell x y) r (omega (arith, own)) (omega (arith, hx, hy)) e ne,
            empty,
            h.counted,
          );
          placed =
              placed-after w (take_cell w (cell (w.robots r).x (w.robots r).y) (cell x y)) r x y
                (cell (w.robots r).x (w.robots r).y) h e hx hy (λ s _. (refl, refl)) (inr refl);
        };
        known = rw (==_self r) (inr (rw (other, ==_self (cell x y)) e));
      }

  fight-IsMoved :
      (u : World) (a : ℕ)
      → w.grid (cell x y) ≡ some a
      → IsFought
          (cell (w.robots r).x (w.robots r).y)
          (cell x y)
          (set_robot w r (record (w.robots r) { moved = true }))
          u
      → IsMoved r (set_robot u r (record (u.robots r) { x = x; y = y }))
  fight-IsMoved u a there fought =
      let own = h.placed (cell (w.robots r).x (w.robots r).y) r e in
      let full : bit (w.grid (cell x y)) ≡ 1 = ap bit there in
      record {
        in_order = record {
          counted = elim fought.cells [
            | inl q ↦
                let alike = ap (occupied (grid_size * grid_size)) q in
                omega (
                  arith,
                  alike,
                  occupied-clear w.grid (grid_size * grid_size) (cell (w.robots r).x (w.robots r).y)
                      (cell x y) r (omega (arith, own)) (omega (arith, hx, hy)) e ne,
                  h.counted,
                  fought.count,
                )
            | inr q ↦
                let alike = ap (occupied (grid_size * grid_size)) q in
                omega (
                  arith,
                  alike,
                  occupied-take w.grid (grid_size * grid_size) (cell (w.robots r).x (w.robots r).y)
                      (cell x y) r (omega (arith, own)) (omega (arith, hx, hy)) e ne,
                  full,
                  h.counted,
                  fought.count,
                )
          ];
          placed =
              placed-after w u r x y (cell (w.robots r).x (w.robots r).y) h e hx hy
                (λ s others.
                  let other : (r == s) ≡ false = ground arith in
                  ((fought.bodies s).x ∙ rw other refl, (fought.bodies s).y ∙ rw other refl))
                fought.cells;
        };
        known = rw (==_self r) (inl ((fought.bodies r).moved ∙ rw (==_self r) refl));
      }

  -- The attacker and its victim are two robots.
  victim-ne : (a : ℕ) → w.grid (cell x y) ≡ some a → r ≢ a
  victim-ne a there q =
      ne
        (sym (h.placed (cell x y) a there).2 ∙ sym (ap (λ j. cell (w.robots j).x (w.robots j).y) q))

-- A move of a robot on the grid always ends, fights included. Then the count is again the number of
-- robots on the grid, every robot on the grid stands where it thinks, and the one that moved either
-- has fought or still stands on the grid.
pub move-IsMoved :
    (rand : ℕ → ℕ) (r : ℕ) (w : World)
    → IsPlaced w
    → w.grid (cell (w.robots r).x (w.robots r).y) ≡ some r
    → (v : World) × (move rand r w ≡ some v) × IsMoved r v
unfolding move move_robot
move-IsMoved rand r w h e =
    let drawn : World = record w { draws = w.draws + 1 } in
    let own = h.placed (cell (w.robots r).x (w.robots r).y) r e in
    let same : IsPlaced drawn = record { counted = h.counted; placed = h.placed } in
    elim (Option-cases (neighbour (rand w.draws % 4) (w.robots r).x (w.robots r).y)) [
      | inl edge ↦ (drawn, rw (move, edge) refl, record { in_order = same; known = inr e })
      | inr (to, found) ↦
          let next =
            neighbour-cell (rand w.draws % 4) (w.robots r).x (w.robots r).y to found own.0 own.1 in
          elim (Option-cases (w.grid (cell to.0 to.1))) [
            | inl free ↦ (
              _,
              rw (move, found, free) refl,
              walk-IsMoved r drawn to.0 to.1 same e next.0 next.1 next.2 free,
            )
            | inr (a, there) ↦
                let (u, ends, fought) =
                  fight-IsFought rand (cell (w.robots r).x (w.robots r).y) (cell to.0 to.1) r a
                    drawn e there
                    (victim-ne r drawn to.0 to.1 same e next.0 next.1 next.2 a there) in
                (
                  _,
                  rw (move, found, there, ends) refl,
                  fight-IsMoved r drawn to.0 to.1 same e next.0 next.1 next.2 u a there fought,
                )
          ]
    ]
