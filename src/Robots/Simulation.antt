-- ===== src/Robots/Simulation.antt =====
-- Grid::simulation of PA4.cpp: one round in which every robot moves.
use homeworks.Prelude.{
  ℕ, zero, suc, ◌+◌, ◌*◌, ◌≤◌, ◌<◌, ◌≡◌, ◌≢◌, ◌⊎◌, inl, inr, refl, sym, ap, ◌∙◌, subst, false,
  Option, none, some, ◌==◌, if◌then◌else◌, Bool-cases, if_cases, Option-cases, ==→≡, arith,
}
use homeworks.Robots.{Robot, World, set_robot, clear_cell, cell, grid_size, move_loop}
use homeworks.Robots.Walk.{IsPlaced, occupied, bit, occupied-update}
use homeworks.Robots.Loop.{Walked, move_loop-IsPlaced}

-- The move flags of the robots on n cells from cell i on are cleared.
unfoldable pub reset_from : ℕ → ℕ → World → World
reset_from zero i w = w
reset_from (suc n) i w = elim (w.grid i) [
  | none ↦ reset_from n (i + 1) w
  | some r ↦ reset_from n (i + 1) (set_robot w r (record (w.robots r) { moved = false }))
]

-- The first robot on n cells from cell i on is taken off the grid.
unfoldable pub remove_from : ℕ → ℕ → World → World
remove_from zero i w = w
remove_from (suc n) i w = elim (w.grid i) [
  | none ↦ remove_from n (i + 1) w
  | some r ↦ clear_cell w i
]

module _ (rand : ℕ → ℕ) (fuel : ℕ) where
  -- The robots on n cells from cell i on move, with fuel for each, until one is left.
  unfoldable pub visit : ℕ → ℕ → World → Option World
  unfolding move_loop
  visit zero i w = some w
  visit (suc n) i w = elim (w.grid i) [
    | none ↦ visit n (i + 1) w
    | some r ↦ elim (move_loop rand fuel r w) [
      | none ↦ none
      | some v ↦ if v.count == 1 then some v else visit n (i + 1) v
    ]
  ]

  unfoldable pub simulation : World → Option World
  unfolding visit reset_from remove_from
  simulation w = elim (visit (grid_size * grid_size) 0 (reset_from (grid_size * grid_size) 0 w)) [
    | none ↦ none
    | some v ↦ some (if v.count == 1 then remove_from (grid_size * grid_size) 0 v else v)
  ]

reset_from-IsPlaced : (n i : ℕ) (w : World) → IsPlaced w → IsPlaced (reset_from n i w)
unfolding reset_from
reset_from-IsPlaced zero i w h = h
reset_from-IsPlaced (suc n) i w h = elim (Option-cases (w.grid i)) [
  | inl free ↦ rw (reset_from, free) (reset_from-IsPlaced n (i + 1) w h)
  | inr (r, there) ↦
      rw (reset_from, there)
        (reset_from-IsPlaced n (i + 1) (set_robot w r (record (w.robots r) { moved = false }))
          record {
            counted = h.counted;
            placed = λ c s e.
                if_cases (λ (b : Robot). (b.x < grid_size) × (b.y < grid_size) × (cell b.x b.y ≡ c))
                  (r == s)
                  (λ here.
                    subst
                      (λ j.
                        ((w.robots j).x < grid_size)
                        × ((w.robots j).y < grid_size)
                        × (cell (w.robots j).x (w.robots j).y ≡ c))
                      (sym (==→≡ r s here)) (h.placed c s e))
                  (λ _. h.placed c s e);
          })
]

-- From w, the visits of the first k cells from cell i on lead to a world whose robot on the next
-- cell makes all the moves of its fuel from there without a fight.
pub IsStuck : (ℕ → ℕ) → ℕ → ℕ → World → Type 0
IsStuck rand fuel i w =
    (k : ℕ) × (r : ℕ) × (u : World) × (v : World) × (visit rand fuel k i w ≡ some u)
    × (u.grid (i + k) ≡ some r)
    × (move_loop rand fuel r u ≡ none)
    × Walked rand r fuel u v

-- What a round comes to, unless a robot is stuck.
Comes : (ℕ → ℕ) → ℕ → ℕ → World → Option World → (World → Type 0) → Type 0
Comes rand fuel i w o P = ((v : World) × (o ≡ some v) × P v) ⊎ ((o ≡ none) × IsStuck rand fuel i w)

-- A robot that gets stuck after the visit of a cell.
IsStuck-next :
    (rand : ℕ → ℕ) (fuel i : ℕ) (w u : World)
    → ((k : ℕ) → visit rand fuel (suc k) i w ≡ visit rand fuel k (i + 1) u)
    → IsStuck rand fuel (i + 1) u
    → IsStuck rand fuel i w
unfolding IsStuck
IsStuck-next rand fuel i w u steps (k, r, t, v, run, there, out, moves) =
    let at : i + suc k ≡ i + 1 + k = omega arith in
    (suc k, r, t, v, steps k ∙ run, ap t.grid at ∙ there, out, moves)

Comes-next :
    (rand : ℕ → ℕ) (fuel i : ℕ) (w u : World) (o : Option World) (P : World → Type 0)
    → ((k : ℕ) → visit rand fuel (suc k) i w ≡ visit rand fuel k (i + 1) u)
    → Comes rand fuel (i + 1) u o P
    → Comes rand fuel i w o P
unfolding Comes
Comes-next rand fuel i w u o P steps (inl done) = inl done
Comes-next rand fuel i w u o P steps (inr (gone, stuck)) =
    inr (gone, IsStuck-next rand fuel i w u steps stuck)

visit-IsPlaced :
    (rand : ℕ → ℕ) (fuel n i : ℕ) (w : World)
    → IsPlaced w
    → Comes rand fuel i w (visit rand fuel n i w) IsPlaced
unfolding visit Comes IsStuck
visit-IsPlaced rand fuel zero i w h = inl (w, refl, h)
visit-IsPlaced rand fuel (suc n) i w h = elim (Option-cases (w.grid i)) [
  | inl free ↦
      Comes-next rand fuel i w w _ IsPlaced (λ k. rw (visit, free) refl)
        (rw (visit, free) (visit-IsPlaced rand fuel n (i + 1) w h))
  | inr (r, there) ↦
      let own = h.placed i r there in
      let (u, placed, ends) = move_loop-IsPlaced rand r fuel w h (inr (rw own.2 there)) in
      elim ends [
        | inr (out, moves) ↦ inr (
          rw (visit, there, out) refl,
          (
            zero,
            r,
            w,
            u,
            refl,
            (let at : i + zero ≡ i = omega arith in ap w.grid at ∙ there),
            out,
            moves,
          ),
        )
        | inl (done, why) ↦ elim (Bool-cases (u.count == 1)) [
          | inl last ↦ inl (u, rw (visit, there, done, last) refl, placed)
          | inr more ↦
              Comes-next rand fuel i w u _ IsPlaced (λ k. rw (visit, there, done, more) refl)
                (rw (visit, there, done, more) (visit-IsPlaced rand fuel n (i + 1) u placed))
        ]
      ]
]

count-remove_from : (n i : ℕ) (w : World) → (remove_from n i w).count ≡ w.count
unfolding remove_from
count-remove_from zero i w = refl
count-remove_from (suc n) i w = elim (Option-cases (w.grid i)) [
  | inl free ↦ rw (remove_from, free) (count-remove_from n (i + 1) w)
  | inr (r, there) ↦ rw (remove_from, there) refl
]

occupied-none : (g : ℕ → Option ℕ) → occupied 0 g ≡ 0
unfolding occupied
occupied-none g = refl

occupied-next :
    (i : ℕ) (w : World) → w.grid i ≡ none → occupied i w.grid ≡ 0 → occupied (i + 1) w.grid ≡ 0
unfolding occupied
occupied-next i w free below =
    let none_there : bit (w.grid i) ≡ 0 = ap bit free in
    let next : suc i ≡ i + 1 = omega arith in
    subst (λ j. occupied j w.grid ≡ 0) next (omega (arith, none_there, below))

-- The only robot left is taken off the grid.
occupied-remove_from :
    (n i : ℕ) (w : World)
    → i + n ≡ grid_size * grid_size
    → occupied i w.grid ≡ 0
    → occupied (grid_size * grid_size) w.grid ≤ 1
    → occupied (grid_size * grid_size) (remove_from n i w).grid ≡ 0
unfolding remove_from
occupied-remove_from zero i w sum below few =
    let all_cells : i ≡ grid_size * grid_size = omega (arith, sum) in
    subst (λ j. occupied j w.grid ≡ 0) all_cells below
occupied-remove_from (suc n) i w sum below few = elim (Option-cases (w.grid i)) [
  | inl free ↦
      rw (remove_from, free)
        (occupied-remove_from n (i + 1) w (omega (arith, sum)) (occupied-next i w free below) few)
  | inr (r, there) ↦
      let one : bit (w.grid i) ≡ 1 = ap bit there in
      rw (remove_from, there)
        (omega (
          arith,
          occupied-update (grid_size * grid_size) i w.grid none (omega (arith, sum)),
          one,
          few,
        ))
]

-- A round of the simulation, with fuel for the moves of each robot, leaves more than one robot or
-- none, with the grid, the robots and the count in agreement, or takes the last robot off the grid,
-- with a count of one. Otherwise it has no result, and the visits of some first cells of this round
-- lead to a robot on the next cell that makes all the moves of its fuel without a fight.
pub simulation-IsPlaced :
    (rand : ℕ → ℕ) (fuel : ℕ) (w : World)
    → IsPlaced w
    → ((v : World) × (simulation rand fuel w ≡ some v)
        × ((IsPlaced v × (v.count ≢ 1))
            ⊎ ((v.count ≡ 1) × (occupied (grid_size * grid_size) v.grid ≡ 0))))
      ⊎ ((simulation rand fuel w ≡ none)
          × IsStuck rand fuel 0 (reset_from (grid_size * grid_size) 0 w))
unfolding simulation Comes
simulation-IsPlaced rand fuel w h =
    elim (visit-IsPlaced rand fuel (grid_size * grid_size) 0
      (reset_from (grid_size * grid_size) 0 w)
      (reset_from-IsPlaced (grid_size * grid_size) 0 w h)) [
        | inr (out, stuck) ↦ inr (rw (simulation, out) refl, stuck)
        | inl (v, done, placed) ↦ elim (Bool-cases (v.count == 1)) [
          | inl last ↦ inl (
            remove_from (grid_size * grid_size) 0 v,
            rw (simulation, done, last) refl,
            inr (
              count-remove_from (grid_size * grid_size) 0 v ∙ ==→≡ v.count 1 last,
              occupied-remove_from (grid_size * grid_size) 0 v (omega arith) (occupied-none v.grid)
                  (omega (arith, placed.counted, ==→≡ v.count 1 last)),
            ),
          )
          | inr more ↦ inl (v, rw (simulation, done, more) refl, inl (placed, ground arith))
        ]
      ]
