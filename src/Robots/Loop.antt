-- ===== src/Robots/Loop.antt =====
-- Grid::moveLoop of PA4.cpp: when it ends.
use homeworks.Prelude.{
  ℕ, zero, suc, ◌≡◌, ◌⊎◌, inl, inr, refl, sym, ◌∙◌, true, false, none, some, ◌==◌, Bool-cases, ==→≡,
}
use mathlib.Core.Bool.{false≢true}
use homeworks.Robots.{World, cell, move, move_loop}
use homeworks.Robots.Walk.{IsPlaced, move-IsMoved}

module _ (rand : ℕ → ℕ) (r : ℕ) where
  -- Moves in a row, each of a robot that has not fought yet and is not the last one.
  pub data Walked : ℕ → World → World → Type 0 where
    stood : {w : World} → Walked zero w w
    walked :
        {n : ℕ} {w u v : World}
        → (w.robots r).moved ≡ false
        → (w.count == 1) ≡ false
        → move rand r w ≡ some u
        → Walked n u v
        → Walked (suc n) w v

  -- Started for a robot that has fought or stands on the grid, the loop ends with the robot having
  -- fought or one robot left, unless it has made all the moves of its fuel, none with a fight. In
  -- either case the grid and the robots agree in the end.
  pub move_loop-IsPlaced :
      (fuel : ℕ) (w : World)
      → IsPlaced w
      → ((w.robots r).moved ≡ true) ⊎ (w.grid (cell (w.robots r).x (w.robots r).y) ≡ some r)
      → (v : World) × IsPlaced v
        × (((move_loop rand fuel r w ≡ some v) × (((v.robots r).moved ≡ true) ⊎ (v.count ≡ 1)))
            ⊎ ((move_loop rand fuel r w ≡ none) × Walked fuel w v))
  unfolding move_loop
  move_loop-IsPlaced zero w h k = (w, h, inr (refl, stood))
  move_loop-IsPlaced (suc fuel) w h k = elim (Bool-cases (w.robots r).moved) [
    | inl fought ↦ (w, h, inl (rw fought refl, inl fought))
    | inr waits ↦ elim (Bool-cases (w.count == 1)) [
      | inl last ↦ (w, h, inl (rw (waits, last) refl, inr (==→≡ w.count 1 last)))
      | inr more ↦
          let here : w.grid (cell (w.robots r).x (w.robots r).y) ≡ some r = elim k [
            | inl moved ↦ absurd (false≢true (sym waits ∙ moved))
            | inr here ↦ here
          ] in
          let (u, e, good) = move-IsMoved rand r w h here in
          let (v, placed, ends) = move_loop-IsPlaced fuel u good.in_order good.known in
          (
            v,
            placed,
            elim ends [
              | inl (done, why) ↦ inl (rw (waits, more, e) done, why)
              | inr (out, moves) ↦ inr (rw (waits, more, e) out, walked waits more e moves)
            ],
          )
    ]
  ]
