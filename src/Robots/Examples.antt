-- ===== src/Robots/Examples.antt =====
-- The theorems on the robots at a small grid.
use homeworks.Prelude.{
  ◌≢◌, ◌+◌, ◌-◌, List, ◌*◌, ◌%◌, ◌/◌, ◌∙◌, ◌⊎◌, ℤ, ℕ, ◌≡◌, refl, true, false, Option, none, some,
  ◌==◌, if◌then◌else◌, pos, arith,
}
use homeworks.Robots.{cell, Kind, bulldozer, kamikaze, roomba, Robot, World, set_robot, fight, move}
use homeworks.Robots.Fight.{IsFought, fight-IsFought}
use homeworks.Robots.Simulation.{IsStuck, reset_from, simulation, simulation-IsPlaced}
use homeworks.Robots.Placing.{set_up}
use homeworks.Robots.Filled.{IsFair, set_up-IsPlaced}
use homeworks.Robots.Walk.{IsPlaced, IsMoved, occupied, move-IsMoved}

abbrev robot : Kind → ℕ → ℕ → Robot
robot kind x hitpoints = record {
  kind = kind;
  x = x;
  y = 0;
  moved = false;
  strength = 10;
  hitpoints = pos hitpoints;
}

-- A robot of some kind at 0, 0 beside a roomba at 1, 0.
abbrev pair_of : Kind → World
pair_of kind = record {
  robots = λ r. if r == 0 then robot kind 0 20 else robot roomba 1 20;
  grid = λ c. if c == 0 then some 0 else if c == 10 then some 1 else none;
  count = 2;
  draws = 0;
}

-- Every call of rand () gives 1, which is a step in the direction of x.
abbrev ones : ℕ → ℕ
ones i = 1

pair-IsPlaced : IsPlaced (pair_of bulldozer)
unfolding occupied
pair-IsPlaced = record { counted = refl; placed = λ c r e. ground arith }

fight-IsFought_example :
    (u : World) × (fight ones 0 10 (pair_of bulldozer) ≡ some u)
    × IsFought 0 10
        (set_robot (pair_of bulldozer) 0 (record (robot bulldozer 0 20) { moved = true }))
        u
fight-IsFought_example =
    fight-IsFought ones 0 10 0 1 (pair_of bulldozer) refl refl (λ e. omega (arith, e))

move-IsMoved_example : (v : World) × (move ones 0 (pair_of bulldozer) ≡ some v) × IsMoved 0 v
move-IsMoved_example = move-IsMoved ones 0 (pair_of bulldozer) pair-IsPlaced refl

-- A kamikaze's victim has no hitpoints left and stays on the grid.
victim_after : Option World → Option (Option ℕ × ℤ)
victim_after none = none
victim_after (some w) = some (w.grid 10, (w.robots 1).hitpoints)

kamikaze_test : victim_after (fight ones 0 10 (pair_of kamikaze)) ≡ some (some 1, pos 0)
unfolding victim_after fight
kamikaze_test = refl

-- A source of random numbers whose pairs run through all the cells.
abbrev in_turn : ℕ → ℕ
in_turn i = if i % 2 == 0 then i / 2 / 10 % 10 else i / 2 % 10

in_turn-cell : (j : ℕ) → cell (in_turn (2 * j) % 10) (in_turn (2 * j + 1) % 10) ≡ j % 100
in_turn-cell j =
    let even : (2 * j % 2 == 0) ≡ true = ground arith in
    let odd : ((2 * j + 1) % 2 == 0) ≡ false = ground arith in rw (even, odd) (omega arith)

in_turn-IsFair : IsFair in_turn
in_turn-IsFair m c h =
    (c + 100 - m % 100, in_turn-cell (m + (c + 100 - m % 100)) ∙ omega (arith, h))

set_up-IsPlaced_example :
    (fuels : List ℕ) × (w : World) × (set_up in_turn fuels ≡ some w)
    × IsPlaced w
    × (occupied 100 w.grid ≡ 25)
set_up-IsPlaced_example = set_up-IsPlaced in_turn in_turn-IsFair

simulation-IsPlaced_example :
    ((v : World) × (simulation ones 3 (pair_of bulldozer) ≡ some v)
      × ((IsPlaced v × (v.count ≢ 1)) ⊎ ((v.count ≡ 1) × (occupied 100 v.grid ≡ 0))))
    ⊎ ((simulation ones 3 (pair_of bulldozer) ≡ none)
        × IsStuck ones 3 0 (reset_from 100 0 (pair_of bulldozer)))
simulation-IsPlaced_example = simulation-IsPlaced ones 3 (pair_of bulldozer) pair-IsPlaced
