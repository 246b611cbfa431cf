-- ===== src/Robots/Placing.antt =====
-- The first part of main of PA4.cpp: the robots are placed on free cells drawn at random.
use homeworks.Prelude.{
  List, [], ◌∷◌, ℕ, zero, suc, ◌+◌, ◌%◌, false, Option, none, some, update, pos,
}
use homeworks.Robots.{
  Kind, optimusprime, robocop, roomba, bulldozer, kamikaze, Robot, World, cell, grid_size,
}

abbrev pub new_robot : Kind → ℕ → ℕ → ℕ → ℕ → Robot
new_robot kind strength hitpoints x y = record {
  kind = kind;
  x = x;
  y = y;
  moved = false;
  strength = strength;
  hitpoints = pos hitpoints;
}

-- A robot of a new number on a cell, after two draws.
abbrev pub put : World → ℕ → Robot → World
put w next robot = record w {
  robots = update w.robots next robot;
  grid = update w.grid (cell robot.x robot.y) (some next);
  draws = w.draws + 2;
}

-- `Grid ()`, with the robots made later at the numbers from 0 on.
abbrev pub empty_world : World
empty_world = record {
  robots = λ r. new_robot kamikaze 0 0 0 0;
  grid = λ c. none;
  count = 25;
  draws = 0;
}

-- `ROBOTS`
abbrev pub robots_each : ℕ
robots_each = 5

-- Each class with the strength and the hitpoints that main sets.
abbrev pub classes : List (Kind × ℕ × ℕ)
classes =
    (optimusprime, 100, 100)
    ∷ (robocop, 30, 40)
    ∷ (roomba, 3, 10)
    ∷ (bulldozer, 50, 200)
    ∷ (kamikaze, 10, 10)
    ∷ []

module _ (rand : ℕ → ℕ) where
  -- The loop that places the `left` robots of one class, with fuel, the first of them number `next`.
  unfoldable pub place : Kind → ℕ → ℕ → ℕ → ℕ → ℕ → World → Option World
  place kind strength hitpoints fuel zero next w = some w
  place kind strength hitpoints zero (suc left) next w = none
  place kind strength hitpoints (suc fuel) (suc left) next w =
      let x = rand w.draws % grid_size in
      let y = rand (w.draws + 1) % grid_size in
      elim (w.grid (cell x y)) [
        | none ↦
            place kind strength hitpoints fuel left (next + 1)
              (put w next (new_robot kind strength hitpoints x y))
        | some r ↦
            place kind strength hitpoints fuel (suc left) next (record w { draws = w.draws + 2 })
      ]

  -- Such loops in a row, each with its own fuel.
  unfoldable pub place_classes : List (Kind × ℕ × ℕ) → List ℕ → ℕ → World → Option World
  unfolding place
  place_classes [] fuels next w = some w
  place_classes (c ∷ todo) [] next w = none
  place_classes (c ∷ todo) (fuel ∷ fuels) next w =
      elim (place c.0 c.1 c.2 fuel robots_each next w) [
        | none ↦ none
        | some v ↦ place_classes todo fuels (next + robots_each) v
      ]

  -- The five loops of main.
  unfoldable pub set_up : List ℕ → Option World
  unfolding place_classes
  set_up fuels = place_classes classes fuels 0 empty_world
