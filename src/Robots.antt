-- ===== src/Robots.antt =====
-- Object Oriented Programming Spring/PA4/PA4.cpp: robots that walk on a grid and fight. A robot's
-- number stands for the pointer to it, and the cell at x, y is number 10 * x + y, as in the array.
-- `rand` gives the results of the successive calls of rand ().
pub mod Fight
pub mod Walk
pub mod Loop
pub mod Simulation
pub mod Placing
pub mod Filled
pub mod Examples
use homeworks.Prelude.{
  ℕ, zero, suc, ◌+◌, ◌-◌, ◌*◌, ◌%◌, Bool, true, false, Option, none, some, List, [], ◌∷◌, ltb, leb,
  ◌==◌, not, ◌&&◌, if◌then◌else◌, update, ℤ, pos, negsuc, ◌-ℤ◌, is_positive,
}

-- `O`, `RP`, `RA`, `B`, `K`
pub data Kind : Type 0 where
  optimusprime : Kind
  robocop : Kind
  roomba : Kind
  bulldozer : Kind
  kamikaze : Kind

abbrev pub is_kamikaze : Kind → Bool
is_kamikaze kamikaze = true
is_kamikaze _ = false

-- A robot without its name, which is only printed.
pub record Robot : Type 0 where
  pub kind : Kind
  pub x : ℕ
  pub y : ℕ
  pub moved : Bool
  pub strength : ℕ
  pub hitpoints : ℤ

pub record World : Type 0 where
  pub robots : ℕ → Robot
  pub grid : ℕ → Option ℕ
  pub count : ℕ
  pub draws : ℕ

-- `GSIZE`
abbrev pub grid_size : ℕ
grid_size = 10

abbrev pub cell : ℕ → ℕ → ℕ
cell x y = x * grid_size + y

abbrev pub set_robot : World → ℕ → Robot → World
set_robot w r robot = record w { robots = update w.robots r robot }

-- A pointer is moved from one cell to another, whose own is overwritten.
abbrev pub take_cell : World → ℕ → ℕ → World
take_cell w from to = record w { grid = update (update w.grid to (w.grid from)) from none }

abbrev pub clear_cell : World → ℕ → World
clear_cell w from = record w { grid = update w.grid from none }

-- `count--`
abbrev pub one_less : World → World
one_less w = record w { count = w.count - 1 }

-- The cell beside x, y in one of the four directions, if it lies on the grid.
unfoldable pub neighbour : ℕ → ℕ → ℕ → Option (ℕ × ℕ)
neighbour zero x zero = none
neighbour zero x (suc y) = some (x, y)
neighbour (suc zero) x y = if ltb (x + 1) grid_size then some (x + 1, y) else none
neighbour (suc (suc zero)) x y = if ltb (y + 1) grid_size then some (x, y + 1) else none
neighbour (suc (suc (suc dir))) zero y = none
neighbour (suc (suc (suc dir))) (suc x) y = some (x, y)

-- The fuel: a hit takes at least one hitpoint.
abbrev pub rounds : ℤ → ℕ
rounds (pos n) = n + 1
rounds (negsuc n) = 1

module _ (rand : ℕ → ℕ) where
  -- `getDamage` of each class, from the draw i on, and the next draw. Every robot that main makes
  -- has a strength above 0.
  abbrev pub bulldozer_damage : Robot → ℕ → ℤ × ℕ
  bulldozer_damage r i = (pos (rand i % r.strength + 1), i + 1)

  abbrev pub roomba_damage : Robot → ℕ → ℤ × ℕ
  roomba_damage r i = (pos (rand i % r.strength + 1 + (rand (i + 1) % r.strength + 1)), i + 2)

  abbrev pub humanic_damage : Robot → ℕ → ℤ × ℕ
  humanic_damage r i =
      let damage = rand i % r.strength + 1 in
      (pos (if rand (i + 1) % 10 == 0 then damage + 50 else damage), i + 2)

  abbrev pub optimusprime_damage : Robot → ℕ → ℤ × ℕ
  optimusprime_damage r i =
      let first = rand i % r.strength + 1 in
      let damage = if rand (i + 1) % 10 == 0 then first + 50 else first in
      (pos (if ltb (rand (i + 2) % 100) 15 then damage * 2 else damage), i + 3)

  abbrev pub kamikaze_damage : Robot → ℕ → ℤ × ℕ
  kamikaze_damage r i = (r.hitpoints, i)

  unfoldable pub get_damage : Robot → ℕ → ℤ × ℕ
  get_damage r i = elim r.kind [
    | optimusprime ↦ optimusprime_damage r i
    | robocop ↦ humanic_damage r i
    | roomba ↦ roomba_damage r i
    | bulldozer ↦ bulldozer_damage r i
    | kamikaze ↦ kamikaze_damage r i
  ]

  -- `hitMessage`: robot a hits robot v, and whether v has died.
  unfoldable pub hit_message : ℕ → ℕ → World → World × Bool
  unfolding get_damage
  hit_message a v w =
      let damage = get_damage (w.robots a) w.draws in
      let new_hitpoints = (w.robots v).hitpoints -ℤ damage.0 in
      (
        record w {
          robots = update w.robots v (record (w.robots v) { hitpoints = new_hitpoints });
          draws = damage.1;
        },
        not (is_positive new_hitpoints),
      )

  -- One round of the loop of `fight` between the robots a and v on two cells, and whether the loop
  -- ends with it. No round changes a cell before the last one.
  unfoldable pub fight_round : ℕ → ℕ → ℕ → ℕ → World → World × Bool
  unfolding hit_message
  fight_round from to a v w =
      let hit = hit_message a v w in
      let back = hit_message v a hit.0 in
      if is_kamikaze (w.robots a).kind
      then (one_less (clear_cell hit.0 from), true)
      else if hit.1
      then (one_less (take_cell hit.0 from to), true)
      else if is_kamikaze (w.robots v).kind
      then (one_less (take_cell back.0 from to), true)
      else if back.1
      then (one_less (clear_cell back.0 from), true)
      else (back.0, false)

  unfoldable pub fight_loop : ℕ → ℕ → ℕ → ℕ → ℕ → World → Option World
  unfolding fight_round
  fight_loop zero from to a v w = none
  fight_loop (suc fuel) from to a v w =
      let rest = fight_loop fuel from to a v (fight_round from to a v w).0 in
      if (fight_round from to a v w).1 then some (fight_round from to a v w).0 else rest

  -- A fight at a cell without a robot is undefined.
  unfoldable pub fight : ℕ → ℕ → World → Option World
  unfolding fight_loop
  fight from to w = elim (w.grid from) [
    | none ↦ none
    | some a ↦ elim (w.grid to) [
      | none ↦ none
      | some v ↦
          fight_loop (rounds (w.robots v).hitpoints) from to a v
            (set_robot w a (record (w.robots a) { moved = true }))
    ]
  ]

  -- `moveRobot` between two cells of the grid
  unfoldable pub move_robot : ℕ → ℕ → World → Option World
  unfolding fight
  move_robot from to w = elim (w.grid to) [
    | none ↦ some (take_cell w from to)
    | some v ↦ fight from to w
  ]

  -- `Robot::move` of robot r
  unfoldable pub move : ℕ → World → Option World
  unfolding move_robot neighbour
  move r w =
      let robot = w.robots r in
      let drawn = record w { draws = w.draws + 1 } in
      elim (neighbour (rand w.draws % 4) robot.x robot.y) [
        | none ↦ some drawn
        | some to ↦ elim (move_robot (cell robot.x robot.y) (cell to.0 to.1) drawn) [
          | none ↦ none
          | some v ↦ some (set_robot v r (record (v.robots r) { x = to.0; y = to.1 }))
        ]
      ]

  -- `moveLoop`, with fuel for the moves.
  unfoldable pub move_loop : ℕ → ℕ → World → Option World
  unfolding move
  move_loop zero r w = none
  move_loop (suc fuel) r w =
      if (w.robots r).moved
      then some w
      else if w.count == 1
      then some w
      else elim (move r w) [ none ↦ none | some v ↦ move_loop fuel r v ]
