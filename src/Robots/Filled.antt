-- ===== src/Robots/Filled.antt =====
-- The placing of the robots in main of PA4.cpp ends, and how.
use homeworks.Prelude.{
  List, [], ◌∷◌, subst, length, ℕ, zero, suc, ◌+◌, ◌*◌, ◌%◌, ◌≤◌, ◌<◌, ◌≡◌, ◌⊎◌, inl, inr, refl,
  sym, ap, ◌∙◌, true, false, Option, none, some, ◌==◌, Bool-cases, Option-cases, ==→≡, update,
  arith,
}
use mathlib.Core.Option.{none-ne-some, some-injective}
use homeworks.Robots.{Kind, World, cell, grid_size}
use homeworks.Robots.Walk.{IsPlaced, occupied, occupied-update, bit}
use homeworks.Robots.Placing.{
  new_robot, put, empty_world, robots_each, classes, place, place_classes, set_up,
}

-- Whatever has been drawn in pairs, every cell is drawn later on.
abbrev pub IsFair : (ℕ → ℕ) → Type 0
IsFair rand =
    (m c : ℕ)
    → c < grid_size * grid_size
    → (k : ℕ) × (cell (rand (2 * (m + k)) % grid_size) (rand (2 * (m + k) + 1) % grid_size) ≡ c)

-- The world while the robots below `next` have been placed.
record IsFilled (next : ℕ) (w : World) : Type 0 where
  number : occupied (grid_size * grid_size) w.grid ≡ next
  count : w.count ≡ 25
  even : (m : ℕ) × (w.draws ≡ 2 * m)
  older : (c r : ℕ) → w.grid c ≡ some r → r < next
  placed :
      (c r : ℕ)
      → w.grid c ≡ some r
      → ((w.robots r).x < grid_size)
        × ((w.robots r).y < grid_size)
        × (cell (w.robots r).x (w.robots r).y ≡ c)

-- A grid with fewer robots than cells has a free cell.
free_cell : (n : ℕ) (g : ℕ → Option ℕ) → occupied n g < n → (c : ℕ) × (c < n) × (g c ≡ none)
unfolding occupied
free_cell zero g h = absurd (omega arith)
free_cell (suc n) g h = elim (Option-cases (g n)) [
  | inl free ↦ (n, omega arith, free)
  | inr (r, taken) ↦
      let one : bit (g n) ≡ 1 = ap bit taken in
      let (c, below, free) = free_cell n g (omega (arith, h, one)) in
      (c, omega (arith, below), free)
]

-- What stands on the grid once a robot has been put on it.
put-cases :
    (g : ℕ → Option ℕ) (to next c r : ℕ)
    → update g to (some next) c ≡ some r
    → ((to ≡ c) × (next ≡ r)) ⊎ (g c ≡ some r)
put-cases g to next c r e = elim (Bool-cases (to == c)) [
  | inl here ↦ inl (==→≡ to c here, some-injective next r (rw here at e))
  | inr other ↦ inr (rw other at e)
]

put-IsFilled :
    (w : World) (next : ℕ) (kind : Kind) (strength hitpoints x y : ℕ)
    → IsFilled next w
    → x < grid_size
    → y < grid_size
    → w.grid (cell x y) ≡ none
    → IsFilled (next + 1) (put w next (new_robot kind strength hitpoints x y))
put-IsFilled w next kind strength hitpoints x y h hx hy free = record {
  number =
      let none_there : bit (w.grid (cell x y)) ≡ 0 = ap bit free in
      omega (
        arith,
        occupied-update (grid_size * grid_size) (cell x y) w.grid (some next)
            (omega (arith, hx, hy)),
        none_there,
        h.number,
      );
  count = h.count;
  even = (h.even.0 + 1, omega (arith, h.even.1));
  older = λ c r e. elim (put-cases w.grid (cell x y) next c r e) [
    | inl (here, new) ↦ omega (arith, new)
    | inr there ↦ omega (arith, h.older c r there)
  ];
  placed = λ c r e. elim (put-cases w.grid (cell x y) next c r e) [
    | inl (here, new) ↦ let same : (next == r) ≡ true = ground arith in rw same (hx, hy, here)
    | inr there ↦
        let old = h.older c r there in
        let other : (next == r) ≡ false = ground arith in rw other (h.placed c r there)
  ];
}

skip-IsFilled :
    (w : World) (next : ℕ) → IsFilled next w → IsFilled next (record w { draws = w.draws + 2 })
skip-IsFilled w next h = record {
  number = h.number;
  count = h.count;
  even = (h.even.0 + 1, omega (arith, h.even.1));
  older = h.older;
  placed = h.placed;
}

module _ (rand : ℕ → ℕ) (fair : IsFair rand) (kind : Kind) (strength hitpoints : ℕ) where
  -- What `place` ends in.
  abbrev Ends : (left next : ℕ) → World → Type 0
  Ends left next w =
      (fuel : ℕ) × (v : World) × (place rand kind strength hitpoints fuel left next w ≡ some v)
      × IsFilled (next + left) v

  -- A draw of a free cell.
  place-free :
      (left next : ℕ) (w : World)
      → IsFilled next w
      → w.grid (cell (rand w.draws % grid_size) (rand (w.draws + 1) % grid_size)) ≡ none
      → ((u : World) → IsFilled (next + 1) u → Ends left (next + 1) u)
      → Ends (suc left) next w
  unfolding place
  place-free left next w h empty rest =
      let x = rand w.draws % grid_size in
      let y = rand (w.draws + 1) % grid_size in
      let (fuel, v, e, filled) =
        rest (put w next (new_robot kind strength hitpoints x y))
          (put-IsFilled w next kind strength hitpoints x y h (omega arith) (omega arith) empty) in
      let sum : next + 1 + left ≡ next + suc left = omega arith in
      (suc fuel, v, rw (place, empty) e, subst (λ j. IsFilled j v) sum filled)

  -- One robot is placed at the latest when the free cell c is drawn, k pairs on.
  place-once :
      (k c left next : ℕ) (w : World)
      → IsFilled next w
      → w.grid c ≡ none
      → (m : ℕ) → w.draws ≡ 2 * m
      → cell (rand (2 * (m + k)) % grid_size) (rand (2 * (m + k) + 1) % grid_size) ≡ c
      → ((u : World) → IsFilled (next + 1) u → Ends left (next + 1) u)
      → Ends (suc left) next w
  unfolding place
  place-once zero c left next w h free m even drawn rest =
      let now : 2 * (m + zero) ≡ w.draws = omega (arith, even) in
      let there : cell (rand w.draws % grid_size) (rand (w.draws + 1) % grid_size) ≡ c =
        subst (λ d. cell (rand d % grid_size) (rand (d + 1) % grid_size) ≡ c) now drawn in
      place-free left next w h (ap w.grid there ∙ free) rest
  place-once (suc k) c left next w h free m even drawn rest =
      let later : m + suc k ≡ m + 1 + k = omega arith in
      let (fuel, v, e, filled) =
        place-once k c left next (record w { draws = w.draws + 2 }) (skip-IsFilled w next h) free
          (m + 1) (omega (arith, even))
          (subst (λ j. cell (rand (2 * j) % grid_size) (rand (2 * j + 1) % grid_size) ≡ c) later
            drawn)
          rest in
      elim (Option-cases
        (w.grid (cell (rand w.draws % grid_size) (rand (w.draws + 1) % grid_size)))) [
          | inl empty ↦ place-free left next w h empty rest
          | inr (r, taken) ↦ (suc fuel, v, rw (place, taken) e, filled)
        ]

  place-IsFilled :
      (left next : ℕ) (w : World)
      → IsFilled next w
      → next + left ≤ grid_size * grid_size
      → Ends left next w
  unfolding place
  place-IsFilled zero next w h room =
      let sum : next ≡ next + zero = omega arith in (0, w, refl, subst (λ j. IsFilled j w) sum h)
  place-IsFilled (suc left) next w h room =
      let (c, below, free) =
        free_cell (grid_size * grid_size) w.grid (omega (arith, h.number, room)) in
      let (k, drawn) = fair h.even.0 c below in
      place-once k c left next w h free h.even.0 h.even.1 drawn
        (λ u filled. place-IsFilled left (next + 1) u filled (omega (arith, room)))

place_classes-IsFilled :
    (rand : ℕ → ℕ)
    → IsFair rand
    → (todo : List (Kind × ℕ × ℕ)) (next : ℕ) (w : World) → IsFilled next w
    → next + length todo * robots_each ≤ grid_size * grid_size
    → (fuels : List ℕ) × (v : World) × (place_classes rand todo fuels next w ≡ some v)
      × IsFilled (next + length todo * robots_each) v
unfolding place_classes
place_classes-IsFilled rand fair [] next w h room =
    let sum : next ≡ next + 0 * robots_each = omega arith in
    ([], w, refl, subst (λ j. IsFilled j w) sum h)
place_classes-IsFilled rand fair (c ∷ todo) next w h room =
    let (fuel, v, e, filled) =
      place-IsFilled rand fair c.0 c.1 c.2 robots_each next w h (omega (arith, room)) in
    let (fuels, u, f, done) =
      place_classes-IsFilled rand fair todo (next + robots_each) v filled (omega (arith, room)) in
    let sum : next + robots_each + length todo * robots_each
        ≡ next + suc (length todo) * robots_each =
      omega arith in
    (fuel ∷ fuels, u, rw (place_classes, e) f, subst (λ j. IsFilled j u) sum done)

occupied-empty : (n : ℕ) → occupied n (λ c. none) ≡ 0
unfolding occupied
occupied-empty zero = refl
occupied-empty (suc n) = omega (arith, occupied-empty n)

-- With a fair source of random numbers main places all its robots, on 25 different cells, and then
-- the grid and the robots agree and the static count is right.
pub set_up-IsPlaced :
    (rand : ℕ → ℕ)
    → IsFair rand
    → (fuels : List ℕ) × (w : World) × (set_up rand fuels ≡ some w)
      × IsPlaced w
      × (occupied (grid_size * grid_size) w.grid ≡ 25)
unfolding set_up
set_up-IsPlaced rand fair =
    let (fuels, w, e, h) =
      place_classes-IsFilled rand fair classes 0 empty_world
        record {
          number = occupied-empty (grid_size * grid_size);
          count = refl;
          even = (0, refl);
          older = λ c r f. absurd (none-ne-some r f);
          placed = λ c r f. absurd (none-ne-some r f);
        }
        (omega arith) in
    (fuels, w, e, record { counted = h.number ∙ sym h.count; placed = h.placed }, h.number)
