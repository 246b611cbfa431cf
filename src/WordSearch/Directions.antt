-- ===== src/WordSearch/Directions.antt =====
-- The three tests of a place against a description of where a word stands.
use homeworks.Prelude.{
  ℕ, zero, suc, ◌+◌, ◌-◌, ◌<◌, ◌≡◌, refl, sym, ap, ◌∙◌, Bool, true, false, not, ◌&&◌, Option, none,
  some, leb, ◌==◌, if◌then◌else◌, Bool-cases, inl, inr, arith,
}
use homeworks.WordSearch.{
  Grid, letters_loop, is_horizontal, is_vertical, is_diagonal, word_at, Direction, horizontal,
  vertical, diagonal,
}

-- All of the n tests from i.
pub all_from : (ℕ → Bool) → ℕ → ℕ → Bool
all_from test i zero = true
all_from test i (suc n) = test i && all_from test (i + 1) n

letters_loop-all :
    (test : ℕ → Bool) (i n : ℕ) → (letters_loop test i n == i + n) ≡ all_from test i n
unfolding letters_loop all_from
letters_loop-all test i zero = ground arith
letters_loop-all test i (suc n) = elim (Bool-cases (test i)) [
  | inl e ↦ rw e (
      ap (λ k. letters_loop test (i + 1) n == k) {y = i + 1 + n} (omega arith)
      ∙ letters_loop-all test (i + 1) n)
  | inr e ↦ rw e (ground arith)
]

letters-all :
    (test : ℕ → Bool) (n : ℕ)
    → 0 < n
    → test 0 ≡ true
    → (letters_loop test 1 (n - 1) == n) ≡ all_from test 0 n
unfolding all_from
letters-all test zero h e = absurd (omega arith)
letters-all test (suc m) h e = rw e (
    ap (λ k. letters_loop test 1 k == suc m) {y = m} (omega arith)
    ∙ ap (λ k. letters_loop test 1 m == k) {y = 1 + m} (omega arith)
    ∙ letters_loop-all test 1 m)

none-all : (test : ℕ → Bool) (n : ℕ) → 0 < n → test 0 ≡ false → all_from test 0 n ≡ false
unfolding all_from
none-all test zero h e = absurd (omega arith)
none-all test (suc m) h e = rw e refl

-- All letters of the word stand at `cell 0`, `cell 1` and so on.
pub spells : Grid → (ℕ → ℕ) → Bool
spells g cell = all_from (λ k. cell k == g.word k) 0 g.word_length

-- They do, and none of them is the zero byte that fills up a shorter line.
pub spells_text : Grid → (ℕ → ℕ) → Bool
spells_text g cell = all_from (λ k. not (cell k == 0) && cell k == g.word k) 0 g.word_length

-- The direction in which the word stands at row i and column j, the first of the three.
pub direction : Grid → ℕ → ℕ → Option Direction
unfolding spells spells_text
direction g i j =
    if leb (j + g.word_length) (g.line_length i) && spells g (λ k. g.lines i (j + k))
    then some horizontal
    else if leb (i + g.word_length) g.rows && spells g (λ k. g.lines (i + k) j)
    then some vertical
    else if (leb (i + g.word_length) g.rows && leb (j + g.word_length) g.max_length)
        && spells_text g (λ k. g.lines (i + k) (j + k))
    then some diagonal
    else none

guarded : (fits x y : Bool) → x ≡ y → (if fits then x else false) ≡ (fits && y)
guarded true x y e = e
guarded false x y e = refl

at_zero : (f : ℕ → ℕ) (i : ℕ) → f (i + 0) ≡ f i
at_zero f i = ap f (omega arith)

no-left : (b : Bool) → (b && false) ≡ false
no-left true = refl
no-left false = refl

first-test :
    (g : Grid) (f : ℕ → ℕ) (b : Bool)
    → (f 0 == g.word 0) ≡ b
    → (g.word 0 == 0) ≡ false
    → (not (f 0 == 0) && f 0 == g.word 0) ≡ b
first-test g f b e z = ground arith

horizontal-first :
    (g : Grid) (i j : ℕ)
    → 0 < g.word_length
    → (g.lines i (j + 0) == g.word 0) ≡ true
    → is_horizontal g i j
      ≡ (leb (j + g.word_length) (g.line_length i) && spells g (λ k. g.lines i (j + k)))
unfolding is_horizontal spells
horizontal-first g i j h e = guarded _ _ _ (letters-all _ g.word_length h e)

vertical-first :
    (g : Grid) (i j : ℕ)
    → 0 < g.word_length
    → (g.lines (i + 0) j == g.word 0) ≡ true
    → is_vertical g i j ≡ (leb (i + g.word_length) g.rows && spells g (λ k. g.lines (i + k) j))
unfolding is_vertical spells
vertical-first g i j h e = guarded _ _ _ (letters-all _ g.word_length h e)

diagonal-first :
    (g : Grid) (i j : ℕ)
    → 0 < g.word_length
    → (not (g.lines (i + 0) (j + 0) == 0) && g.lines (i + 0) (j + 0) == g.word 0) ≡ true
    → is_diagonal g i j ≡ (
        (leb (i + g.word_length) g.rows && leb (j + g.word_length) g.max_length)
        && spells_text g (λ k. g.lines (i + k) (j + k)))
unfolding is_diagonal spells_text
diagonal-first g i j h e = guarded _ _ _ (letters-all _ g.word_length h e)

direction-none :
    (g : Grid) (i j : ℕ)
    → spells g (λ k. g.lines i (j + k)) ≡ false
    → spells g (λ k. g.lines (i + k) j) ≡ false
    → spells_text g (λ k. g.lines (i + k) (j + k)) ≡ false
    → direction g i j ≡ none
unfolding direction
direction-none g i j a b c = rw (a, b, c, no-left, no-left, no-left) refl

-- For a word that is not empty the tests that `main` makes at a place, after the comparison with
-- the first letter, find the direction in which the whole word stands there, fits in the line or
-- in the column, and for a diagonal in both; of several directions it is the first.
pub word_at-direction :
    (g : Grid) (i j : ℕ)
    → 0 < g.word_length
    → (g.word 0 == 0) ≡ false
    → word_at g i j ≡ direction g i j
unfolding word_at direction spells spells_text
word_at-direction g i j h z = elim (Bool-cases (g.lines i j == g.word 0)) [
  | inl e ↦
      let line = ap (λ n. n == g.word 0) (at_zero (g.lines i) j) ∙ e in
      let column = ap (λ n. n == g.word 0) (at_zero (λ n. g.lines n j) i) ∙ e in
      let corner =
        ap (λ n. n == g.word 0) (at_zero (λ n. g.lines n (j + 0)) i ∙ at_zero (g.lines i) j) ∙ e in
      rw
        (
          e,
          horizontal-first g i j h line,
          vertical-first g i j h column,
          diagonal-first g i j h (first-test g (λ k. g.lines (i + k) (j + k)) true corner z),
        )
        refl
  | inr e ↦
      let line = ap (λ n. n == g.word 0) (at_zero (g.lines i) j) ∙ e in
      let column = ap (λ n. n == g.word 0) (at_zero (λ n. g.lines n j) i) ∙ e in
      let corner =
        ap (λ n. n == g.word 0) (at_zero (λ n. g.lines n (j + 0)) i ∙ at_zero (g.lines i) j) ∙ e in
      rw e (
        sym (
          direction-none g i j (none-all _ g.word_length h line) (none-all _ g.word_length h column)
            (none-all _ g.word_length h
              (first-test g (λ k. g.lines (i + k) (j + k)) false corner z))))
]
