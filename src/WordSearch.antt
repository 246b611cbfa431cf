-- ===== src/WordSearch.antt =====
-- Computer Programming Fall/PA4/PA4.c: a word search over the lines of a text, once the lines and
-- the word are read.
pub mod Directions
pub mod Examples
use homeworks.Prelude.{
  ℕ, zero, suc, ◌+◌, ◌-◌, Bool, true, false, not, ◌&&◌, Option, none, some, List, [], ◌∷◌, ◌++◌,
  ltb, leb, ◌==◌, if◌then◌else◌,
}

-- The globals.
pub record Grid : Type 0 where
  pub lines : ℕ → ℕ → ℕ
  pub word : ℕ → ℕ
  pub line_length : ℕ → ℕ
  pub rows : ℕ
  pub word_length : ℕ
  pub max_length : ℕ

-- `for (; i < i + n; i++) if (test(i)) continue; else break;`: the index where the loop ends.
unfoldable pub letters_loop : (ℕ → Bool) → ℕ → ℕ → ℕ
letters_loop test i zero = i
letters_loop test i (suc n) = let rest = letters_loop test (i + 1) n in if test i then rest else i

-- `a - b >= c` is `a >= b + c`.
unfoldable pub is_horizontal : Grid → ℕ → ℕ → Bool
unfolding letters_loop
is_horizontal g row column =
    if leb (column + g.word_length) (g.line_length row)
    then letters_loop (λ i. g.lines row (column + i) == g.word i) 1 (g.word_length - 1)
      == g.word_length
    else false

unfoldable pub is_vertical : Grid → ℕ → ℕ → Bool
unfolding letters_loop
is_vertical g row column =
    if leb (row + g.word_length) g.rows
    then letters_loop (λ i. g.lines (row + i) column == g.word i) 1 (g.word_length - 1)
      == g.word_length
    else false

unfoldable pub is_diagonal : Grid → ℕ → ℕ → Bool
unfolding letters_loop
is_diagonal g row column =
    if leb (row + g.word_length) g.rows && leb (column + g.word_length) g.max_length
    then letters_loop
        (λ i.
          not (g.lines (row + i) (column + i) == 0) && g.lines (row + i) (column + i) == g.word i)
        1 (g.word_length - 1)
      == g.word_length
    else false

pub data Direction : Type 0 where
  horizontal : Direction
  vertical : Direction
  diagonal : Direction

-- The body of the loops of `main` over the text: the direction that is printed.
unfoldable pub word_at : Grid → ℕ → ℕ → Option Direction
unfolding is_horizontal is_vertical is_diagonal
word_at g i j =
    if g.lines i j == g.word 0
    then if is_horizontal g i j
      then some horizontal
      else if is_vertical g i j
      then some vertical
      else if is_diagonal g i j
      then some diagonal
      else none
    else none

-- The loop over n columns from j, and the one over n rows from i: the rows, columns and directions
-- that are printed.
unfoldable pub row_hits : Grid → ℕ → ℕ → ℕ → List (ℕ × ℕ × Direction)
unfolding word_at
row_hits g i j zero = []
row_hits g i j (suc n) =
    elim (word_at g i j) [ none ↦ [] | some d ↦ (i + 1, j + 1, d) ∷ [] ] ++ row_hits g i (j + 1) n

unfoldable pub hits : Grid → ℕ → ℕ → List (ℕ × ℕ × Direction)
unfolding row_hits
hits g i zero = []
hits g i (suc n) = row_hits g i 0 (g.line_length i) ++ hits g (i + 1) n

-- `for (int i = 0; i < rows; i++) if (line_length[i] > max_length) max_length = line_length[i];`
unfoldable pub longest : (ℕ → ℕ) → ℕ → ℕ → ℕ → ℕ
longest line_length i zero max_length = max_length
longest line_length i (suc n) max_length =
    longest line_length (i + 1) n
      (if ltb max_length (line_length i) then line_length i else max_length)
