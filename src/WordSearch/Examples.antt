-- ===== src/WordSearch/Examples.antt =====
-- The word search on a small text.
use homeworks.Prelude.{◌+◌, ◌≡◌, refl, ◌==◌, leb, if◌then◌else◌, [], ◌∷◌, arith}
use homeworks.WordSearch.{
  Grid, horizontal, vertical, letters_loop, is_horizontal, is_vertical, is_diagonal, word_at,
  row_hits, hits, longest,
}
use homeworks.WordSearch.Directions.{direction, word_at-direction}

-- The lines "ab" and "bb", and the word "bb".
abbrev small : Grid
small = record {
  lines = λ i j. if leb 2 j then 0 else if (i + j) == 0 then b'a' else b'b';
  word = λ i. if leb 2 i then 0 else b'b';
  line_length = λ i. if leb 2 i then 0 else 2;
  rows = 2;
  word_length = 2;
  max_length = 2;
}

hits_run : hits small 0 2 ≡ (1, 2, vertical) ∷ (2, 1, horizontal) ∷ []
unfolding hits row_hits word_at is_horizontal is_vertical is_diagonal letters_loop
hits_run = refl

longest_run : longest small.line_length 0 2 0 ≡ 2
unfolding longest
longest_run = refl

word_at-direction_example : word_at small 1 0 ≡ direction small 1 0
word_at-direction_example = word_at-direction small 1 0 (omega arith) refl
