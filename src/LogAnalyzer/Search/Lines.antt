-- ===== src/LogAnalyzer/Search/Lines.antt =====
-- The lines that the manager reads against the bytes of the file.
use homeworks.Prelude.{
  ℕ, zero, suc, ◌≤◌, ◌<◌, ◌≡◌, refl, sym, ap, ◌∙◌, inl, inr, List, [], ◌∷◌, ◌++◌, false, length,
  concat, ◌==◌, Bool-cases, arith, length-append,
}
use homeworks.LogAnalyzer.Search.{max_line_length, read_loop, read_line, read_lines}

read_loop-append : (n : ℕ) (file : List ℕ) → (read_loop n file).0 ++ (read_loop n file).1 ≡ file
unfolding read_loop
read_loop-append zero file = refl
read_loop-append (suc n) [] = refl
read_loop-append (suc n) (c ∷ file) = elim (Bool-cases (c == 10)) [
  | inl newline ↦ rw newline refl
  | inr other ↦ rw other (ap (◌∷◌ c) (read_loop-append n file))
]

read_loop-bound : (n : ℕ) (file : List ℕ) → length (read_loop n file).0 ≤ n
unfolding read_loop
read_loop-bound zero file = omega arith
read_loop-bound (suc n) [] = omega arith
read_loop-bound (suc n) (c ∷ file) = ground (arith, read_loop-bound n file)

read_loop-empty : (n : ℕ) (file : List ℕ) → length (read_loop (suc n) file).0 ≡ 0 → file ≡ []
unfolding read_loop
read_loop-empty n [] e = refl
read_loop-empty n (c ∷ file) e = absurd (ground arith)

positive : (n : ℕ) → (n == 0) ≡ false → 0 < n
positive n h = ground arith

-- With fuel for every byte the lines that the manager reads are the whole file, nothing lost and
-- nothing read twice.
pub concat-read_lines :
    (fuel : ℕ) (file : List ℕ) → length file < fuel → concat (read_lines fuel file) ≡ file
unfolding read_lines read_line concat
concat-read_lines zero file h = absurd (omega arith)
concat-read_lines (suc fuel) file h =
    let out = read_loop 1023 file in
    let whole = read_loop-append 1023 file in
    elim (Bool-cases (length out.0 == 0)) [
      | inl empty ↦ rw empty (sym (read_loop-empty 1022 file (ground arith)))
      | inr some_bytes ↦
          let size = ap length whole in
          let split = length-append out.0 out.1 in
          rw some_bytes (
            ap (λ r. out.0 ++ r)
              (concat-read_lines fuel out.1
                (omega (arith, positive (length out.0) some_bytes, size, split, h)))
            ∙ whole)
    ]

-- Every line has a byte, and none is longer than 1023 bytes.
abbrev pub AllFit : List (List ℕ) → Type 0
AllFit [] = Unit {0}
AllFit (l ∷ ls) = (0 < length l) × (length l < max_line_length) × AllFit ls

-- Each line that the manager reads has at least one byte and fits its array of 1024 with the
-- terminator, so a longer line of the file is read as several.
pub read_lines-AllFit : (fuel : ℕ) (file : List ℕ) → AllFit (read_lines fuel file)
unfolding read_lines read_line
read_lines-AllFit zero file = tt
read_lines-AllFit (suc fuel) file =
    let out = read_loop 1023 file in
    elim (Bool-cases (length out.0 == 0)) [
      | inl empty ↦ rw empty tt
      | inr some_bytes ↦ rw some_bytes (
        positive (length out.0) some_bytes,
        omega (arith, read_loop-bound 1023 file),
        read_lines-AllFit fuel out.1,
      )
    ]
