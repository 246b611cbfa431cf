-- ===== src/Bank/Database/Numbered.antt =====
-- The two digits of an account's number in a line of Bank.log.
use homeworks.Prelude.{
  ℕ, suc, ◌+◌, ◌-◌, ◌*◌, ◌/◌, ◌%◌, ◌^◌, ◌<◌, ◌≤◌, ◌≡◌, refl, ap, ◌∙◌, false, [], ◌∷◌, ◌++◌, drop,
  some, ltb, lt→ltb, le→ltb, CString, arith, isdigit, digits_value, clamp, digits_from, decimal,
  decimal_int, pad2, Bool-cases, inl, inr,
}
use homeworks.Machine.Parser.Words.{AllChars}
use homeworks.Machine.Parser.Numbers.{isdigit_digit, digits_value-digit}
use homeworks.School.{skip_spaces}
use homeworks.Bank.{word_text, is_negative}
use homeworks.Bank.Database.{scan_number, scan_two}
use homeworks.Bank.Database.Scanning.{scan_number-digits, skip_spaces-digits}

-- The texts of small numbers.
decimal-one : (n : ℕ) → n < 10 → decimal n ≡ (n + b'0') ∷ []
unfolding decimal digits_from
decimal-one n h = ap (λ f. digits_from f n []) {y = suc n} (omega arith) ∙ rw (lt→ltb n 10 h) refl

decimal-two : (n : ℕ) → 10 ≤ n → n < 100 → decimal n ≡ (n / 10 + b'0') ∷ (n % 10 + b'0') ∷ []
unfolding decimal digits_from
decimal-two n g h =
    ap (λ f. digits_from f n []) {y = suc (suc (n - 1))} (omega arith)
    ∙ rw (le→ltb n 10 g, lt→ltb (n / 10) 10 (omega arith)) refl

decimal-three :
    (n : ℕ)
    → 100 ≤ n
    → n < 1000
    → decimal n ≡ (n / 10 / 10 + b'0') ∷ (n / 10 % 10 + b'0') ∷ (n % 10 + b'0') ∷ []
unfolding decimal digits_from
decimal-three n g h =
    ap (λ f. digits_from f n []) {y = suc (suc (suc (n - 2)))} (omega arith)
    ∙ rw
        (
          le→ltb n 10 (omega arith),
          le→ltb (n / 10) 10 (omega arith),
          lt→ltb (n / 10 / 10) 10 (omega arith),
        )
        refl

word_text-small : (n : ℕ) → n < 1000 → word_text n ≡ decimal n
unfolding word_text decimal_int
word_text-small n h = rw (small n h) refl
  where
    small : (n : ℕ) → n < 1000 → is_negative n ≡ false
    small n h = ground arith

pad2-one : (n : ℕ) → n < 10 → pad2 (decimal n) ≡ (n / 10 + b'0') ∷ (n % 10 + b'0') ∷ []
unfolding pad2
pad2-one n h =
    ap pad2 (decimal-one n h)
    ∙ ap (λ a. a ∷ (n + b'0') ∷ []) {y = n / 10 + b'0'} (omega arith)
    ∙ ap (λ b. (n / 10 + b'0') ∷ b ∷ []) {y = n % 10 + b'0'} (omega arith)

pub pad2-two : (n : ℕ) → n < 100 → pad2 (word_text n) ≡ (n / 10 + b'0') ∷ (n % 10 + b'0') ∷ []
unfolding pad2
pad2-two n h = ap pad2 (word_text-small n (omega arith)) ∙ elim (Bool-cases (ltb n 10)) [
  | inl e ↦ pad2-one n (ground arith)
  | inr e ↦ ap pad2 (decimal-two n (ground arith) h)
]

pad2-three :
    (n : ℕ)
    → 100 ≤ n
    → n < 1000
    → pad2 (word_text n) ≡ (n / 10 / 10 + b'0') ∷ (n / 10 % 10 + b'0') ∷ (n % 10 + b'0') ∷ []
unfolding pad2
pad2-three n g h = ap pad2 (word_text-small n h ∙ decimal-three n g h)

unclamped : (a b : ℕ) → a < 10 → b < 10 → clamp (2 ^ 63 - 1) (a * 10 + b) % 2 ^ 32 ≡ a * 10 + b
unclamped a b g h = ground arith

-- `%02d` takes two digits.
scan_two-digits :
    (a b : ℕ) (rest : CString)
    → a < 10
    → b < 10
    → scan_two ((a + b'0') ∷ (b + b'0') ∷ rest) ≡ some (a * 10 + b, rest)
unfolding scan_two
scan_two-digits a b rest g h =
    let ds = (a + b'0') ∷ (b + b'0') ∷ [] in
    let both : AllChars isdigit ds = (isdigit_digit a g, (isdigit_digit b h, tt)) in
    let number : digits_value ds 0 ≡ a * 10 + b =
      digits_value-digit a 0 ((b + b'0') ∷ []) g
      ∙ digits_value-digit b (0 * 10 + a) [] h
      ∙ omega arith in
    let skipped : skip_spaces ((a + b'0') ∷ (b + b'0') ∷ rest) ≡ (a + b'0') ∷ (b + b'0') ∷ rest =
      skip_spaces-digits ds rest both in
    let taken : scan_number ((a + b'0') ∷ (b + b'0') ∷ []) ≡ some (a * 10 + b, []) =
      scan_number-digits ds [] both refl
      ∙ ap (λ k. some (clamp (2 ^ 63 - 1) k % 2 ^ 32, [])) number
      ∙ ap (λ k. some (k, [])) (unclamped a b g h) in
    rw (scan_two, skipped, taken) (ap (λ t. some (a * 10 + b, drop 2 t)) skipped)

pub scan_two-pad2 :
    (n : ℕ) (rest : CString) → n < 100 → scan_two (pad2 (word_text n) ++ rest) ≡ some (n, rest)
scan_two-pad2 n rest h =
    ap (λ ds. scan_two (ds ++ rest)) (pad2-two n h)
    ∙ scan_two-digits (n / 10) (n % 10) rest (omega arith) (omega arith)
    ∙ ap (λ k. some (k, rest)) {y = n} (omega arith)

pub scan_two-three :
    (n : ℕ) (rest : CString)
    → 100 ≤ n
    → n < 1000
    → scan_two (pad2 (word_text n) ++ rest) ≡ some (n / 10, (n % 10 + b'0') ∷ rest)
scan_two-three n rest g h =
    ap (λ ds. scan_two (ds ++ rest)) (pad2-three n g h)
    ∙ scan_two-digits (n / 10 / 10) (n / 10 % 10) ((n % 10 + b'0') ∷ rest) (omega arith)
        (omega arith)
    ∙ ap (λ k. some (k, (n % 10 + b'0') ∷ rest)) {y = n / 10} (omega arith)
