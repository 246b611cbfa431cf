-- ===== src/Bank/Database/Scanning.antt =====
-- What sscanf reads in the numbers that snprintf has written.
use homeworks.Prelude.{
  ℕ, suc, ◌+◌, ◌-◌, ◌%◌, ◌^◌, ◌<◌, ◌≡◌, refl, ap, ◌∙◌, Bool, true, false, [], ◌∷◌, ◌++◌, some, ◌==◌,
  if◌then◌else◌, CString, arith, isdigit, digits_value, clamp, decimal, decimal_int, Bool-cases,
  inl, inr,
}
use homeworks.Machine.Lexer.{isspace}
use homeworks.Machine.Parser.Words.{AllChars}
use homeworks.Machine.Parser.Numbers.{digits_value-digits_from, HasDigits, decimal-HasDigits}
use homeworks.School.{skip_spaces}
use homeworks.Bank.{word_text, is_negative}
use homeworks.Bank.Database.{take_digits, with_digits, scan_number, scan_int}

-- The text does not begin with a digit.
abbrev pub stops : CString → Bool
stops [] = true
stops (c ∷ s) = if isdigit c then false else true

take_digits-stops : (rest : CString) → stops rest ≡ true → take_digits rest ≡ ([], rest)
unfolding take_digits
take_digits-stops [] h = refl
take_digits-stops (c ∷ s) h = elim (Bool-cases (isdigit c)) [
  | inl e ↦ absurd (ground (arith, h, e))
  | inr e ↦ rw e refl
]

take_digits-append :
    (ds rest : CString)
    → AllChars isdigit ds
    → stops rest ≡ true
    → take_digits (ds ++ rest) ≡ (ds, rest)
unfolding take_digits
take_digits-append [] rest h k = take_digits-stops rest k
take_digits-append (c ∷ ds) rest h k = rw (h.0, take_digits-append ds rest h.1 k) refl

digits_value-decimal : (n : ℕ) → digits_value (decimal n) 0 ≡ n
unfolding decimal digits_value
digits_value-decimal n = digits_value-digits_from (n + 1) n [] (omega arith)

-- The digits of a number, read from their text.
with_digits-append :
    (f : ℕ → ℕ) (ds rest : CString)
    → HasDigits ds
    → stops rest ≡ true
    → with_digits f (take_digits (ds ++ rest)) ≡ some (f (digits_value ds 0), rest)
with_digits-append f [] rest h k = absurd h
with_digits-append f (c ∷ ds) rest h k = ap (with_digits f) (take_digits-append (c ∷ ds) rest h k)

sign-digit :
    (c : ℕ) → isdigit c ≡ true → ((c == b'-') ≡ false) × ((c == b'+') ≡ false) × (isspace c ≡ false)
unfolding isdigit
sign-digit c h = ground arith

pub scan_number-digits :
    (ds rest : CString)
    → HasDigits ds
    → stops rest ≡ true
    → scan_number (ds ++ rest) ≡ some (clamp (2 ^ 63 - 1) (digits_value ds 0) % 2 ^ 32, rest)
unfolding scan_number
scan_number-digits [] rest h k = absurd h
scan_number-digits (c ∷ ds) rest h k =
    let (minus, plus, _) = sign-digit c h.0 in
    rw (minus, plus) (with_digits-append (λ n. clamp (2 ^ 63 - 1) n % 2 ^ 32) (c ∷ ds) rest h k)

scan_number-minus :
    (ds rest : CString)
    → HasDigits ds
    → stops rest ≡ true
    → scan_number (b'-' ∷ ds ++ rest)
      ≡ some ((2 ^ 64 - clamp (2 ^ 63) (digits_value ds 0)) % 2 ^ 32, rest)
unfolding scan_number
scan_number-minus ds rest h k =
    with_digits-append (λ n. (2 ^ 64 - clamp (2 ^ 63) n) % 2 ^ 32) ds rest h k

-- White space is skipped in front of a number only.
pub skip_spaces-digits : (ds rest : CString) → HasDigits ds → skip_spaces (ds ++ rest) ≡ ds ++ rest
unfolding skip_spaces
skip_spaces-digits [] rest h = absurd h
skip_spaces-digits (c ∷ ds) rest h = rw (sign-digit c h.0).2 refl

pub skip_spaces-word_text :
    (w : ℕ) (rest : CString) → skip_spaces (word_text w ++ rest) ≡ word_text w ++ rest
unfolding word_text decimal_int skip_spaces
skip_spaces-word_text w rest = elim (Bool-cases (is_negative w)) [
  | inl e ↦ rw e refl
  | inr e ↦ rw e (skip_spaces-digits (decimal w) rest (decimal-HasDigits w))
]

back_negative :
    (w : ℕ)
    → w < 2 ^ 32
    → is_negative w ≡ true
    → (2 ^ 64 - clamp (2 ^ 63) (suc (2 ^ 32 - 1 - w))) % 2 ^ 32 ≡ w
back_negative w h e = ground arith

back_positive : (w : ℕ) → w < 2 ^ 32 → clamp (2 ^ 63 - 1) w % 2 ^ 32 ≡ w
back_positive w h = ground arith

-- `%d` reads back every word that `%d` has written.
pub scan_int-word_text :
    (w : ℕ) (rest : CString)
    → w < 2 ^ 32
    → stops rest ≡ true
    → scan_int (word_text w ++ rest) ≡ some (w, rest)
unfolding scan_int word_text decimal_int
scan_int-word_text w rest h k =
    ap scan_number (skip_spaces-word_text w rest) ∙ elim (Bool-cases (is_negative w)) [
      | inl e ↦
          let m = suc (2 ^ 32 - 1 - w) in
          rw e (
            scan_number-minus (decimal m) rest (decimal-HasDigits m) k
            ∙ ap (λ n. some ((2 ^ 64 - clamp (2 ^ 63) n) % 2 ^ 32, rest)) (digits_value-decimal m)
            ∙ ap (λ n. some (n, rest)) (back_negative w h e))
      | inr e ↦ rw e (
          scan_number-digits (decimal w) rest (decimal-HasDigits w) k
          ∙ ap (λ n. some (clamp (2 ^ 63 - 1) n % 2 ^ 32, rest)) (digits_value-decimal w)
          ∙ ap (λ n. some (n, rest)) (back_positive w h))
    ]
