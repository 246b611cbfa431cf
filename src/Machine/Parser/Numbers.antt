-- ===== src/Machine/Parser/Numbers.antt =====
-- The decimal text of a word, and what stol and stoul read in it.
use homeworks.Prelude.{
  ℕ, zero, suc, ◌+◌, ◌-◌, ◌*◌, ◌/◌, ◌%◌, ◌^◌, ◌<◌, ◌≡◌, refl, ap, ◌∙◌, true, false, [], ◌∷◌, ltb,
  lt→ltb, ◌==◌, if◌then◌else◌, if_cases, CString, arith, isdigit, digits_value, digits_from,
  decimal, some,
}
use homeworks.Machine.Lexer.{magnitude, stol, stoul, fits}
use homeworks.Machine.Parser.Words.{word_char, AllChars, IsWord}

pub isdigit_digit : (k : ℕ) → k < 10 → isdigit (k + b'0') ≡ true
unfolding isdigit
isdigit_digit k h = ground arith

pub digits_value-digit :
    (k acc : ℕ) (out : CString)
    → k < 10
    → digits_value ((k + b'0') ∷ out) acc ≡ digits_value out (acc * 10 + k)
unfolding digits_value
digits_value-digit k acc out h = rw (isdigit_digit k h) (ap (digits_value out) (omega arith))

pub digits_value-digits_from :
    (fuel n : ℕ) (out : CString)
    → n < fuel
    → digits_value (digits_from fuel n out) 0 ≡ digits_value out n
unfolding digits_from
digits_value-digits_from zero n out h = absurd (omega arith)
digits_value-digits_from (suc fuel) n out h =
    if_cases (λ (s : CString). digits_value s 0 ≡ digits_value out n) (ltb n 10)
      (λ e. digits_value-digit n 0 out (ground arith) ∙ ap (digits_value out) (omega arith))
      (λ e.
        digits_value-digits_from fuel (n / 10) ((n % 10 + b'0') ∷ out) (ground arith)
        ∙ digits_value-digit (n % 10) (n / 10) out (omega arith)
        ∙ ap (digits_value out) (omega arith))

-- The digits of a number, with what stands behind them.
abbrev pub HasDigits : CString → Type 0
HasDigits [] = ⊥
HasDigits (c ∷ s) = AllChars isdigit (c ∷ s)

digits_from-HasDigits :
    (fuel n : ℕ) (out : CString)
    → n < fuel
    → AllChars isdigit out
    → HasDigits (digits_from fuel n out)
unfolding digits_from
digits_from-HasDigits zero n out h k = absurd (omega arith)
digits_from-HasDigits (suc fuel) n out h k =
    if_cases HasDigits (ltb n 10) (λ e. (isdigit_digit n (ground arith), k))
      (λ e.
        digits_from-HasDigits fuel (n / 10) ((n % 10 + b'0') ∷ out) (ground arith)
          (isdigit_digit (n % 10) (omega arith), k))

pub decimal-HasDigits : (n : ℕ) → HasDigits (decimal n)
unfolding decimal
decimal-HasDigits n = digits_from-HasDigits (n + 1) n [] (omega arith) tt

magnitude-HasDigits : (s : CString) → HasDigits s → magnitude s ≡ some (digits_value s 0)
unfolding magnitude
magnitude-HasDigits [] h = absurd h
magnitude-HasDigits (c ∷ s) h = rw h.0 refl

magnitude-decimal : (n : ℕ) → magnitude (decimal n) ≡ some n
unfolding decimal digits_value
magnitude-decimal n =
    magnitude-HasDigits (decimal n) (decimal-HasDigits n)
    ∙ ap some (digits_value-digits_from (n + 1) n [] (omega arith))

digit-not-sign : (c : ℕ) → isdigit c ≡ true → ((c == b'-') ≡ false) × ((c == b'+') ≡ false)
unfolding isdigit
digit-not-sign c h = ground arith

-- A text that begins with a digit has no sign.
unsigned :
    (s : CString)
    → HasDigits s
    → (stol s ≡ fits (2 ^ 63) (magnitude s) (λ n. n))
      × (stoul s ≡ fits (2 ^ 64) (magnitude s) (λ n. n))
unfolding stol stoul isdigit
unsigned [] h = absurd h
unsigned (c ∷ s) h = let sign = digit-not-sign c h.0 in rw (sign.0, sign.1) (refl, refl)

-- The text of a 64-bit word as a `long`.
unfoldable pub long_text : ℕ → CString
unfolding decimal
long_text w = if ltb w (2 ^ 63) then decimal w else b'-' ∷ decimal (2 ^ 64 - w)

fits-some : (bound n : ℕ) (f : ℕ → ℕ) → n < bound → fits bound (some n) f ≡ some (f n)
fits-some bound n f h = rw (lt→ltb n bound h) refl

pub stoul-decimal : (n : ℕ) → n < 2 ^ 64 → stoul (decimal n) ≡ some n
stoul-decimal n h =
    (unsigned (decimal n) (decimal-HasDigits n)).1
    ∙ rw (magnitude-decimal n) (fits-some (2 ^ 64) n (λ k. k) h)

stol-decimal : (n : ℕ) → n < 2 ^ 63 → stol (decimal n) ≡ some n
stol-decimal n h =
    (unsigned (decimal n) (decimal-HasDigits n)).0
    ∙ rw (magnitude-decimal n) (fits-some (2 ^ 63) n (λ k. k) h)

stol-minus : (n : ℕ) → n < 2 ^ 63 + 1 → stol (b'-' ∷ decimal n) ≡ some ((2 ^ 64 - n) % 2 ^ 64)
unfolding stol
stol-minus n h = rw (magnitude-decimal n) (fits-some (2 ^ 63 + 1) n (λ k. (2 ^ 64 - k) % 2 ^ 64) h)

-- stol reads back the text of any 64-bit word.
pub stol-long_text : (w : ℕ) → w < 2 ^ 64 → stol (long_text w) ≡ some w
unfolding long_text
stol-long_text w h =
    if_cases (λ (s : CString). stol s ≡ some w) (ltb w (2 ^ 63))
      (λ e. stol-decimal w (ground arith))
      (λ e. stol-minus (2 ^ 64 - w) (ground arith) ∙ ap some (ground arith))

isdigit-word_char : (c : ℕ) → isdigit c ≡ true → word_char c ≡ true
unfolding isdigit
isdigit-word_char c h = ground arith

AllChars-word_char : (s : CString) → AllChars isdigit s → AllChars word_char s
AllChars-word_char [] h = tt
AllChars-word_char (c ∷ s) h = (isdigit-word_char c h.0, AllChars-word_char s h.1)

HasDigits-IsWord : (s : CString) → HasDigits s → IsWord s
HasDigits-IsWord [] h = h
HasDigits-IsWord (c ∷ s) h = AllChars-word_char (c ∷ s) h

pub decimal-IsWord : (n : ℕ) → IsWord (decimal n)
decimal-IsWord n = HasDigits-IsWord (decimal n) (decimal-HasDigits n)

minus-IsWord : (s : CString) → IsWord s → IsWord (b'-' ∷ s)
minus-IsWord [] h = absurd h
minus-IsWord (c ∷ s) h = (refl, h)

pub long_text-IsWord : (w : ℕ) → IsWord (long_text w)
unfolding long_text
long_text-IsWord w =
    if_cases IsWord (ltb w (2 ^ 63)) (λ _. decimal-IsWord w)
      (λ _. minus-IsWord (decimal (2 ^ 64 - w)) (decimal-IsWord (2 ^ 64 - w)))
