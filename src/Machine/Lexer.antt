-- ===== src/Machine/Lexer.antt =====
-- parser.cpp: comments, tokens and numbers. A std::string is the list of its bytes.
use homeworks.Prelude.{
  ℕ, ◌+◌, ◌-◌, ◌%◌, ◌^◌, Bool, ◌&&◌, ◌||◌, Option, none, some, List, [], ◌∷◌, ◌++◌, ltb, leb, ◌==◌,
  if◌then◌else◌, CString, isdigit, digits_value,
}

abbrev pub isspace : ℕ → Bool
isspace c = c == 32 || (leb 9 c && leb c 13)

unfoldable pub remove_comment : CString → CString
remove_comment [] = []
remove_comment (c ∷ s) = if c == b'#' then [] else c ∷ remove_comment s

-- `while (iss >> token)`, with what is read of the current token.
unfoldable pub tokenize_from : CString → CString → List CString
tokenize_from [] [] = []
tokenize_from (t ∷ token) [] = (t ∷ token) ∷ []
tokenize_from [] (c ∷ s) =
    let skip = tokenize_from [] s in
    let begin = tokenize_from (c ∷ []) s in if isspace c then skip else begin
tokenize_from (t ∷ token) (c ∷ s) =
    let stop = tokenize_from [] s in
    let more = tokenize_from (t ∷ (token ++ c ∷ [])) s in
    if isspace c then (t ∷ token) ∷ stop else more

unfoldable pub tokenize : CString → List CString
unfolding tokenize_from
tokenize line = tokenize_from [] line

-- `std::stol` and `std::stoul` of a token, which throw where there is no digit or the number does
-- not fit. What follows the digits is left out. The results are 64-bit words.
unfoldable pub magnitude : CString → Option ℕ
unfolding isdigit digits_value
magnitude [] = none
magnitude (c ∷ s) = if isdigit c then some (digits_value (c ∷ s) 0) else none

abbrev pub fits : ℕ → Option ℕ → (ℕ → ℕ) → Option ℕ
fits bound none f = none
fits bound (some n) f = if ltb n bound then some (f n) else none

unfoldable pub stol : CString → Option ℕ
unfolding magnitude
stol [] = none
stol (c ∷ s) =
    if c == b'-'
    then fits (2 ^ 63 + 1) (magnitude s) (λ n. (2 ^ 64 - n) % 2 ^ 64)
    else if c == b'+'
    then fits (2 ^ 63) (magnitude s) (λ n. n)
    else fits (2 ^ 63) (magnitude (c ∷ s)) (λ n. n)

unfoldable pub stoul : CString → Option ℕ
unfolding magnitude
stoul [] = none
stoul (c ∷ s) =
    if c == b'-'
    then fits (2 ^ 64) (magnitude s) (λ n. (2 ^ 64 - n) % 2 ^ 64)
    else if c == b'+'
    then fits (2 ^ 64) (magnitude s) (λ n. n)
    else fits (2 ^ 64) (magnitude (c ∷ s)) (λ n. n)
