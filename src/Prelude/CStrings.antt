-- ===== src/Prelude/CStrings.antt =====
-- C strings as lists of non-zero bytes, without the terminator, and the string functions the
-- programs call.
use Prim.Native.Nat.{ℕ, zero, suc, ◌+◌, ◌-◌, ◌*◌, ◌/◌, ◌%◌, ◌^◌, ◌<◌}
use Prim.Native.Char.{code}
use Prim.Native.String.{String}
use mathlib.Core.Path.{◌≡◌, refl}
use mathlib.Core.Bool.{Bool, true, false, ◌&&◌, ◌||◌}
use mathlib.Core.List.{List, [], ◌∷◌}
use mathlib.Core.Option.{Option, none, some}
use native.Mathlib.Omega.{arith}
use homeworks.Prelude.Tests.{leb, ltb, ◌==◌, ==_comm, if◌then◌else◌, if_cases}
use homeworks.Prelude.Lists.{take}

abbrev pub CString : Type 0
CString = List ℕ

-- The bytes of a literal.
unfoldable pub text : String → CString
text String.[] = []
text (String.◌∷◌ c s) = code c ∷ text s

-- `strcmp (s, t) == 0`
unfoldable pub streq : CString → CString → Bool
streq [] [] = true
streq [] (b ∷ t) = false
streq (a ∷ s) [] = false
streq (a ∷ s) (b ∷ t) = if a == b then streq s t else false

pub streq→≡ : (s t : CString) → streq s t ≡ true → s ≡ t
unfolding streq
streq→≡ [] [] h = refl
streq→≡ [] (b ∷ t) h = cc
streq→≡ (a ∷ s) [] h = cc
streq→≡ (a ∷ s) (b ∷ t) h = ground (arith, streq→≡ s t)

pub streq_self : (s : CString) → streq s s ≡ true
unfolding streq
streq_self [] = refl
streq_self (a ∷ s) = ground (arith, streq_self s)

-- `strncmp (s, prefix, strlen (prefix)) == 0`
unfoldable pub starts_with : CString → CString → Bool
starts_with s [] = true
starts_with [] (b ∷ t) = false
starts_with (a ∷ s) (b ∷ t) = if a == b then starts_with s t else false

-- `snprintf (buffer, n, …)` keeps the first n - 1 bytes.
abbrev pub snprintf : ℕ → CString → CString
snprintf n s = take (n - 1) s

-- `strchr (s, c)`: the suffix of s that begins at its first c.
unfoldable pub strchr : CString → ℕ → Option CString
strchr [] c = none
strchr (a ∷ s) c = if a == c then some (a ∷ s) else strchr s c

-- `strrchr (s, c)`: the suffix of s that begins at its last c.
unfoldable pub strrchr : CString → ℕ → Option CString
strrchr [] c = none
strrchr (a ∷ s) c = elim (strrchr s c) [
  | some t ↦ some t
  | none ↦ if a == c then some (a ∷ s) else none
]

-- `isdigit`, `isalnum` and `tolower` in the C locale.
unfoldable pub isdigit : ℕ → Bool
isdigit c = leb b'0' c && leb c b'9'

unfoldable pub isalnum : ℕ → Bool
unfolding isdigit
isalnum c = isdigit c || (leb b'a' c && leb c b'z') || (leb b'A' c && leb c b'Z')

unfoldable pub tolower : ℕ → ℕ
tolower c = if leb b'A' c && leb c b'Z' then c + 32 else c

-- `strcasecmp (s, t) == 0`
unfoldable pub strcaseeq : CString → CString → Bool
unfolding tolower
strcaseeq [] [] = true
strcaseeq [] (b ∷ t) = false
strcaseeq (a ∷ s) [] = false
strcaseeq (a ∷ s) (b ∷ t) = if tolower a == tolower b then strcaseeq s t else false

-- `%d` of a number that is not negative: its decimal digits.
unfoldable pub digits_from : ℕ → ℕ → CString → CString
digits_from zero n out = out
digits_from (suc fuel) n out =
    let rest = digits_from fuel (n / 10) ((n % 10 + b'0') ∷ out) in
    if ltb n 10 then (n + b'0') ∷ out else rest

unfoldable pub decimal : ℕ → CString
unfolding digits_from
decimal n = digits_from (n + 1) n []

-- The string in an array: what stands before its first zero byte.
unfoldable pub c_string : List ℕ → CString
c_string [] = []
c_string (c ∷ cs) = if c == 0 then [] else c ∷ c_string cs

-- `atoi (s)` as a 32-bit word: the number read is clamped to 64 bits and then truncated, as glibc
-- does it.
unfoldable pub digits_value : CString → ℕ → ℕ
unfolding isdigit
digits_value [] acc = acc
digits_value (c ∷ s) acc =
    let rest = digits_value s (acc * 10 + (c - b'0')) in if isdigit c then rest else acc

abbrev pub clamp : ℕ → ℕ → ℕ
clamp most n = if leb n most then n else most

unfoldable pub atoi : CString → ℕ
unfolding digits_value
atoi [] = 0
atoi (c ∷ s) =
    let rest = atoi s in
    if c == 32 || (leb 9 c && leb c 13)
    then rest
    else if c == b'-'
    then (2 ^ 64 - clamp (2 ^ 63) (digits_value s 0)) % 2 ^ 32
    else if c == b'+'
    then clamp (2 ^ 63 - 1) (digits_value s 0) % 2 ^ 32
    else clamp (2 ^ 63 - 1) (digits_value (c ∷ s) 0) % 2 ^ 32

pub atoi-lt : (s : CString) → atoi s < 2 ^ 32
unfolding atoi
atoi-lt [] = omega arith
atoi-lt (c ∷ s) =
    if_cases (λ n. n < 2 ^ 32) (c == 32 || (leb 9 c && leb c 13)) (λ _. atoi-lt s)
      (λ _.
        if_cases (λ n. n < 2 ^ 32) (c == b'-') (λ _. omega arith)
          (λ _. if_cases (λ n. n < 2 ^ 32) (c == b'+') (λ _. omega arith) (λ _. omega arith)))

-- A field of `%02d`.
unfoldable pub pad2 : CString → CString
pad2 [] = []
pad2 (c ∷ []) = b'0' ∷ c ∷ []
pad2 (c ∷ d ∷ s) = c ∷ d ∷ s

-- `strstr (s, term)`: the suffix of s at the first match.
unfoldable pub strstr : CString → CString → Option CString
strstr [] term = if starts_with [] term then some [] else none
strstr (c ∷ cs) term = if starts_with (c ∷ cs) term then some (c ∷ cs) else strstr cs term

pub streq_comm : (s t : CString) → streq s t ≡ streq t s
unfolding streq
streq_comm [] [] = refl
streq_comm [] (b ∷ t) = refl
streq_comm (a ∷ s) [] = refl
streq_comm (a ∷ s) (b ∷ t) = rw (==_comm a b, streq_comm s t) refl
