-- ===== src/LogAnalyzer/Search/Matches.antt =====
-- The matches that a worker counts against all the places where the term stands.
use homeworks.Prelude.{
  strstr, ℕ, zero, suc, ◌+◌, ◌<◌, ◌≡◌, ◌≢◌, refl, sym, ap, ◌∙◌, inl, inr, [], ◌∷◌, false, Option,
  none, some, CString, length, starts_with, if◌then◌else◌, Bool-cases, arith,
}
use homeworks.LogAnalyzer.Search.{match_loop, count_matches}

-- How many suffixes of the line begin with the term.
abbrev pub places : CString → CString → ℕ
places [] term = 0
places (c ∷ cs) term = if starts_with (c ∷ cs) term then suc (places cs term) else places cs term

strstr-nil : (term : CString) → term ≢ [] → strstr [] term ≡ none
unfolding strstr starts_with
strstr-nil [] h = absurd (h refl)
strstr-nil (a ∷ t) h = refl

-- What `strstr` finds: no place, or a suffix that begins with one and holds the others after it.
data Finds (s term : CString) : Option CString → Type 0 where
  nowhere : places s term ≡ 0 → Finds s term none
  at :
      (c : ℕ) (cs : CString)
      → places s term ≡ suc (places cs term)
      → length cs < length s
      → Finds s term (some (c ∷ cs))

strstr-Finds : (s term : CString) → term ≢ [] → Finds s term (strstr s term)
unfolding strstr
strstr-Finds [] term h = rw (strstr-nil term h) (nowhere refl)
strstr-Finds (c ∷ cs) term h = elim (Bool-cases (starts_with (c ∷ cs) term)) [
  | inl hit ↦ rw hit (at c cs (rw hit refl) (omega arith))
  | inr miss ↦ rw miss (later c cs term miss (strstr cs term) (strstr-Finds cs term h))
]
  where
    later :
        (c : ℕ) (cs term : CString)
        → starts_with (c ∷ cs) term ≡ false
        → (o : Option CString) → Finds cs term o
        → Finds (c ∷ cs) term o
    later c cs term miss o (nowhere e) = nowhere (rw miss e)
    later c cs term miss o (at d ds e l) = at d ds (rw miss e) (omega arith)

match_loop-places :
    (fuel : ℕ) (s term : CString)
    → term ≢ []
    → length s < fuel
    → match_loop fuel s term ≡ places s term
unfolding match_loop
match_loop-places zero s term h l = absurd (omega arith)
match_loop-places (suc fuel) s term h l =
    go (λ t k. match_loop-places fuel t term h k) (strstr s term) refl (strstr-Finds s term h)
  where
    go :
        ((t : CString) → length t < fuel → match_loop fuel t term ≡ places t term)
        → (o : Option CString) → strstr s term ≡ o
        → Finds s term o
        → match_loop (suc fuel) s term ≡ places s term
    go rec o e (nowhere z) = rw (e, match_loop) (sym z)
    go rec o e (at c cs z k) = rw (e, match_loop) (ap suc (rec cs (omega arith)) ∙ sym z)

-- For a term that is not empty a worker counts every place of the line at which the term stands,
-- overlapping places included.
pub count_matches-eq-places :
    (line term : CString) → term ≢ [] → count_matches line term ≡ places line term
unfolding count_matches
count_matches-eq-places line term h = match_loop-places (length line + 1) line term h (omega arith)
