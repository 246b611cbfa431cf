-- ===== src/Catalog/Quotes.antt =====
-- A command that is written out is parsed back.
use homeworks.Prelude.{
  refl, ◌≡◌, Bool, true, false, [], ◌∷◌, ◌++◌, ◌==◌, CString, text, some, any, streq,
}
use homeworks.Prelude.{any-cons_none}
use homeworks.School.{word_of, skip_spaces}
use homeworks.Catalog.Commands.{cut_quote, quoted, Command, search, sort, parse_command}

-- The commands as commands.txt has them.
unfoldable pub print_command : Command → CString
print_command (search keyword field_name) =
    text "search \"" ++ keyword ++ (text "\" in \"" ++ field_name ++ b'"' ∷ [])
print_command (sort field_name) = text "sort \"" ++ field_name ++ b'"' ∷ []

abbrev pub has_quote : CString → Bool
has_quote s = any (λ c. c == b'"') s

-- No text in the command has a quote.
abbrev pub IsPlain : Command → Type 0
IsPlain (search keyword field_name) = (has_quote keyword ≡ false) × (has_quote field_name ≡ false)
IsPlain (sort field_name) = has_quote field_name ≡ false

cut_quote-append : (s t : CString) → has_quote s ≡ false → cut_quote (s ++ b'"' ∷ t) ≡ some (s, t)
unfolding cut_quote
cut_quote-append [] t h = refl
cut_quote-append (c ∷ s) t h =
    let (plain, rest) = any-cons_none (λ c. c == b'"') c s h in
    rw (plain, cut_quote-append s t rest) refl

quoted-search :
    (keyword field_name : CString)
    → has_quote keyword ≡ false
    → quoted (print_command (search keyword field_name))
      ≡ some (keyword, text " in \"" ++ field_name ++ b'"' ∷ [])
unfolding quoted cut_quote print_command text
quoted-search keyword field_name h =
    cut_quote-append keyword (text " in \"" ++ field_name ++ b'"' ∷ []) h

quoted-in :
    (field_name : CString)
    → has_quote field_name ≡ false
    → quoted (text " in \"" ++ field_name ++ b'"' ∷ []) ≡ some (field_name, [])
unfolding quoted cut_quote text
quoted-in field_name h = cut_quote-append field_name [] h

quoted-sort :
    (field_name : CString)
    → has_quote field_name ≡ false
    → quoted (print_command (sort field_name)) ≡ some (field_name, [])
unfolding quoted cut_quote print_command text
quoted-sort field_name h = cut_quote-append field_name [] h

abbrev first_word : CString → CString
first_word line = (word_of (skip_spaces line)).0

search-word :
    (keyword field_name : CString)
    → streq (first_word (print_command (search keyword field_name))) (text "search") ≡ true
unfolding print_command word_of skip_spaces text streq
search-word keyword field_name = refl

sort-word :
    (field_name : CString)
    → (streq (first_word (print_command (sort field_name))) (text "search") ≡ false)
      × (streq (first_word (print_command (sort field_name))) (text "sort") ≡ true)
unfolding print_command word_of skip_spaces text streq
sort-word field_name = (refl, refl)

-- A command whose texts have no quotes is parsed back from its line in commands.txt.
pub parse_command-print_command :
    (command : Command) → IsPlain command → parse_command (print_command command) ≡ some command
unfolding parse_command
parse_command-print_command (search keyword field_name) (h, k) =
    rw (search-word keyword field_name, quoted-search keyword field_name h, quoted-in field_name k)
      refl
parse_command-print_command (sort field_name) h =
    let (other, same) = sort-word field_name in rw (other, same, quoted-sort field_name h) refl
