-- ===== src/Machine/Parser/Words.antt =====
-- A line of words: what the comment remover and the tokenizer make of it.
use mathlib.Core.List.{append-nil, append_assoc}
use homeworks.Prelude.{
  ℕ, ◌≡◌, refl, sym, ap, ◌∙◌, Bool, true, not, ◌&&◌, List, [], ◌∷◌, ◌++◌, ◌==◌, CString, arith,
}
use homeworks.Machine.Lexer.{remove_comment, tokenize_from, tokenize, isspace}

-- Neither white space nor the sign of a comment.
abbrev pub word_char : ℕ → Bool
word_char c = not (isspace c) && not (c == b'#')

abbrev pub AllChars : (ℕ → Bool) → CString → Type 0
AllChars p [] = Unit {0}
AllChars p (c ∷ s) = (p c ≡ true) × AllChars p s

abbrev pub IsWord : CString → Type 0
IsWord [] = ⊥
IsWord (c ∷ s) = AllChars word_char (c ∷ s)

abbrev pub AllWords : List CString → Type 0
AllWords [] = Unit {0}
AllWords (w ∷ ws) = IsWord w × AllWords ws

-- The words with one space between each two.
abbrev pub join : List CString → CString
join [] = []
join (w ∷ []) = w
join (w ∷ v ∷ ws) = w ++ 32 ∷ join (v ∷ ws)

remove_comment-append :
    (w rest : CString)
    → AllChars word_char w
    → remove_comment (w ++ rest) ≡ w ++ remove_comment rest
unfolding remove_comment
remove_comment-append [] rest h = refl
remove_comment-append (c ∷ w) rest h = ground (arith, remove_comment-append w rest)

IsWord-AllChars : (w : CString) → IsWord w → AllChars word_char w
IsWord-AllChars [] h = tt
IsWord-AllChars (c ∷ w) h = h

remove_comment-join : (ws : List CString) → AllWords ws → remove_comment (join ws) ≡ join ws
unfolding remove_comment
remove_comment-join [] h = refl
remove_comment-join (w ∷ []) h =
    ap remove_comment (sym (append-nil w))
    ∙ remove_comment-append w [] (IsWord-AllChars w h.0)
    ∙ append-nil w
remove_comment-join (w ∷ v ∷ ws) h =
    remove_comment-append w (32 ∷ join (v ∷ ws)) (IsWord-AllChars w h.0)
    ∙ ap (λ s. w ++ 32 ∷ s) (remove_comment-join (v ∷ ws) h.1)

token_stop :
    (t : ℕ) (token w rest : CString)
    → AllChars word_char w
    → tokenize_from (t ∷ token) (w ++ 32 ∷ rest) ≡ (t ∷ (token ++ w)) ∷ tokenize_from [] rest
unfolding tokenize_from
token_stop t token [] rest h = ap (λ s. (t ∷ s) ∷ tokenize_from [] rest) (sym (append-nil token))
token_stop t token (c ∷ w) rest h =
    ground (arith, token_stop t (token ++ c ∷ []) w rest, append_assoc token (c ∷ []) w)

token_end :
    (t : ℕ) (token w : CString)
    → AllChars word_char w
    → tokenize_from (t ∷ token) w ≡ (t ∷ (token ++ w)) ∷ []
unfolding tokenize_from
token_end t token [] h = ap (λ s. (t ∷ s) ∷ []) (sym (append-nil token))
token_end t token (c ∷ w) h =
    ground (arith, token_end t (token ++ c ∷ []) w, append_assoc token (c ∷ []) w)

tokenize-word :
    (w rest : CString) → IsWord w → tokenize_from [] (w ++ 32 ∷ rest) ≡ w ∷ tokenize_from [] rest
unfolding tokenize_from
tokenize-word [] rest h = absurd h
tokenize-word (c ∷ w) rest h = ground (arith, token_stop c [] w rest)

tokenize-last : (w : CString) → IsWord w → tokenize_from [] w ≡ w ∷ []
unfolding tokenize_from
tokenize-last [] h = absurd h
tokenize-last (c ∷ w) h = ground (arith, token_end c [] w)

tokenize-join : (ws : List CString) → AllWords ws → tokenize_from [] (join ws) ≡ ws
unfolding tokenize_from
tokenize-join [] h = refl
tokenize-join (w ∷ []) h = tokenize-last w h.0
tokenize-join (w ∷ v ∷ ws) h =
    tokenize-word w (join (v ∷ ws)) h.0 ∙ ap (◌∷◌ w) (tokenize-join (v ∷ ws) h.1)

-- A line of words with single spaces is read as these words.
pub tokenize-remove_comment :
    (ws : List CString) → AllWords ws → tokenize (remove_comment (join ws)) ≡ ws
unfolding tokenize
tokenize-remove_comment ws h = ap (tokenize_from []) (remove_comment-join ws h) ∙ tokenize-join ws h
