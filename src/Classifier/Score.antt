-- ===== src/Classifier/Score.antt =====
-- Stage 1: the base score of a column name against a term's patterns (classifier.py,
-- `_base_score`), and the regular expression that both stages search with.
pub mod Words
pub mod Tiers
use stardatadblabs.Base.{
  ℕ, Text, text_eq, starts_with, has_infix, Bool, true, false, not, ◌&&◌, ◌||◌, Option, none, some,
  List, [], ◌∷◌, head?, drop, length, leb, ltb, if◌then◌else◌,
}

-- `[a-z0-9]`
abbrev pub is_word_code : ℕ → Bool
is_word_code c = leb b'a' c && leb c b'z' || leb b'0' c && leb c b'9'

-- The neighbour that a lookaround asks about: none at an end of the text.
abbrev pub is_word : Option ℕ → Bool
is_word none = false
is_word (some c) = is_word_code c

-- The expression matches at the start of `s`, with `before` in front of it.
unfoldable pub word_here : Option ℕ → Text → Text → Bool
word_here before pat s =
    not (is_word before) && (starts_with s pat && not (is_word (head? (drop (length pat) s))))

unfoldable pub word_from : Option ℕ → Text → Text → Bool
unfolding word_here
word_from before pat [] = word_here before pat []
word_from before pat (c ∷ s) = word_here before pat (c ∷ s) || word_from (some c) pat s

-- `re.search(r"(?<![a-z0-9])" + re.escape(pat) + r"(?![a-z0-9])", s)`
unfoldable pub word_search : Text → Text → Bool
unfolding word_from
word_search pat s = word_from none pat s

abbrev pub is_empty : Text → Bool
is_empty [] = true
is_empty (c ∷ s) = false

-- One round of the loop that does not return: the best score and its pattern after `pat`.
unfoldable pub raise_score : Text → Text → ℕ × Text → ℕ × Text
raise_score col pat (best, best_pat) =
    if is_empty pat
    then (best, best_pat)
    else if word_search pat col
    then (if ltb best 90 then (90, pat) else (best, best_pat))
    else if has_infix col pat
    then (if ltb best 70 then (70, pat) else (best, best_pat))
    else (best, best_pat)

unfoldable pub base_score_from : Text → List Text → ℕ × Text → ℕ × Text
unfolding raise_score
base_score_from col [] best = best
base_score_from col (pat ∷ pats) best =
    let rest = base_score_from col pats (raise_score col pat best) in
    if not (is_empty pat) && text_eq col pat then (100, pat) else rest

unfoldable pub base_score : Text → List Text → ℕ × Text
unfolding base_score_from
base_score col pats = base_score_from col pats (0, [])
