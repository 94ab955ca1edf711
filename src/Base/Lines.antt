-- ===== src/Base/Lines.antt =====
-- Python's `strip`, `splitlines`, `split`, `upper` and `join_with` of texts, over ASCII.
use Prim.Native.Nat.{ℕ, ◌-◌}
use mathlib.Core.Bool.{Bool, true, false, ◌&&◌, ◌||◌}
use mathlib.Core.List.{List, [], ◌∷◌, ◌++◌, map}
use stardatadblabs.Base.Tests.{leb, ◌==◌, if◌then◌else◌}
use stardatadblabs.Base.Strings.{Text}

abbrev pub is_space : ℕ → Bool
is_space c = c == 32 || (leb 9 c && leb c 13 || leb 28 c && leb c 31)

unfoldable pub left_strip : Text → Text
left_strip [] = []
left_strip (c ∷ s) = let rest = left_strip s in if is_space c then rest else c ∷ s

abbrev is_nil : Text → Bool
is_nil [] = true
is_nil (c ∷ s) = false

unfoldable pub right_strip : Text → Text
right_strip [] = []
right_strip (c ∷ s) = let rest = right_strip s in if is_space c && is_nil rest then [] else c ∷ rest

-- `s.strip()`
unfoldable pub strip : Text → Text
unfolding left_strip right_strip
strip s = right_strip (left_strip s)

abbrev is_break : ℕ → Bool
is_break c = leb 10 c && leb c 13 || leb 28 c && leb c 30

abbrev starts_feed : Text → Bool
starts_feed [] = false
starts_feed (c ∷ s) = c == 10

abbrev onto_first : ℕ → List Text → List Text
onto_first c [] = (c ∷ []) ∷ []
onto_first c (l ∷ ls) = (c ∷ l) ∷ ls

-- `s.splitlines()`: a carriage return before a line feed is one break with it.
unfoldable pub split_lines : Text → List Text
split_lines [] = []
split_lines (c ∷ s) =
    let rest = split_lines s in
    if c == 13 && starts_feed s then rest else if is_break c then [] ∷ rest else onto_first c rest

abbrev starts_word : Text → Bool
starts_word [] = false
starts_word (c ∷ s) = if is_space c then false else true

-- `s.split()`
unfoldable pub split_words : Text → List Text
split_words [] = []
split_words (c ∷ s) =
    let rest = split_words s in
    if is_space c then rest else if starts_word s then onto_first c rest else (c ∷ []) ∷ rest

-- `s.split(sep)`, for one code point.
unfoldable pub split_at : ℕ → Text → List Text
split_at sep [] = [] ∷ []
split_at sep (c ∷ s) =
    let rest = split_at sep s in if c == sep then [] ∷ rest else onto_first c rest

-- `s.upper()`
abbrev upper_code : ℕ → ℕ
upper_code c = if leb b'a' c && leb c b'z' then c - 32 else c

unfoldable pub upper : Text → Text
upper = map upper_code

-- `sep.join_with(parts)`
unfoldable pub join_with : Text → List Text → Text
join_with sep [] = []
join_with sep (p ∷ []) = p
join_with sep (p ∷ q ∷ ps) = p ++ sep ++ join_with sep (q ∷ ps)
