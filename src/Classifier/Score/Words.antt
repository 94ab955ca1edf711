-- ===== src/Classifier/Score/Words.antt =====
-- What the boundary search of classifier.py finds, said without a search.
use stardatadblabs.Base.{
  ℕ, ◌≡◌, ap, sym, ◌↔◌, Text, starts_with-append, starts_with-split, drop-length_append, true,
  false, Option, none, some, [], ◌∷◌, ◌++◌, head?, arith, inl, inr, Bool-cases,
}
use stardatadblabs.Classifier.Score.{is_word, word_here, word_from, word_search}

-- The code in front of what follows `u`, where `before` stands in front of `u`.
abbrev last_code : Option ℕ → Text → Option ℕ
last_code before [] = before
last_code before (c ∷ u) = last_code (some c) u

-- `pat` stands in `s` with no letter or digit of either side.
abbrev IsWordAfter : Option ℕ → Text → Text → Type 0
IsWordAfter before pat s =
    (u : Text) × (v : Text) × (s ≡ u ++ (pat ++ v))
    × (is_word (last_code before u) ≡ false)
    × (is_word (head? v) ≡ false)

abbrev pub IsWord : Text → Text → Type 0
IsWord pat s = IsWordAfter none pat s

word_here-split :
    (before : Option ℕ) (pat s : Text)
    → word_here before pat s ≡ true
    → (v : Text) × (s ≡ pat ++ v) × (is_word before ≡ false) × (is_word (head? v) ≡ false)
unfolding word_here
word_here-split before pat s h =
    let (v, e) = starts_with-split s pat (ground arith) in
    (v, e, ground arith, rw (sym (drop-length_append pat v)) (rw (← e) (ground arith)))

word_here-append :
    (before : Option ℕ) (pat v : Text)
    → is_word before ≡ false
    → is_word (head? v) ≡ false
    → word_here before pat (pat ++ v) ≡ true
unfolding word_here
word_here-append before pat v hb hv =
    rw (hb, starts_with-append pat v, drop-length_append pat v, hv)

word_from_sound :
    (before : Option ℕ) (pat s : Text) → word_from before pat s ≡ true → IsWordAfter before pat s
unfolding word_from
word_from_sound before pat [] h =
    let (v, e, hb, hv) = word_here-split before pat [] h in ([], v, e, hb, hv)
word_from_sound before pat (c ∷ s) h = elim (Bool-cases (word_here before pat (c ∷ s))) [
  | inl now ↦ let (v, e, hb, hv) = word_here-split before pat (c ∷ s) now in ([], v, e, hb, hv)
  | inr later ↦
      let (u, v, e, hb, hv) = word_from_sound (some c) pat s (rw later at h) in
      (c ∷ u, v, ap (λ t. c ∷ t) e, hb, hv)
]

word_from_complete :
    (before : Option ℕ) (pat u v : Text)
    → is_word (last_code before u) ≡ false
    → is_word (head? v) ≡ false
    → word_from before pat (u ++ (pat ++ v)) ≡ true
unfolding word_from
word_from_complete before [] [] [] hb hv = word_here-append before [] [] hb hv
word_from_complete before [] [] (c ∷ v) hb hv = rw (word_here-append before [] (c ∷ v) hb hv)
word_from_complete before (d ∷ pat) [] v hb hv = rw (word_here-append before (d ∷ pat) v hb hv)
word_from_complete before pat (c ∷ u) v hb hv =
    ground (arith, word_from_complete (some c) pat u v hb hv)

-- The search succeeds exactly where the pattern stands in the text with no ASCII lower-case letter
-- or digit directly before it and none directly after it.
pub word_search-IsWord : (pat s : Text) → (word_search pat s ≡ true) ↔ IsWord pat s
unfolding word_search
word_search-IsWord pat s = (
  word_from_sound none pat s,
  λ w. let (u, v, e, hb, hv) = w in rw e (word_from_complete none pat u v hb hv),
)
