-- ===== src/Classifier/Signals/Guards.antt =====
-- When the signals of classifier.py fire, said without their loops and without the branches that
-- never decide.
use mathlib.Core.List.{append-nil, append_assoc}
use stardatadblabs.Base.{
  ◌≡◌, refl, ap, sym, ◌∙◌, ◌↔◌, inl, inr, Text, text_eq, text_eq_iff, starts_with, ends_with,
  starts_with-append, starts_with-split, ends_with-append, Bool, true, false, not, ◌&&◌, ◌||◌,
  is_some, List, [], ◌∷◌, ◌++◌, In, any, any-In, In-any, arith, if◌then◌else◌, Bool-cases,
}
use stardatadblabs.Classifier.Terms.{Signal, TermSpec}
use stardatadblabs.Classifier.Score.{word_search, is_empty}
use stardatadblabs.Classifier.Score.Words.{IsWord, word_search-IsWord}
use stardatadblabs.Classifier.Signals.{
  underscore, signal_a_position, signal_c_negative_guard, table_reject, table_boost,
  signal_d_table_context,
}

ends_with-split : (s p : Text) → ends_with s p ≡ true → (u : Text) × (s ≡ u ++ p)
unfolding ends_with
ends_with-split [] p h = ([], (text_eq_iff [] p).0 h)
ends_with-split (c ∷ s) p h = elim (Bool-cases (text_eq (c ∷ s) p)) [
  | inl same ↦ ([], (text_eq_iff (c ∷ s) p).0 same)
  | inr longer ↦ let (u, e) = ends_with-split s p (rw longer at h) in (c ∷ u, ap (λ t. c ∷ t) e)
]

starts_with-underscore :
    (col pat : Text) → starts_with col (pat ++ underscore) ≡ true → starts_with col pat ≡ true
starts_with-underscore col pat h =
    let (v, e) = starts_with-split col (pat ++ underscore) h in
    rw e (rw (append_assoc pat underscore v) (starts_with-append pat (underscore ++ v)))

ends_with-underscore :
    (col pat : Text) → ends_with col (underscore ++ pat) ≡ true → ends_with col pat ≡ true
ends_with-underscore col pat h =
    let (u, e) = ends_with-split col (underscore ++ pat) h in
    rw e (rw (← append_assoc u underscore pat) (ends_with-append (u ++ underscore) pat))

-- Signal A scores a prefix, else a suffix, else nothing; its two later branches never decide.
pub signal_a_position-cases :
    (col pat : Text)
    → signal_a_position col pat ≡ (
        if starts_with col pat
        then (15, Signal.a_prefix pat col)
        else if ends_with col pat
        then (10, Signal.a_suffix pat col)
        else (0, Signal.a_middle pat col))
unfolding signal_a_position
signal_a_position-cases col pat =
    ground (arith, starts_with-underscore col pat, ends_with-underscore col pat)

prefix-IsWord :
    (col neg : Text)
    → (starts_with col (neg ++ underscore) || text_eq col neg) ≡ true
    → word_search neg col ≡ true
prefix-IsWord col neg h =
    (word_search-IsWord neg col).1 (elim (Bool-cases (starts_with col (neg ++ underscore))) [
      | inl e ↦
          let (v, p) = starts_with-split col (neg ++ underscore) e in
          ([], underscore ++ v, p ∙ append_assoc neg underscore v, refl, refl)
      | inr e ↦ ([], [], (text_eq_iff col neg).0 (rw e at h) ∙ sym (append-nil neg), refl, refl)
    ])

-- The patterns that reject a column: a non-empty one that stands in its name as a word.
abbrev rejects : Text → Text → Bool
rejects col neg = not (is_empty neg) && word_search neg col

signal_c-any :
    (col : Text) (negs : List Text)
    → is_some (signal_c_negative_guard col negs) ≡ any (rejects col) negs
unfolding signal_c_negative_guard
signal_c-any col [] = refl
signal_c-any col (neg ∷ negs) = ground (arith, signal_c-any col negs, prefix-IsWord col neg)

-- Signal C rejects a column exactly if a non-empty negative pattern of the term stands in the
-- column's name as a word.
pub signal_c_negative_guard_iff :
    (col : Text) (negs : List Text)
    → (is_some (signal_c_negative_guard col negs) ≡ true)
      ↔ ((neg : Text) × In neg negs × (is_empty neg ≡ false) × IsWord neg col)
signal_c_negative_guard_iff col negs = (
  λ h.
      let (neg, m, r) = any-In (rejects col) negs (sym (signal_c-any col negs) ∙ h) in
      (neg, m, ground arith, (word_search-IsWord neg col).0 (ground arith)),
  λ w.
      let (neg, m, e, word) = w in
      signal_c-any col negs
      ∙ In-any (rejects col) neg negs m (ground (arith, (word_search-IsWord neg col).1 word)),
)

-- A context pattern fits a table's name: as a word, at its start or at its end.
abbrev pub fits : Text → Text → Bool
fits table pat =
    not (is_empty pat) && (word_search pat table || (starts_with table pat || ends_with table pat))

table_reject-any :
    (table : Text) (negs : List Text) → is_some (table_reject table negs) ≡ any (fits table) negs
unfolding table_reject
table_reject-any table [] = refl
table_reject-any table (neg ∷ negs) = ground (arith, table_reject-any table negs)

table_boost-any :
    (table : Text) (poss : List Text)
    → (table_boost table poss).0 ≡ (if any (fits table) poss then 20 else 0)
unfolding table_boost
table_boost-any table [] = refl
table_boost-any table (pos ∷ poss) = ground (arith, table_boost-any table poss)

-- Signal D rejects a table exactly if one of the term's negative table patterns fits its name. The
-- boost is 0.20 if none does and a positive one fits, and 0 in every other case.
pub signal_d_table_context-cases :
    (table : Text) (ts : TermSpec)
    → let (rejected, boost, _) = signal_d_table_context table ts in
      (rejected ≡ any (fits table) ts.table_name_negative_patterns)
      × (boost ≡ (
          if any (fits table) ts.table_name_negative_patterns
          then 0
          else if any (fits table) ts.table_name_positive_patterns
          then 20
          else 0))
unfolding signal_d_table_context
signal_d_table_context-cases table ts = ground (
  arith,
  table_reject-any table ts.table_name_negative_patterns,
  table_boost-any table ts.table_name_positive_patterns,
)
