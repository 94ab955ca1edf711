-- ===== src/Replication/Types/Raises.antt =====
-- When the translation of a type raises (scripts/ddl_extract.py).
use stardatadblabs.Base.{
  ℕ, ◌≡◌, ◌≢◌, refl, ◌⊎◌, inl, inr, ◌↔◌, ◌==◌, Text, lower, Bool, true, false, ◌&&◌, Option, none,
  some, List, [], ◌∷◌, any, arith, if◌then◌else◌,
}
use stardatadblabs.Base.Lines.{strip}
use stardatadblabs.Replication.Types.{
  index_of, base_of, is_decimal, Numbers, number_or, decimal_text, decimal_type, parts_of,
  decimal_of, has_open, mapped_type, typed, src_type_to_iceberg,
}

index_of-none : (c : ℕ) (s : Text) → (index_of c s ≡ none) ↔ (any (λ d. d == c) s ≡ false)
unfolding index_of
index_of-none c [] = (λ h. refl, λ h. refl)
index_of-none c (d ∷ s) = ground (arith, index_of-none c s)

module _ (N : Numbers) where
  -- A text of digits that is no number for `int`.
  abbrev pub IsUnread : Text → Type 0
  IsUnread t = (N.isdigit t ≡ true) × (N.int t ≡ none)

  -- One of the first two parts within the parentheses is such a text.
  abbrev pub HasUnread : List Text → Type 0
  HasUnread [] = IsUnread (strip [])
  HasUnread (p ∷ []) = IsUnread (strip p)
  HasUnread (p ∷ s ∷ rest) = IsUnread (strip p) ⊎ IsUnread (strip s)

  number_or-none : (d : ℕ) (t : Text) → (number_or N d t ≡ none) ↔ IsUnread t
  number_or-none d t = by_digits (N.isdigit t)
    where
      by_digits :
          (b : Bool) → ((if b then N.int t else some d) ≡ none) ↔ ((b ≡ true) × (N.int t ≡ none))
      by_digits true = (λ e. (refl, e), λ h. h.1)
      by_digits false = (λ e. absurd (cc e), λ h. absurd (cc h.0))

  decimal_text-none : (p s : Option ℕ) → (decimal_text p s ≡ none) ↔ ((p ≡ none) ⊎ (s ≡ none))
  decimal_text-none none s = (λ e. inl refl, λ h. refl)
  decimal_text-none (some p) none = (λ e. inr refl, λ h. refl)
  decimal_text-none (some p) (some s) =
      (λ e. absurd (cc e), λ h. elim h [ inl k ↦ absurd (cc k) | inr k ↦ absurd (cc k) ])

  precision-none : (t : Text) → (decimal_text (number_or N 38 t) (some 10) ≡ none) ↔ IsUnread t
  precision-none t = by_number (number_or N 38 t) (number_or-none 38 t)
    where
      by_number :
          (o : Option ℕ) → (o ≡ none) ↔ IsUnread t → (decimal_text o (some 10) ≡ none) ↔ IsUnread t
      by_number none k = (λ e. k.0 refl, λ h. refl)
      by_number (some n) k = (λ e. absurd (cc e), λ h. absurd (cc (k.1 h)))

  decimal_type-none : (parts : List Text) → (decimal_type N parts ≡ none) ↔ HasUnread parts
  unfolding decimal_type
  decimal_type-none [] = precision-none (strip [])
  decimal_type-none (p ∷ []) = precision-none (strip p)
  decimal_type-none (p ∷ s ∷ rest) =
      let (to, from) = decimal_text-none (number_or N 38 (strip p)) (number_or N 10 (strip s)) in
      let (first, first') = number_or-none 38 (strip p) in
      let (second, second') = number_or-none 10 (strip s) in
      (
        λ e. elim (to e) [ inl k ↦ inl (first k) | inr k ↦ inr (second k) ],
        λ h. from (elim h [ inl k ↦ inl (first' k) | inr k ↦ inr (second' k) ]),
      )

  -- The parenthesis is not closed, or a number within the parentheses cannot be read.
  abbrev pub IsMalformed : Text → Option ℕ → Option ℕ → Type 0
  IsMalformed low open_at close_at =
      (close_at ≡ none)
      ⊎ ((i : ℕ) × (j : ℕ) × (open_at ≡ some i)
          × (close_at ≡ some j)
          × HasUnread (parts_of low i j))

  decimal_of-none :
      (low : Text) (i j : Option ℕ) → i ≢ none → (decimal_of N low i j ≡ none) ↔ IsMalformed low i j
  decimal_of-none low none j h = absurd (h refl)
  decimal_of-none low (some i) none h = (λ e. inl refl, λ k. refl)
  decimal_of-none low (some i) (some j) h =
      let (to, from) = decimal_type-none (parts_of low i j) in
      (
        λ e. inr (i, j, refl, refl, to e),
        λ k. elim k [
          | inl q ↦ absurd (cc q)
          | inr (a, b, p, q, u) ↦
              let same_i : i ≡ a = cc p in let same_j : j ≡ b = cc q in from (rw (same_i, same_j) u)
        ],
      )

  -- A decimal type with an opening parenthesis that is refused.
  abbrev pub IsRefused : Text → Type 0
  IsRefused low =
      (is_decimal (base_of low) ≡ true)
      × (any (λ c. c == b'(') low ≡ true)
      × IsMalformed low (index_of b'(' low) (index_of b')' low)

  typed-none : (source_key low : Text) → (typed N source_key low ≡ none) ↔ IsRefused low
  typed-none source_key low = by_test (is_decimal (base_of low)) (has_open low) refl
    where
      by_test :
          (a b : Bool)
          → has_open low ≡ b
          → ((if a && b
                then decimal_of N low (index_of b'(' low) (index_of b')' low)
                else some (mapped_type source_key (base_of low) low))
              ≡ none)
            ↔ ((a ≡ true) × (b ≡ true) × IsMalformed low (index_of b'(' low) (index_of b')' low))
      by_test true true h =
          let opened : index_of b'(' low ≢ none = λ e. cc ((index_of-none b'(' low).0 e, h) in
          let (to, from) = decimal_of-none low (index_of b'(' low) (index_of b')' low) opened in
          (λ e. (refl, refl, to e), λ k. from k.2)
      by_test true false h = (λ e. absurd (cc e), λ k. absurd (cc k.1))
      by_test false b h = (λ e. absurd (cc e), λ k. absurd (cc k.0))

  -- A type raises a ValueError exactly if it is not empty and, once it is lowered and stripped, is a
  -- decimal type with an opening parenthesis where no closing one stands in the text, or where one of
  -- the first two parts between the parentheses is a text of digits that `int` refuses.
  pub src_type_to_iceberg_raises_iff :
      (source_key type_str : Text)
      → (src_type_to_iceberg N source_key type_str ≡ none)
        ↔ ((type_str ≢ []) × IsRefused (strip (lower type_str)))
  unfolding src_type_to_iceberg
  src_type_to_iceberg_raises_iff source_key [] = (λ e. absurd (cc e), λ h. absurd (h.0 refl))
  src_type_to_iceberg_raises_iff source_key (c ∷ s) = (
    λ e. (λ k. cc k, (typed-none source_key (strip (lower (c ∷ s)))).0 e),
    λ h. (typed-none source_key (strip (lower (c ∷ s)))).1 h.1,
  )
