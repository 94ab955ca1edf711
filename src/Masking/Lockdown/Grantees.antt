-- ===== src/Masking/Lockdown/Grantees.antt =====
-- Reading a user's name out of a GRANTEE (masking.py, `_enforce_base_table_lockdown`).
use mathlib.Core.List.{reverse, reverse-append, reverse-reverse}
use stardatadblabs.Base.{
  ℕ, ◌≡◌, refl, ap, ◌∙◌, Text, codes, starts_with, Bool, false, [], ◌∷◌, ◌++◌, any, arith, ◌==◌,
}
use stardatadblabs.Masking.Lockdown.{lstrip_quotes, strip_quotes, before_sep, quote_at, raw_user}

abbrev pub has_quote : Text → Bool
has_quote u = any (λ c. c == 39) u

-- `'user'@'%'`, the way information_schema writes a grantee.
abbrev pub grantee_text : Text → Text
grantee_text u = 39 ∷ (u ++ codes "'@'%'")

before_sep-append :
    (u s : Text) → has_quote u ≡ false → before_sep quote_at (u ++ (quote_at ++ s)) ≡ u
unfolding before_sep starts_with
before_sep-append [] s h = refl
before_sep-append (c ∷ u) s h = ground (arith, before_sep-append u s)

lstrip_quotes-grantee :
    (c : ℕ) (u : Text)
    → has_quote (c ∷ u) ≡ false
    → lstrip_quotes (grantee_text (c ∷ u)) ≡ (c ∷ u) ++ codes "'@'%'"
unfolding lstrip_quotes
lstrip_quotes-grantee c u h = ground arith

strip_quotes-grantee :
    (c : ℕ) (u : Text)
    → has_quote (c ∷ u) ≡ false
    → strip_quotes (grantee_text (c ∷ u)) ≡ (c ∷ u) ++ codes "'@'%"
unfolding strip_quotes
strip_quotes-grantee c u h =
    ap (λ t. reverse (lstrip_quotes (reverse t))) (lstrip_quotes-grantee c u h)
    ∙ ap (λ t. reverse (lstrip_quotes t)) (reverse-append (c ∷ u) (codes "'@'%'"))
    ∙ reverse-append (37 ∷ 39 ∷ 64 ∷ 39 ∷ []) (reverse (c ∷ u))
    ∙ ap (λ t. t ++ codes "'@'%") (reverse-reverse (c ∷ u))

-- A name that is not empty and has no quote in it is read back from its grantee.
pub raw_user-grantee_text :
    (c : ℕ) (u : Text) → has_quote (c ∷ u) ≡ false → raw_user (grantee_text (c ∷ u)) ≡ c ∷ u
unfolding raw_user
raw_user-grantee_text c u h =
    rw (strip_quotes-grantee c u h) (before_sep-append (c ∷ u) (b'%' ∷ []) h)
