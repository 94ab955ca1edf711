-- ===== src/Base/Strings.antt =====
-- Python's `str` as the list of its code points, with the operations that the program calls.
use Prim.Native.Nat.{ℕ, ◌+◌}
use Prim.Native.Char.{code}
use Prim.Native.String.{String}
use mathlib.Core.Path.{◌≡◌, refl}
use mathlib.Core.Logic.{◌↔◌}
use mathlib.Core.Bool.{Bool, true, false, ◌&&◌, ◌||◌}
use mathlib.Core.List.{List, [], ◌∷◌, ◌++◌, map}
use native.Mathlib.Omega.{arith}
use stardatadblabs.Base.Tests.{leb, ◌==◌, if◌then◌else◌}
use stardatadblabs.Base.Lists.{any}

abbrev pub Text : Type 0
Text = List ℕ

-- A literal of the source.
abbrev pub codes : String → Text
codes String.[] = []
codes (String.◌∷◌ c s) = code c ∷ codes s

-- `s == t`
unfoldable pub text_eq : Text → Text → Bool
text_eq [] [] = true
text_eq [] (d ∷ t) = false
text_eq (c ∷ s) [] = false
text_eq (c ∷ s) (d ∷ t) = c == d && text_eq s t

pub text_eq_iff : (s t : Text) → (text_eq s t ≡ true) ↔ (s ≡ t)
unfolding text_eq
text_eq_iff [] [] = (λ h. refl, λ h. refl)
text_eq_iff [] (d ∷ t) = ground arith
text_eq_iff (c ∷ s) [] = ground arith
text_eq_iff (c ∷ s) (d ∷ t) = ground (arith, text_eq_iff s t)

pub text_eq_refl : (s : Text) → text_eq s s ≡ true
text_eq_refl s = (text_eq_iff s s).1 refl

-- `s in names`, for a list of texts.
abbrev pub contains : List Text → Text → Bool
contains names s = any (λ n. text_eq n s) names

-- `s.startswith(p)`
unfoldable pub starts_with : Text → Text → Bool
starts_with s [] = true
starts_with [] (d ∷ p) = false
starts_with (c ∷ s) (d ∷ p) = c == d && starts_with s p

-- `s.endswith(p)`
unfoldable pub ends_with : Text → Text → Bool
unfolding text_eq
ends_with [] p = text_eq [] p
ends_with (c ∷ s) p = text_eq (c ∷ s) p || ends_with s p

-- `p in s`, for two texts.
unfoldable pub has_infix : Text → Text → Bool
unfolding starts_with
has_infix [] p = starts_with [] p
has_infix (c ∷ s) p = starts_with (c ∷ s) p || has_infix s p

-- `s.lower()`, over ASCII.
abbrev lower_code : ℕ → ℕ
lower_code c = if leb b'A' c && leb c b'Z' then c + 32 else c

unfoldable pub lower : Text → Text
lower = map lower_code

-- `s.replace(" ", "_")`
abbrev underscore : ℕ → ℕ
underscore c = if c == b' ' then b'_' else c

unfoldable pub spaces_to_underscores : Text → Text
spaces_to_underscores = map underscore

pub starts_with-append : (p s : Text) → starts_with (p ++ s) p ≡ true
unfolding starts_with
starts_with-append [] [] = refl
starts_with-append [] (c ∷ s) = refl
starts_with-append (d ∷ p) s = ground (arith, starts_with-append p s)

-- A prefix is what the text begins with.
pub starts_with-split : (s p : Text) → starts_with s p ≡ true → (v : Text) × (s ≡ p ++ v)
unfolding starts_with
starts_with-split s [] h = (s, refl)
starts_with-split [] (d ∷ p) h = cc
starts_with-split (c ∷ s) (d ∷ p) h =
    let r : (v : Text) × (s ≡ p ++ v) = starts_with-split s p (ground arith) in
    (r.0, ground (arith, r.1))

pub ends_with-append : (u p : Text) → ends_with (u ++ p) p ≡ true
unfolding ends_with
ends_with-append [] [] = refl
ends_with-append [] (d ∷ p) = ground (arith, text_eq_refl (d ∷ p))
ends_with-append (c ∷ u) p = ground (arith, ends_with-append u p)

pub has_infix-append : (u p v : Text) → has_infix (u ++ (p ++ v)) p ≡ true
unfolding has_infix
has_infix-append [] [] [] = refl
has_infix-append [] [] (c ∷ v) = ground arith
has_infix-append [] (d ∷ p) v = ground (arith, starts_with-append (d ∷ p) v)
has_infix-append (c ∷ u) p v = ground (arith, has_infix-append u p v)
