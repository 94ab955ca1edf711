-- ===== src/Base/Lists.antt =====
-- Lists of rows: Boolean searches and filters, and the lemmas on them that the components share.
use Prim.Native.Nat.{ℕ, zero, suc, ◌+◌}
use mathlib.Core.Path.{◌≡◌, refl, ap, sym, ◌∙◌}
use mathlib.Core.Logic.{◌⊎◌, ◌↔◌, inl, inr}
use mathlib.Core.Bool.{Bool, true, false, ◌||◌}
use mathlib.Core.Option.{Option, none, some}
use mathlib.Core.List.{List, [], ◌∷◌, ◌++◌}
use native.Mathlib.Omega.{arith}
use stardatadblabs.Base.Tests.{if◌then◌else◌, Bool-cases}

-- Every element satisfies `P`.
abbrev pub All {ℓ κ} : {A : Type ℓ} → (A → Type κ) → List A → Type κ
All P [] = Unit
All P (x ∷ xs) = P x × All P xs

-- `a` stands in the list, with its place.
abbrev pub In : {A : Type 0} → A → List A → Type 0
In a [] = ⊥
In a (x ∷ xs) = (a ≡ x) ⊎ In a xs

module _ {ℓ} {A : Type ℓ} where
  abbrev pub length : List A → ℕ
  length [] = 0
  length (x ∷ xs) = suc (length xs)

  abbrev pub drop : ℕ → List A → List A
  drop zero xs = xs
  drop (suc n) [] = []
  drop (suc n) (x ∷ xs) = drop n xs

  abbrev pub take : ℕ → List A → List A
  take zero xs = []
  take (suc n) [] = []
  take (suc n) (x ∷ xs) = x ∷ take n xs

  abbrev pub head? : List A → Option A
  head? [] = none
  head? (x ∷ xs) = some x

  -- `any(p(x) for x in xs)`
  abbrev pub any : (A → Bool) → List A → Bool
  any p [] = false
  any p (x ∷ xs) = p x || any p xs

  -- `[x for x in xs if p(x)]`
  abbrev pub keep : (A → Bool) → List A → List A
  keep p [] = []
  keep p (x ∷ xs) = let rest = keep p xs in if p x then x ∷ rest else rest

  -- The first row that satisfies `p`: `scalar_one_or_none` where at most one does.
  abbrev pub find : (A → Bool) → List A → Option A
  find p [] = none
  find p (x ∷ xs) = let rest = find p xs in if p x then some x else rest

  -- Every row that satisfies `p` is replaced by `f` of it.
  abbrev pub update : (A → Bool) → (A → A) → List A → List A
  update p f [] = []
  update p f (x ∷ xs) = (if p x then f x else x) ∷ update p f xs

  -- `next((x for x in xs if p(x)), default)`
  abbrev pub next_or : (A → Bool) → A → List A → A
  next_or p d [] = d
  next_or p d (x ∷ xs) = let rest = next_or p d xs in if p x then x else rest

module _ {ℓ} {A : Type ℓ} where
  pub length-append : (xs ys : List A) → length (xs ++ ys) ≡ length xs + length ys
  length-append [] ys = omega arith
  length-append (x ∷ xs) ys = omega (arith, length-append xs ys)

  pub drop-length_append : (xs ys : List A) → drop (length xs) (xs ++ ys) ≡ ys
  drop-length_append [] ys = refl
  drop-length_append (x ∷ xs) ys = drop-length_append xs ys

  pub find-none : (p : A → Bool) (xs : List A) → find p xs ≡ none → any p xs ≡ false
  find-none p [] h = refl
  find-none p (x ∷ xs) h = ground (arith, find-none p xs)

  pub length-update : (p : A → Bool) (f : A → A) (xs : List A) → length (update p f xs) ≡ length xs
  length-update p f [] = refl
  length-update p f (x ∷ xs) = ap suc (length-update p f xs)

module _ {A : Type 0} where
  -- What `find` returns satisfies the test and is a row of the list.
  pub find-some : (p : A → Bool) (xs : List A) (a : A) → find p xs ≡ some a → In a xs × (p a ≡ true)
  find-some p [] a h = cc
  find-some p (x ∷ xs) a h = ground (arith, find-some p xs a)

  pub In-any : (p : A → Bool) (a : A) (xs : List A) → In a xs → p a ≡ true → any p xs ≡ true
  In-any p a [] h t = absurd h
  In-any p a (x ∷ xs) (inl e) t = ground arith
  In-any p a (x ∷ xs) (inr h) t = ground (arith, In-any p a xs h t)

  pub any-In : (p : A → Bool) (xs : List A) → any p xs ≡ true → (a : A) × In a xs × (p a ≡ true)
  any-In p [] h = cc
  any-In p (x ∷ xs) h = elim (Bool-cases (p x)) [
    | inl e ↦ (x, inl refl, e)
    | inr e ↦ let (a, m, t) = any-In p xs (ground arith) in (a, inr m, t)
  ]

  pub keep-In : (p : A → Bool) (a : A) (xs : List A) → In a (keep p xs) ↔ (In a xs × (p a ≡ true))
  keep-In p a [] = (λ m. absurd m, λ h. h.0)
  keep-In p a (x ∷ xs) = elim (Bool-cases (p x)) [
    | inl e ↦ rw e (
      λ m. elim m [
        | inl q ↦ (inl q, rw q e)
        | inr m' ↦ let (i, t) = (keep-In p a xs).0 m' in (inr i, t)
      ],
      λ h. elim h.0 [ inl q ↦ inl q | inr i ↦ inr ((keep-In p a xs).1 (i, h.1)) ],
    )
    | inr e ↦ rw e (
      λ m. let (i, t) = (keep-In p a xs).0 m in (inr i, t),
      λ h. elim h.0 [ inl q ↦ cc | inr i ↦ (keep-In p a xs).1 (i, h.1) ],
    )
  ]

  pub In-append-left : (a : A) (xs ys : List A) → In a xs → In a (xs ++ ys)
  In-append-left a [] ys m = absurd m
  In-append-left a (x ∷ xs) ys (inl e) = inl e
  In-append-left a (x ∷ xs) ys (inr m) = inr (In-append-left a xs ys m)

  pub In-append_one : (a b : A) (xs : List A) → In a (xs ++ (b ∷ [])) → In a xs ⊎ (a ≡ b)
  In-append_one a b [] (inl e) = inr e
  In-append_one a b [] (inr m) = absurd m
  In-append_one a b (x ∷ xs) (inl e) = inl (inl e)
  In-append_one a b (x ∷ xs) (inr m) = elim (In-append_one a b xs m) [
    | inl i ↦ inl (inr i)
    | inr e ↦ inr e
  ]

  -- What stands in an updated list is the new row, or a row that was not updated.
  pub In-update :
      (p : A → Bool) (a r : A) (xs : List A)
      → In a (update p (λ x. r) xs)
      → (a ≡ r) ⊎ (In a xs × (p a ≡ false))
  In-update p a r [] m = absurd m
  In-update p a r (x ∷ xs) (inr m) = elim (In-update p a r xs m) [
    | inl e ↦ inl e
    | inr (i, n) ↦ inr (inr i, n)
  ]
  In-update p a r (x ∷ xs) (inl e) = elim (Bool-cases (p x)) [
    | inl y ↦ inl (rw y at e)
    | inr n ↦ let q = rw n at e in inr (inl q, ap p q ∙ n)
  ]

  pub update-In :
      (p : A → Bool) (f : A → A) (a : A) (xs : List A)
      → In a xs
      → p a ≡ false
      → In a (update p f xs)
  update-In p f a [] m n = absurd m
  update-In p f a (x ∷ xs) (inl e) n = inl (rw (sym (ap p e) ∙ n) e)
  update-In p f a (x ∷ xs) (inr m) n = inr (update-In p f a xs m n)

  -- What is appended is found where nothing was.
  pub find-append :
      (p : A → Bool) (xs : List A) (a : A)
      → find p xs ≡ none
      → p a ≡ true
      → find p (xs ++ (a ∷ [])) ≡ some a
  find-append p [] a h t = rw t refl
  find-append p (x ∷ xs) a h t = ground (arith, find-append p xs a)

  -- What is written over a row that is found is found from then on.
  pub find-update :
      (p q : A → Bool) (xs : List A) (r r' : A)
      → q r ≡ true
      → find p xs ≡ some r
      → p r' ≡ true
      → find p (update q (λ x. r') xs) ≡ some r'
  find-update p q [] r r' k h t = cc
  find-update p q (x ∷ xs) r r' k h t = elim (Bool-cases (q x)) [
    | inl e ↦ rw (e, t) refl
    | inr e ↦ elim (Bool-cases (p x)) [
      | inl px ↦ let xr = rw px at h in cc
      | inr px ↦ rw (e, px) (find-update p q xs r r' k (rw px at h) t)
    ]
  ]
