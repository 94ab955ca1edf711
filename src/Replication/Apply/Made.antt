-- ===== src/Replication/Apply/Made.antt =====
-- When a statement counts as applied (scripts/ddl_apply.py).
use stardatadblabs.Base.{
  ◌==◌, ◌≡◌, refl, ◌⊎◌, inl, inr, ◌||◌, ◌++◌, Text, codes, In, has_infix, lower, Bool, true, false,
  List, [], ◌∷◌, arith,
}
use stardatadblabs.Replication.Shell.{Completed}
use stardatadblabs.Replication.Statements.{Op, add, drop, modify, rename}
use stardatadblabs.Replication.Apply.{combined, is_idempotent, is_applied}

-- The errors that say that a change had been made before.
abbrev pub known_errors : Op → List Text
known_errors add = codes "already exists" ∷ codes "column already exists" ∷ []
known_errors drop =
    codes "cannot resolve"
    ∷ codes "no such column"
    ∷ codes "column not found"
    ∷ codes "missing"
    ∷ []
known_errors modify = []
known_errors rename = codes "already exists" ∷ []

-- A statement left with exit code 0, or with one of those errors in its errors or its output.
abbrev pub IsMade : Op → Completed → Type 0
IsMade op r =
    (r.code ≡ 0)
    ⊎ ((t : Text) × In t (known_errors op)
        × (has_infix (lower (r.errors ++ codes "\n" ++ r.out)) t ≡ true))

is_idempotent-known :
    (op : Op) (text : Text)
    → is_idempotent op text ≡ true
    → (t : Text) × In t (known_errors op) × (has_infix text t ≡ true)
unfolding is_idempotent
is_idempotent-known op text h = by_op op h
  where
    or_cases : (a b : Bool) → a || b ≡ true → (a ≡ true) ⊎ (b ≡ true)
    or_cases true b h = inl refl
    or_cases false b h = inr h

    by_op :
        (op : Op)
        → is_idempotent op text ≡ true
        → (t : Text) × In t (known_errors op) × (has_infix text t ≡ true)
    by_op add h = elim (or_cases _ _ h) [
      | inl e ↦ (_, inl refl, e)
      | inr e ↦ (_, inr (inl refl), e)
    ]
    by_op drop h = elim (or_cases _ _ h) [
      | inl e ↦ (_, inl refl, e)
      | inr k ↦ elim (or_cases _ _ k) [
        | inl e ↦ (_, inr (inl refl), e)
        | inr l ↦ elim (or_cases _ _ l) [
          | inl e ↦ (_, inr (inr (inl refl)), e)
          | inr e ↦ (_, inr (inr (inr (inl refl))), e)
        ]
      ]
    ]
    by_op modify h = absurd (cc h)
    by_op rename h = (_, inl refl, h)

pub is_applied-IsMade : (op : Op) (r : Completed) → is_applied op r ≡ true → IsMade op r
is_applied-IsMade op r h = by_code (r.code == 0) refl h
  where
    by_code :
        (b : Bool) → (r.code == 0) ≡ b → b || is_idempotent op (combined r) ≡ true → IsMade op r
    by_code true e h = inl (ground (arith, e))
    by_code false e h = inr (is_idempotent-known op (combined r) h)
