-- ===== src/Masking/Ddl/Projections.antt =====
-- What the lines of a masked view show (masking.py, `_build_view_ddl`).
use stardatadblabs.Base.{
  ◌≡◌, refl, inl, inr, Text, none, some, List, [], ◌∷◌, map, In, arith, Option-cases,
}
use stardatadblabs.Base.Dict.{Dict, lookup}
use stardatadblabs.Masking.Ddl.{Projection, clear, masked, project, projections}

abbrev pub column_of : Projection → Text
column_of (clear col) = col
column_of (masked expr col) = col

project-column_of : (masks : Dict Text) (col : Text) → column_of (project masks col) ≡ col
project-column_of masks col = ground arith

projections-columns :
    (cols : List Text) (masks : Dict Text) → map column_of (projections cols masks) ≡ cols
unfolding projections
projections-columns [] masks = refl
projections-columns (col ∷ cols) masks =
    ground (arith, project-column_of masks col, projections-columns cols masks)

project-clear :
    (masks : Dict Text) (col c : Text) → clear c ≡ project masks col → lookup c masks ≡ none
project-clear masks col c h = elim (Option-cases (lookup col masks)) [
  | inl e ↦ let same : c ≡ col = ground arith in rw same e
  | inr (x, e) ↦ absurd (ground arith)
]

project-masked :
    (masks : Dict Text) (col c expr : Text)
    → masked expr c ≡ project masks col
    → lookup c masks ≡ some expr
project-masked masks col c expr h = elim (Option-cases (lookup col masks)) [
  | inl e ↦ absurd (ground arith)
  | inr (x, e) ↦
      let same : c ≡ col = ground arith in
      let shown : expr ≡ x = ground arith in rw same (rw shown e)
]

projections-In :
    (p : Projection) (cols : List Text) (masks : Dict Text)
    → In p (projections cols masks)
    → (col : Text) × (p ≡ project masks col)
unfolding projections
projections-In p [] masks m = absurd m
projections-In p (col ∷ cols) masks m = elim m [
  | inl e ↦ (col, e)
  | inr m' ↦ projections-In p cols masks m'
]

-- The view has one line for each column of the table, in the table's order. A column is shown as it
-- is only if it has no mask, and an expression is shown under a column's name only if it is that
-- column's mask.
pub projections_mask :
    (cols : List Text) (masks : Dict Text)
    → (map column_of (projections cols masks) ≡ cols)
      × ((c : Text) → In (clear c) (projections cols masks) → lookup c masks ≡ none)
      × ((expr c : Text) → In (masked expr c) (projections cols masks) → lookup c masks ≡ some expr)
projections_mask cols masks = (
  projections-columns cols masks,
  λ c m. let (col, e) = projections-In (clear c) cols masks m in project-clear masks col c e,
  λ expr c m.
      let (col, e) = projections-In (masked expr c) cols masks m in
      project-masked masks col c expr e,
)
