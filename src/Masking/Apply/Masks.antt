-- ===== src/Masking/Apply/Masks.antt =====
-- Every column with a tag and an active policy is masked in the view (masking.py, the loop over the
-- tags in `apply_masking_view`).
use stardatadblabs.Base.{
  ◌≡◌, refl, sym, ◌⊎◌, inl, inr, Text, text_eq, text_eq_iff, text_eq_refl, true, Option, none, some,
  is_some, List, [], ◌∷◌, In, arith, Bool-cases,
}
use stardatadblabs.Base.Dict.{Dict, lookup, lookup-insert}
use stardatadblabs.Catalog.Rows.{ColumnTag, MaskingAlgorithm, Tables}
use stardatadblabs.Masking.Policy.{resolve_policy_for_column}
use stardatadblabs.Masking.Ddl.{clear, masked, fill_column, projections}
use stardatadblabs.Masking.Ddl.Projections.{projections_mask}
use stardatadblabs.Masking.Apply.{add_mask, masked_exprs}

-- The expression is that of a tag of the column, by the algorithm that is resolved for the tag.
abbrev pub IsMaskOf : Tables → List ColumnTag → Text → Text → Type 0
IsMaskOf db tags c expr =
    (t : ColumnTag) × In t tags
    × (t.column_name ≡ c)
    × ((a : MaskingAlgorithm) × (resolve_policy_for_column t db ≡ some a)
        × (expr ≡ fill_column a.stardata_expression c))

add_mask-kept :
    (c col : Text) (o : Option MaskingAlgorithm) (masks : Dict Text)
    → is_some (lookup c masks) ≡ true
    → is_some (lookup c (add_mask col o masks)) ≡ true
add_mask-kept c col none masks h = h
add_mask-kept c col (some a) masks h =
    ground (arith, lookup-insert c col (fill_column a.stardata_expression col) masks)

masked_exprs-kept :
    (db : Tables) (tags : List ColumnTag) (c : Text) (masks : Dict Text)
    → is_some (lookup c masks) ≡ true
    → is_some (lookup c (masked_exprs db tags masks)) ≡ true
unfolding masked_exprs
masked_exprs-kept db [] c masks h = h
masked_exprs-kept db (t ∷ ts) c masks h =
    masked_exprs-kept db ts c _
      (add_mask-kept c t.column_name (resolve_policy_for_column t db) masks h)

masked_exprs_complete :
    (db : Tables) (tags : List ColumnTag) (masks : Dict Text) (t : ColumnTag) (a : MaskingAlgorithm)
    → In t tags
    → resolve_policy_for_column t db ≡ some a
    → is_some (lookup t.column_name (masked_exprs db tags masks)) ≡ true
unfolding masked_exprs
masked_exprs_complete db [] masks t a m e = absurd m
masked_exprs_complete db (x ∷ ts) masks t a (inr m) e = masked_exprs_complete db ts _ t a m e
masked_exprs_complete db (x ∷ ts) masks t a (inl q) e = rw q (
    masked_exprs-kept db ts x.column_name _ (
      rw (rw q at e) (
        rw
          (lookup-insert x.column_name x.column_name
            (fill_column a.stardata_expression x.column_name) masks)
          (rw (text_eq_refl x.column_name)))))

add_mask_sound :
    (db : Tables) (t : ColumnTag) (o : Option MaskingAlgorithm) (masks : Dict Text) (c expr : Text)
    → resolve_policy_for_column t db ≡ o
    → lookup c (add_mask t.column_name o masks) ≡ some expr
    → (lookup c masks ≡ some expr) ⊎ IsMaskOf db (t ∷ []) c expr
add_mask_sound db t none masks c expr e h = inl h
add_mask_sound db t (some a) masks c expr e h =
    let step =
      lookup-insert c t.column_name (fill_column a.stardata_expression t.column_name) masks in
    elim (Bool-cases (text_eq t.column_name c)) [
      | inr other ↦ inl (ground (arith, step))
      | inl same ↦
          let col : t.column_name ≡ c = (text_eq_iff t.column_name c).0 same in
          inr (t, inl refl, col, (a, e, rw (sym col) (ground (arith, step))))
    ]

masked_exprs_sound :
    (db : Tables) (tags : List ColumnTag) (masks : Dict Text) (c expr : Text)
    → lookup c (masked_exprs db tags masks) ≡ some expr
    → (lookup c masks ≡ some expr) ⊎ IsMaskOf db tags c expr
unfolding masked_exprs
masked_exprs_sound db [] masks c expr h = inl h
masked_exprs_sound db (t ∷ ts) masks c expr h = elim (masked_exprs_sound db ts _ c expr h) [
  | inr (x, m, q, p) ↦ inr (x, inr m, q, p)
  | inl before ↦
      elim (add_mask_sound db t (resolve_policy_for_column t db) masks c expr refl before) [
        | inl old ↦ inl old
        | inr (x, m, q, p) ↦ inr (x, elim m [ inl i ↦ inl i | inr n ↦ absurd n ], q, p)
      ]
]

-- In the view of a table no tagged column for which an algorithm is resolved is shown as it is. What
-- is shown under a column's name instead of the column is the expression of an algorithm that is
-- resolved for a tag of that very column.
pub projections-masked_exprs :
    (db : Tables) (tags : List ColumnTag) (cols : List Text)
    → let view = projections cols (masked_exprs db tags []) in
      ((t : ColumnTag) (a : MaskingAlgorithm)
        → In t tags
        → resolve_policy_for_column t db ≡ some a
        → ¬ In (clear t.column_name) view)
      × ((c expr : Text) → In (masked expr c) view → IsMaskOf db tags c expr)
unfolding lookup
projections-masked_exprs db tags cols =
    let (_, shown, hidden) = projections_mask cols (masked_exprs db tags []) in
    (
      λ t a m e i.
          let all = masked_exprs_complete db tags [] t a m e in cc (shown t.column_name i, all),
      λ c expr i. elim (masked_exprs_sound db tags [] c expr (hidden expr c i)) [
        | inl empty ↦ absurd (ground arith)
        | inr found ↦ found
      ],
    )
