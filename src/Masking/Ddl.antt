-- ===== src/Masking/Ddl.antt =====
-- The text of the masked view (masking.py, `_build_view_ddl`).
pub mod Projections
use stardatadblabs.Base.{
  ℕ, zero, suc, ◌-◌, Text, codes, starts_with, Bool, true, false, Option, none, some, List, [], ◌∷◌,
  ◌++◌, map, length, if◌then◌else◌,
}
use stardatadblabs.Base.Dict.{Dict, lookup}

-- `` `name` ``
unfoldable pub quoted : Text → Text
quoted name = b'`' ∷ (name ++ (b'`' ∷ []))

-- `s.replace(old, new)` for a text `old` that is not empty; `skip` counts the codes of an occurrence
-- that are still to be passed over.
unfoldable pub replace_from : Text → Text → ℕ → Text → Text
replace_from old new skip [] = []
replace_from old new (suc skip) (c ∷ s) = replace_from old new skip s
replace_from old new zero (c ∷ s) =
    let replaced = new ++ replace_from old new (length old - 1) s in
    let kept = c ∷ replace_from old new zero s in if starts_with (c ∷ s) old then replaced else kept

-- `stardata_expression.replace("{col}", f"`{column_name}`")`
unfoldable pub fill_column : Text → Text → Text
unfolding replace_from quoted
fill_column expression column = replace_from (codes "{col}") (quoted column) 0 expression

-- One line of the `SELECT`: the column itself, or its masking expression under its name.
pub data Projection : Type 0 where
  clear : Text → Projection
  masked : Text → Text → Projection

unfoldable pub projection_text : Projection → Text
unfolding quoted
projection_text (clear col) = codes "  " ++ quoted col
projection_text (masked expr col) = codes "  " ++ (expr ++ (codes " AS " ++ quoted col))

abbrev pub project : Dict Text → Text → Projection
project masks col = elim (lookup col masks) [ none ↦ clear col | some expr ↦ masked expr col ]

-- `for col in all_columns`
unfoldable pub projections : List Text → Dict Text → List Projection
projections all_columns masks = map (project masks) all_columns

-- `sep.join(parts)`
unfoldable pub join : Text → List Text → Text
join sep [] = []
join sep (p ∷ []) = p
join sep (p ∷ q ∷ ps) = p ++ (sep ++ join sep (q ∷ ps))

-- A comma and a line feed; a line feed.
abbrev comma_line : Text
comma_line = 44 ∷ 10 ∷ []

abbrev line : Text
line = 10 ∷ []

unfoldable pub build_view_ddl : Text → Text → Text → List Text → Dict Text → Text
unfolding quoted projection_text projections join
build_view_ddl database table view_name all_columns masks =
    codes "CREATE OR REPLACE VIEW "
    ++ (quoted database
        ++ (codes "."
            ++ (quoted view_name
                ++ (codes " AS"
                    ++ (line
                        ++ (codes "SELECT"
                            ++ (line
                                ++ (join comma_line
                                      (map projection_text (projections all_columns masks))
                                    ++ (line
                                        ++ (codes "FROM "
                                            ++ (quoted database
                                                ++ (codes "."
                                                    ++ (quoted table ++ codes ";")))))))))))))
