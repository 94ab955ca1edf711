-- ===== src/Routers/Query.antt =====
-- The query planner (routers/masking.py, `plan_masked_query`). The user's roles, as the RBAC client
-- returns them, and the settings' `masked_view_suffix` are arguments. A plan's `note`, a sentence
-- for people, is left out.
pub mod Plans
use Prim.Native.Nat.{◌/◌, ◌%◌}
use stardatadblabs.Base.{
  ℕ, zero, suc, ◌+◌, Text, codes, text_eq, Bool, true, false, not, ◌&&◌, Option, none, some, List,
  [], ◌∷◌, ◌++◌, map, ltb, if◌then◌else◌,
}
use stardatadblabs.Catalog.Rows.{Tables}
use stardatadblabs.Catalog.Session.{Error, Result, ok, err, http}
use stardatadblabs.Masking.Ddl.{quoted, join}
use stardatadblabs.Masking.Route.{
  Target, base_table, masked_view, QueryTarget, resolve_query_target,
}

pub record MaskedQueryRequest : Type 0 where
  pub username : Text
  pub stardata_database : Text
  pub stardata_table : Text
  pub columns : Option (List Text)
  pub where_clause : Option Text
  pub limit : ℕ

pub record MaskedQueryResponse : Type 0 where
  pub username : Text
  pub role : Text
  pub target : Target
  pub sql : Text
  pub columns_masked : List Text
  pub columns_clear : List Text

-- The decimal digits of a number that has at most `fuel` of them, before `acc`.
unfoldable pub decimal : ℕ → ℕ → Text → Text
decimal zero n acc = acc
decimal (suc fuel) n acc =
    let rest = decimal fuel (n / 10) ((48 + n % 10) ∷ acc) in
    if ltb n 10 then (48 + n) ∷ acc else rest

-- `str(n)`: no number has more digits than the next number's value.
unfoldable pub str : ℕ → Text
unfolding decimal
str n = decimal (suc n) n []

-- `columns and columns != ["*"]`
unfoldable pub is_selection : Option (List Text) → Bool
is_selection none = false
is_selection (some []) = false
is_selection (some (c ∷ [])) = not (text_eq c (codes "*"))
is_selection (some (c ∷ d ∷ cols)) = true

abbrev pub listed : Option (List Text) → List Text
listed none = []
listed (some cols) = cols

unfoldable pub cols_sql : Option (List Text) → Text
unfolding is_selection join quoted
cols_sql columns =
    if is_selection columns then join (codes ", ") (map quoted (listed columns)) else codes "*"

-- `body.columns or ["*"]`
unfoldable pub clear_cols : Option (List Text) → List Text
clear_cols none = codes "*" ∷ []
clear_cols (some []) = codes "*" ∷ []
clear_cols (some (c ∷ cols)) = c ∷ cols

abbrev newline : Text
newline = 10 ∷ []

unfoldable pub where_part : Option Text → Text
where_part none = []
where_part (some []) = []
where_part (some (c ∷ cs)) = newline ++ (codes "WHERE " ++ (c ∷ cs))

-- The statement that reads `object`.
unfoldable pub select_sql : MaskedQueryRequest → Text → Text
unfolding cols_sql quoted where_part str
select_sql body object =
    codes "SELECT "
    ++ (cols_sql body.columns
        ++ (newline
            ++ (codes "FROM "
                ++ (quoted body.stardata_database
                    ++ (codes "."
                        ++ (quoted object
                            ++ (where_part body.where_clause
                                ++ (newline
                                    ++ (codes "LIMIT " ++ (str body.limit ++ codes ";"))))))))))

-- The plan that a resolution gives.
unfoldable pub plan_for : MaskedQueryRequest → QueryTarget → MaskedQueryResponse
unfolding select_sql clear_cols
plan_for body resolution = elim resolution.target [
  | base_table ↦ record {
    username = body.username;
    role = resolution.role;
    target = base_table;
    sql = select_sql body body.stardata_table;
    columns_masked = [];
    columns_clear = clear_cols body.columns;
  }
  | masked_view ↦ record {
    username = body.username;
    role = resolution.role;
    target = masked_view;
    sql = select_sql body resolution.view_name;
    columns_masked = resolution.columns_masked;
    columns_clear = [];
  }
]

unfoldable pub plan_masked_query :
    Text → MaskedQueryRequest → List Text → Tables → Result MaskedQueryResponse
unfolding plan_for
plan_masked_query suffix body [] db = err (http 404)
plan_masked_query suffix body (r ∷ rs) db = ok (
    plan_for body
      (resolve_query_target suffix body.stardata_database body.stardata_table (r ∷ rs) db))
