-- ===== src/Replication/Statements.antt =====
-- The Spark SQL statements, how they are run in a pod, and what is read from `DESCRIBE TABLE`
-- (scripts/ddl_apply.py).
use stardatadblabs.Base.{
  ℕ, ◌==◌, Text, codes, text_eq, has_infix, lower, Bool, Option, none, some, List, [], ◌∷◌, ◌++◌,
  if◌then◌else◌,
}
use stardatadblabs.Base.Lines.{strip, split_lines, split_words, upper}
use stardatadblabs.Replication.Shell.{
  spark_sql, Completed, World, Result, ok, raised, value_error, Script, pure, ◌>>=◌, subprocess_run,
}

-- What `--op` admits.
pub data Op : Type 0 where
  add drop modify rename : Op

-- `not text`, for an optional text.
abbrev pub truthy : Option Text → Option Text
truthy none = none
truthy (some []) = none
truthy (some (c ∷ s)) = some (c ∷ s)

abbrev or_value_error : Option Text → (Text → Text) → Result Text
or_value_error none f = raised value_error
or_value_error (some t) f = ok (f t)

abbrev pub ticked : Text → Text
ticked name = codes "`" ++ name ++ codes "`"

unfoldable pub build_ddl : Op → Text → Text → Option Text → Option Text → Result Text
build_ddl add fqn col col_type new_col =
    or_value_error (truthy col_type) (λ t.
      codes "ALTER TABLE " ++ fqn ++ codes " ADD COLUMN " ++ ticked col ++ codes " " ++ upper t)
build_ddl drop fqn col col_type new_col =
    ok (codes "ALTER TABLE " ++ fqn ++ codes " DROP COLUMN " ++ ticked col)
build_ddl modify fqn col col_type new_col = or_value_error (truthy col_type) (λ t.
    codes "ALTER TABLE "
    ++ fqn
    ++ codes " ALTER COLUMN "
    ++ ticked col
    ++ codes " TYPE "
    ++ upper t)
build_ddl rename fqn col col_type new_col = or_value_error (truthy new_col) (λ n.
    codes "ALTER TABLE "
    ++ fqn
    ++ codes " RENAME COLUMN "
    ++ ticked col
    ++ codes " TO "
    ++ ticked n)

-- A quote within quotes is written as `'\''`.
abbrev quote_code : ℕ → Text → Text
quote_code c s = if c == 39 then 39 ∷ 92 ∷ 39 ∷ 39 ∷ s else c ∷ s

unfoldable pub escape_quotes : Text → Text
escape_quotes [] = []
escape_quotes (c ∷ s) = quote_code c (escape_quotes s)

-- `_spark_sql`
unfoldable pub run_spark_sql : World → Text → Text → Text → Script Completed
unfolding subprocess_run strip escape_quotes
run_spark_sql w pod conf sql = do
  r ← subprocess_run w (spark_sql pod conf (escape_quotes (strip sql)))
  pure (record { code = r.code; out = strip r.out; errors = strip r.errors })

abbrev pub describe : Text → Text
describe fqn = codes "DESCRIBE TABLE " ++ fqn

unfoldable pub iceberg_has_col : World → Text → Text → Text → Text → Script Bool
unfolding run_spark_sql
iceberg_has_col w pod conf fqn col = do
  r ← run_spark_sql w pod conf (describe fqn)
  pure (has_infix (lower r.out) (lower col))

-- The type in the first line whose first word is the column.
abbrev type_in : Text → List Text → Option Text
type_in col [] = none
type_in col (name ∷ []) = if text_eq (lower name) (lower col) then some (codes "unknown") else none
type_in col (name ∷ type ∷ rest) = if text_eq (lower name) (lower col) then some type else none

abbrev or_next : Option Text → Text → Text
or_next none t = t
or_next (some u) t = u

unfoldable pub type_of_column : Text → List Text → Text
unfolding split_words
type_of_column col [] = codes "NOT_FOUND"
type_of_column col (line ∷ lines) =
    or_next (type_in col (split_words line)) (type_of_column col lines)

unfoldable pub iceberg_col_type : World → Text → Text → Text → Text → Script Text
unfolding run_spark_sql
iceberg_col_type w pod conf fqn col = do
  r ← run_spark_sql w pod conf (describe fqn)
  pure (type_of_column col (split_lines r.out))
