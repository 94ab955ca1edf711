-- ===== src/Replication/Types.antt =====
-- The types of a source's columns and the Iceberg types for them (scripts/ddl_extract.py). Python's
-- `isdigit` and `int` are parameters.
pub mod Raises
use stardatadblabs.Base.{
  ℕ, ◌+◌, ◌==◌, Text, codes, text_eq, contains, lower, Bool, true, false, not, ◌&&◌, Option, none,
  some, List, [], ◌∷◌, ◌++◌, drop, take, any, if◌then◌else◌,
}
use stardatadblabs.Base.Dict.{Dict, lookup}
use stardatadblabs.Base.Lines.{strip, split_at}
use stardatadblabs.Routers.Query.{str}

abbrev pub pg_type_map : Dict Text
pg_type_map =
    (codes "character varying", codes "STRING")
    ∷ (codes "varchar", codes "STRING")
    ∷ (codes "text", codes "STRING")
    ∷ (codes "char", codes "STRING")
    ∷ (codes "uuid", codes "STRING")
    ∷ (codes "json", codes "STRING")
    ∷ (codes "jsonb", codes "STRING")
    ∷ (codes "xml", codes "STRING")
    ∷ (codes "citext", codes "STRING")
    ∷ (codes "integer", codes "INT")
    ∷ (codes "int", codes "INT")
    ∷ (codes "int4", codes "INT")
    ∷ (codes "smallint", codes "SMALLINT")
    ∷ (codes "int2", codes "SMALLINT")
    ∷ (codes "bigint", codes "BIGINT")
    ∷ (codes "int8", codes "BIGINT")
    ∷ (codes "serial", codes "INT")
    ∷ (codes "bigserial", codes "BIGINT")
    ∷ (codes "real", codes "FLOAT")
    ∷ (codes "float4", codes "FLOAT")
    ∷ (codes "double precision", codes "DOUBLE")
    ∷ (codes "float8", codes "DOUBLE")
    ∷ (codes "numeric", codes "DECIMAL(38,10)")
    ∷ (codes "decimal", codes "DECIMAL(38,10)")
    ∷ (codes "boolean", codes "BOOLEAN")
    ∷ (codes "bool", codes "BOOLEAN")
    ∷ (codes "date", codes "DATE")
    ∷ (codes "timestamp", codes "TIMESTAMP")
    ∷ (codes "timestamp without time zone", codes "TIMESTAMP")
    ∷ (codes "timestamp with time zone", codes "TIMESTAMP")
    ∷ (codes "time", codes "STRING")
    ∷ (codes "bytea", codes "BINARY")
    ∷ []

abbrev pub ora_type_map : Dict Text
ora_type_map =
    (codes "varchar2", codes "STRING")
    ∷ (codes "varchar", codes "STRING")
    ∷ (codes "char", codes "STRING")
    ∷ (codes "nchar", codes "STRING")
    ∷ (codes "nvarchar2", codes "STRING")
    ∷ (codes "clob", codes "STRING")
    ∷ (codes "nclob", codes "STRING")
    ∷ (codes "long", codes "STRING")
    ∷ (codes "number", codes "DECIMAL(38,10)")
    ∷ (codes "integer", codes "BIGINT")
    ∷ (codes "float", codes "DOUBLE")
    ∷ (codes "binary_float", codes "FLOAT")
    ∷ (codes "binary_double", codes "DOUBLE")
    ∷ (codes "smallint", codes "SMALLINT")
    ∷ (codes "date", codes "TIMESTAMP")
    ∷ (codes "timestamp", codes "TIMESTAMP")
    ∷ (codes "boolean", codes "BOOLEAN")
    ∷ (codes "raw", codes "BINARY")
    ∷ (codes "blob", codes "BINARY")
    ∷ []

abbrev pub mgo_type_map : Dict Text
mgo_type_map =
    (codes "string", codes "STRING")
    ∷ (codes "objectid", codes "STRING")
    ∷ (codes "bindata", codes "BINARY")
    ∷ (codes "int32", codes "INT")
    ∷ (codes "int64", codes "BIGINT")
    ∷ (codes "int", codes "INT")
    ∷ (codes "double", codes "DOUBLE")
    ∷ (codes "decimal128", codes "DECIMAL(38,10)")
    ∷ (codes "bool", codes "BOOLEAN")
    ∷ (codes "date", codes "TIMESTAMP")
    ∷ (codes "timestamp", codes "TIMESTAMP")
    ∷ (codes "array", codes "STRING")
    ∷ (codes "object", codes "STRING")
    ∷ []

-- `s.index(c)`, and none where it raises.
unfoldable pub index_of : ℕ → Text → Option ℕ
index_of c [] = none
index_of c (d ∷ s) = let rest = index_of c s in if d == c then some 0 else next rest
  where
    next : Option ℕ → Option ℕ
    next none = none
    next (some i) = some (i + 1)

abbrev pub first_part : List Text → Text
first_part [] = []
first_part (p ∷ ps) = p

abbrev pub base_of : Text → Text
base_of low = strip (first_part (split_at b'(' low))

abbrev pub is_decimal : Text → Bool
is_decimal base = contains (codes "decimal" ∷ codes "numeric" ∷ codes "number" ∷ []) base

-- `str.isdigit`, and `int` of a text, none where it raises a ValueError. It raises for some digits,
-- such as `²`, and for very long numerals.
pub record Numbers : Type 0 where
  pub isdigit : Text → Bool
  pub int : Text → Option ℕ

-- `int(t) if t.isdigit() else default`
abbrev pub number_or : Numbers → ℕ → Text → Option ℕ
number_or N default t = if N.isdigit t then N.int t else some default

abbrev pub scale_of : Numbers → List Text → Option ℕ
scale_of N [] = some 10
scale_of N (p ∷ []) = some 10
scale_of N (p ∷ s ∷ rest) = number_or N 10 (strip s)

abbrev pub decimal_text : Option ℕ → Option ℕ → Option Text
decimal_text (some p) (some s) = some (codes "DECIMAL(" ++ str p ++ codes "," ++ str s ++ codes ")")
decimal_text _ _ = none

-- `DECIMAL(p,s)` from the parts within the parentheses; none where `int` raises.
unfoldable pub decimal_type : Numbers → List Text → Option Text
unfolding strip str
decimal_type N parts = decimal_text (number_or N 38 (strip (first_part parts))) (scale_of N parts)

-- The parts of the text within the parentheses.
abbrev pub parts_of : Text → ℕ → ℕ → List Text
parts_of low open_at close_at = split_at b',' (drop (open_at + 1) (take close_at low))

-- From the places of the parentheses; without the second one `index` raises a ValueError.
abbrev pub decimal_of : Numbers → Text → Option ℕ → Option ℕ → Option Text
decimal_of N low (some open_at) (some close_at) = decimal_type N (parts_of low open_at close_at)
decimal_of N low _ _ = none

abbrev or_string : Option Text → Text
or_string none = codes "STRING"
or_string (some t) = t

abbrev or_lookup : Option Text → Option Text → Option Text
or_lookup none other = other
or_lookup (some t) other = some t

-- The table of a source; the whole text is looked up where its base is not found.
unfoldable pub mapped_type : Text → Text → Text → Text
unfolding text_eq lookup
mapped_type source_key base low =
    if text_eq source_key (codes "postgres")
    then or_string (or_lookup (lookup base pg_type_map) (lookup low pg_type_map))
    else if text_eq source_key (codes "oracle")
    then or_string (or_lookup (lookup base ora_type_map) (lookup low ora_type_map))
    else if text_eq source_key (codes "mongodb")
    then or_string (lookup base mgo_type_map)
    else codes "STRING"

-- `"(" in lower`
abbrev pub has_open : Text → Bool
has_open low = any (λ c. c == b'(') low

abbrev pub typed : Numbers → Text → Text → Option Text
typed N source_key low =
    if is_decimal (base_of low) && has_open low
    then decimal_of N low (index_of b'(' low) (index_of b')' low)
    else some (mapped_type source_key (base_of low) low)

-- None where a ValueError is raised.
unfoldable pub src_type_to_iceberg : Numbers → Text → Text → Option Text
unfolding lower strip split_at index_of decimal_type mapped_type
src_type_to_iceberg N source_key [] = some (codes "STRING")
src_type_to_iceberg N source_key (c ∷ type_str) = typed N source_key (strip (lower (c ∷ type_str)))
