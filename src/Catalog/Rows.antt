-- ===== src/Catalog/Rows.antt =====
-- The tables (star-knowledge-catalog/catalog/models.py), without their time stamps of creation and
-- update. A row's id comes from its table's serial column; here one counter serves all tables, so
-- that ids differ within each.
use stardatadblabs.Base.{ℕ, Text, Bool, true, ◌&&◌, Option, none, some, List, any, ◌==◌}
use stardatadblabs.Base.Int.{ℤ}

pub record DataClassification : Type 0 where
  pub id : ℕ
  pub name : Text
  pub display_name : Text
  pub description : Option Text
  pub sensitivity : Text
  pub color_hex : Option Text

pub record GlossaryTerm : Type 0 where
  pub id : ℕ
  pub name : Text
  pub display_name : Text
  pub description : Option Text
  pub classification_id : Option ℕ
  pub column_name_patterns : List Text
  pub description_patterns : List Text
  pub negative_patterns : List Text
  pub table_name_negative_patterns : List Text
  pub table_name_positive_patterns : List Text
  pub steward : Option Text

pub record MaskingAlgorithm : Type 0 where
  pub id : ℕ
  pub name : Text
  pub display_name : Text
  pub description : Option Text
  pub algorithm_type : Text
  pub stardata_expression : Text
  pub applicable_types : List Text

pub record MaskingPolicy : Type 0 where
  pub id : ℕ
  pub name : Text
  pub description : Option Text
  pub classification_id : Option ℕ
  pub glossary_term_id : Option ℕ
  pub algorithm_id : ℕ
  pub priority : ℤ
  pub enabled : Bool

-- `detection_score` is in hundredths, as its type NUMERIC(3, 2) is.
pub record ColumnTag : Type 0 where
  pub id : ℕ
  pub stardata_database : Text
  pub stardata_table : Text
  pub column_name : Text
  pub glossary_term_id : Option ℕ
  pub classification_id : Option ℕ
  pub auto_detected : Bool
  pub detection_score : Option ℕ
  pub override_reason : Option Text

pub record RoleMaskingException : Type 0 where
  pub id : ℕ
  pub role_name : Text
  pub classification_id : ℕ
  pub granted_by : Text

-- The two dates are in whatever unit the clock counts.
pub record GovernanceDatabase : Type 0 where
  pub id : ℕ
  pub stardata_database : Text
  pub governance_enabled : Bool
  pub disabled_reason : Option Text
  pub disabled_by : Option Text
  pub disabled_at : Option ℕ
  pub enabled_at : Option ℕ

pub record StardataViewManifest : Type 0 where
  pub id : ℕ
  pub stardata_database : Text
  pub base_table : Text
  pub view_name : Text
  pub view_ddl : Text
  pub columns_masked : List Text
  pub view_checksum : Text

pub record Tables : Type 0 where
  pub classifications : List DataClassification
  pub terms : List GlossaryTerm
  pub algorithms : List MaskingAlgorithm
  pub policies : List MaskingPolicy
  pub tags : List ColumnTag
  pub exceptions : List RoleMaskingException
  pub switches : List GovernanceDatabase
  pub manifests : List StardataViewManifest
  pub next_id : ℕ

abbrev has_classification : Option ℕ → List DataClassification → Bool
has_classification none rows = true
has_classification (some k) rows = any (λ c. c.id == k) rows

abbrev has_term : Option ℕ → List GlossaryTerm → Bool
has_term none rows = true
has_term (some k) rows = any (λ t. t.id == k) rows

-- The foreign keys of a tag or a policy: its classification and its term exist.
unfoldable pub has_references : Option ℕ → Option ℕ → Tables → Bool
has_references classification_id glossary_term_id db =
    has_classification classification_id db.classifications && has_term glossary_term_id db.terms
