-- ===== src/Examples.antt =====
-- A small catalog with a server, on which the theorems are tried out.
mod Classifying
mod Caching
mod Masking
mod Requests
mod Runs
mod Replicating
mod Watching
mod Extracting
mod Proxying
mod Tokens
use stardatadblabs.Base.{
  ℕ, ◌≡◌, refl, sym, ap, ◌∙◌, inl, inr, arith, Text, codes, text_eq, Bool, true, false, Option,
  none, some, List, [], ◌∷◌, ◌++◌, if◌then◌else◌,
}
use stardatadblabs.Base.Int.{pos}
use stardatadblabs.Catalog.Rows.{
  DataClassification, GlossaryTerm, MaskingAlgorithm, MaskingPolicy, ColumnTag,
  RoleMaskingException, Tables,
}
use stardatadblabs.Catalog.Cache.{TtlCache}
use stardatadblabs.Catalog.Session.{Service}
use stardatadblabs.Classifier.Terms.{TermSpec}
use stardatadblabs.Masking.Stardata.{
  found_users, Statement, create_view, grant_select, revoke_select, Backend, IsLawful, same_grant,
}
use stardatadblabs.Routers.Columns.Scan.Manual.{HasTagIds}
use stardatadblabs.Masking.Lockdown.Grantees.{grantee_text}
use stardatadblabs.Masking.Apply.{World}

abbrev pub shop : Text
shop = codes "shop"

abbrev pub orders : Text
orders = codes "orders"

abbrev pub email : Text
email = codes "email"

abbrev pub suffix : Text
suffix = codes "_masked"

abbrev pub ann : Text
ann = codes "ann"

abbrev pub bob : Text
bob = codes "bob"

abbrev pub pii : DataClassification
pii = record {
  id = 1;
  name = codes "PII";
  display_name = codes "PII";
  description = none;
  sensitivity = codes "high";
  color_hex = none;
}

abbrev pub sha2 : MaskingAlgorithm
sha2 = record {
  id = 3;
  name = codes "SHA2";
  display_name = codes "SHA2";
  description = none;
  algorithm_type = codes "hash";
  stardata_expression = codes "SHA2({col})";
  applicable_types = [];
}

abbrev pub hash_pii : MaskingPolicy
hash_pii = record {
  id = 4;
  name = codes "hash_pii";
  description = none;
  classification_id = some 1;
  glossary_term_id = none;
  algorithm_id = 3;
  priority = pos 100;
  enabled = true;
}

-- The automatic tag of `shop.orders.email`.
abbrev pub email_tag : ColumnTag
email_tag = record {
  id = 5;
  stardata_database = shop;
  stardata_table = orders;
  column_name = email;
  glossary_term_id = none;
  classification_id = some 1;
  auto_detected = true;
  detection_score = some 70;
  override_reason = none;
}

abbrev pub admin_exception : RoleMaskingException
admin_exception = record {
  id = 6;
  role_name = codes "data_admin";
  classification_id = 1;
  granted_by = codes "admin";
}

abbrev pub tables : Tables
tables = record {
  classifications = pii ∷ [];
  terms = [];
  algorithms = sha2 ∷ [];
  policies = hash_pii ∷ [];
  tags = email_tag ∷ [];
  exceptions = admin_exception ∷ [];
  switches = [];
  manifests = [];
  next_id = 7;
}

abbrev pub empty_cache : TtlCache
empty_cache = record { maxsize = 2; ttl = 60; store = [] }

abbrev pub service : Service
service = record { tables = tables; cache = empty_cache }

abbrev pub email_term : TermSpec
email_term = record {
  id = 2;
  name = codes "email_address";
  classification_id = some 1;
  classification_name = some (codes "PII");
  classification_sensitivity = codes "high";
  patterns = codes "email" ∷ codes "mail" ∷ [];
  negative_patterns = codes "template" ∷ [];
  table_name_negative_patterns = codes "log" ∷ [];
  table_name_positive_patterns = codes "customer" ∷ [];
}

-- A server keeps who has been granted what, and executes every statement.
abbrev pub Access : Type 0
Access = Text → Text → Text → Bool

abbrev pub run : Access → Statement → Option Access
run s (create_view ddl) = some s
run s (grant_select d o u) =
    some (λ d' o' u'. if same_grant d o u d' o' u' then true else s d' o' u')
run s (revoke_select d o u) =
    some (λ d' o' u'. if same_grant d o u d' o' u' then false else s d' o' u')

abbrev pub roles_of : Text → List Text
roles_of u =
    if text_eq u ann
    then codes "analyst" ∷ []
    else if text_eq u bob
    then codes "data_admin" ∷ []
    else []

abbrev pub server : Backend
server = record {
  State = Access;
  execute = run;
  column_order = λ s d t. some (email ∷ codes "city" ∷ []);
  grantees = λ s. found_users (grantee_text ann ∷ grantee_text bob ∷ []);
  role_names = roles_of;
  md5 = λ t. t;
}

abbrev pub can_select : Access → Text → Text → Text → Bool
can_select s = s

abbrev access_of : Option Access → Text → Text → Text → Bool
access_of none d o u = false
access_of (some s) d o u = s d o u

pub server-IsLawful : IsLawful server can_select
server-IsLawful = record {
  grant_gives = λ s s' d o u d' o' u' e. sym (ap (λ x. access_of x d' o' u') e);
  revoke_takes = λ s s' d o u d' o' u' e. sym (ap (λ x. access_of x d' o' u') e);
  view_keeps = λ s s' ddl d o u e. sym (ap (λ x. access_of x d o u) e);
}

-- At first everyone may read everything.
abbrev pub world : World server
world = record { tables = tables; cache = empty_cache; server = λ d o u. true }

pub tables-HasTagIds : HasTagIds tables
tables-HasTagIds = (
  λ a b m n e. elim m [
    | inr i ↦ absurd i
    | inl p ↦ elim n [ inr j ↦ absurd j | inl q ↦ p ∙ sym q ]
  ],
  λ a m. elim m [ inr i ↦ absurd i | inl p ↦ omega (arith, ap (λ x. x.id) p) ],
)
