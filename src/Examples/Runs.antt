-- ===== src/Examples/Runs.antt =====
-- The theorems on scans and on runs over a database, on the small catalog.
use stardatadblabs.Base.{◌≡◌, ◌⊎◌, Text, codes, true, false, none, List, [], ◌∷◌, In}
use stardatadblabs.Catalog.Rows.{ColumnTag, GovernanceDatabase}
use stardatadblabs.Catalog.Session.{ok}
use stardatadblabs.Classifier.Terms.{ColumnMatch}
use stardatadblabs.Classifier.Classify.{classify_columns}
use stardatadblabs.Masking.Apply.{World}
use stardatadblabs.Routers.Columns.Scan.{ScanRequest, ScanTableResult, scan_columns}
use stardatadblabs.Routers.Columns.Scan.Manual.{HasTagIds, scan_columns-keeps_manual}
use stardatadblabs.Routers.Columns.Scan.Tagged.{IsTagged, scan_columns-IsTagged}
use stardatadblabs.Catalog.Session.{err, unavailable, Service}
use stardatadblabs.Base.{Option, none, some}
use stardatadblabs.Routers.Columns.Request.{post_scan}
use stardatadblabs.Routers.Columns.Request.Justified.{IsFromGlossary, post_scan-IsFromGlossary}
use stardatadblabs.Routers.Views.{ApplyMaskingRequest}
use stardatadblabs.Examples.{
  shop, orders, email, suffix, email_term, tables, service, server, world, tables-HasTagIds,
}

abbrev scan_body : ScanRequest
scan_body = record { stardata_database = shop; dry_run = false; overwrite_existing = true }

abbrev matches : List (Text × List ColumnMatch)
matches =
    (
      orders,
      classify_columns (email ∷ codes "mail_to" ∷ codes "city" ∷ []) (email_term ∷ []) 70 orders,
    )
    ∷ []

scan_columns-keeps_manual_example :
    let (r, s') = scan_columns scan_body matches service in
    (results : List ScanTableResult) × (r ≡ ok results)
    × HasTagIds s'.tables
    × ((t : ColumnTag) → In t tables.tags → t.auto_detected ≡ false → In t s'.tables.tags)
scan_columns-keeps_manual_example =
    scan_columns-keeps_manual scan_body matches service tables-HasTagIds

scan_columns-IsTagged_example :
    let (r, s') = scan_columns scan_body matches service in
    (results : List ScanTableResult) × (r ≡ ok results)
    × ((t : ColumnTag) → In t s'.tables.tags → In t tables.tags ⊎ IsTagged scan_body matches t)
scan_columns-IsTagged_example = scan_columns-IsTagged scan_body matches service

abbrev glossary : Service
glossary = record service {
  tables = record tables {
    terms =
        record {
          id = 2;
          name = codes "email_address";
          display_name = codes "Email address";
          description = none;
          classification_id = some 1;
          column_name_patterns = codes "Email" ∷ [];
          description_patterns = [];
          negative_patterns = [];
          table_name_negative_patterns = [];
          table_name_positive_patterns = [];
          steward = none;
        }
        ∷ [];
  };
}

abbrev columns_of : Text → Text → Option (List Text)
columns_of database table = some (email ∷ codes "work_email" ∷ codes "city" ∷ [])

post_scan-IsFromGlossary_example :
    let (r, s') =
      post_scan columns_of suffix
        (λ database. some (orders ∷ codes "people" ∷ []))
        70
        none
        scan_body
        glossary in
    ((r ≡ err unavailable) × (s' ≡ glossary))
    ⊎ ((results : List ScanTableResult) × (r ≡ ok results)
        × ((t : ColumnTag)
            → In t s'.tables.tags
            → In t tables.tags
              ⊎ IsFromGlossary columns_of suffix
                  (λ database. some (orders ∷ codes "people" ∷ []))
                  70
                  glossary.tables
                  t))
post_scan-IsFromGlossary_example =
    post_scan-IsFromGlossary columns_of suffix (λ database. some (orders ∷ codes "people" ∷ [])) 70
      none scan_body glossary

abbrev apply_body : ApplyMaskingRequest
apply_body = record {
  stardata_database = shop;
  stardata_table = none;
  dry_run = true;
  force = false;
}

abbrev shop_off : GovernanceDatabase
shop_off = record {
  id = 7;
  stardata_database = shop;
  governance_enabled = false;
  disabled_reason = none;
  disabled_by = none;
  disabled_at = none;
  enabled_at = none;
}

abbrev world_off : World server
world_off = record world { tables = record tables { switches = shop_off ∷ [] } }
