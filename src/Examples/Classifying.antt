-- ===== src/Examples/Classifying.antt =====
-- The theorems on the classifier, on one term.
use stardatadblabs.Base.{◌≡◌, Text, codes, List, [], ◌∷◌, All, map}
use stardatadblabs.Classifier.Terms.{TermSpec}
use stardatadblabs.Classifier.Classify.{classify_columns, normalise}
use stardatadblabs.Classifier.Classify.Provenance.{IsJustified, classify_columns-IsJustified}
use stardatadblabs.Classifier.Classify.Ranking.{with_sensitivity, classify_columns-with_sensitivity}
use stardatadblabs.Base.{Option, some}
use stardatadblabs.Examples.{orders, email_term}

abbrev customer_email : Text
customer_email = codes "customer_email"

abbrev cols : List Text
cols = customer_email ∷ codes "email_template" ∷ codes "city" ∷ []

abbrev specs : List TermSpec
specs = email_term ∷ []

classify_columns-IsJustified_example :
    All
      (λ m. IsJustified specs 70 (normalise orders) (normalise m.column_name) m)
      (classify_columns cols specs 70 orders)
classify_columns-IsJustified_example = classify_columns-IsJustified cols specs 70 orders

classify_columns-with_sensitivity_example :
    classify_columns cols (map (with_sensitivity (λ ts. codes "low")) specs) 70 orders
    ≡ classify_columns cols specs 70 orders
classify_columns-with_sensitivity_example =
    classify_columns-with_sensitivity (λ ts. codes "low") cols specs 70 orders

abbrev columns_of : Text → Text → Option (List Text)
columns_of database table = some cols

abbrev names : List Text
names = orders ∷ codes "orders_masked" ∷ []
