-- ===== src/Examples/Extracting.antt =====
-- The theorems on reading DDL events, on a short topic.
use stardatadblabs.Base.{
  ℕ, zero, suc, ◌≡◌, ◌≢◌, ◌↔◌, refl, arith, Text, codes, lower, text_eq, ◌||◌, ◌++◌, none, some, [],
  ◌∷◌, if◌then◌else◌,
}
use stardatadblabs.Base.Lines.{strip}
use stardatadblabs.Replication.Types.{Numbers, src_type_to_iceberg}
use stardatadblabs.Base.Numerals.{is_numeral, int_or}
use stardatadblabs.Replication.Types.Raises.{IsRefused, src_type_to_iceberg_raises_iff}
use stardatadblabs.Replication.Extract.{
  Patterns, Event, event, Poll, nothing, kafka_error, message, consume_ddl_topic,
}
use stardatadblabs.Replication.Extract.Consumed.{consume_ddl_topic_endless}

-- A superscript two is a digit that is no number.
abbrev numbers : Numbers
numbers = record {
  isdigit = λ t. is_numeral t || text_eq t (178 ∷ []);
  int = λ t. if is_numeral t then some (int_or 0 t) else none;
}

abbrev patterns : Patterns
patterns = record {
  numbers = numbers;
  adds = λ ddl. (codes "Email", codes "text") ∷ [];
  drops = λ ddl. [];
  modifies = λ ddl. [];
  renames = λ ddl. [];
}

abbrev added : Event
added = record {
  table = some (codes "Customers");
  collection = none;
  ddl = codes "ALTER TABLE customers ADD email text";
  schema_changes = record { added = []; removed = []; updated = [] };
  source_ts_ms = 0;
  ts_ms = 1700;
}

-- One message, and nothing after it.
abbrev topic : ℕ → Poll
topic zero = message (event added) 7
topic (suc i) = nothing

consume_ddl_topic_endless_example :
    consume_ddl_topic patterns (codes "oracle") (λ i. kafka_error) 10 1000 ≡ none
consume_ddl_topic_endless_example =
    consume_ddl_topic_endless patterns (codes "oracle") (λ i. kafka_error) 10 (λ j. refl)
      (omega arith) 1000

-- What the expression for an added column finds of `NUMERIC(10,2)`: it ends at the comma.
abbrev cut_type : Text
cut_type = codes "NUMERIC(10"

cut_type_raises : src_type_to_iceberg numbers (codes "postgres") cut_type ≡ none
unfolding src_type_to_iceberg
cut_type_raises = refl

superscript_raises :
    src_type_to_iceberg numbers (codes "postgres") (codes "decimal(" ++ (178 ∷ codes ")")) ≡ none
unfolding src_type_to_iceberg text_eq is_numeral
superscript_raises = refl

src_type_to_iceberg_raises_iff_example :
    (src_type_to_iceberg numbers (codes "postgres") cut_type ≡ none)
    ↔ ((cut_type ≢ []) × IsRefused numbers (strip (lower cut_type)))
src_type_to_iceberg_raises_iff_example =
    src_type_to_iceberg_raises_iff numbers (codes "postgres") cut_type
