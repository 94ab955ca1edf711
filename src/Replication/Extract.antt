-- ===== src/Replication/Extract.antt =====
-- Reading DDL events from Kafka and printing the commands for them (scripts/ddl_extract.py). The
-- consumer and the matches of the regular expressions are parameters.
pub mod Consumed
use stardatadblabs.Base.{
  ℕ, zero, suc, ◌+◌, ◌≡◌, ltb, Text, codes, text_eq, lower, Bool, true, false, not, ◌&&◌, ◌||◌,
  Option, none, some, List, [], ◌∷◌, ◌++◌, map, if◌then◌else◌,
}
use stardatadblabs.Base.Lines.{join_with}
use stardatadblabs.Replication.Deployments.{is_empty}
use stardatadblabs.Replication.Types.{Numbers, src_type_to_iceberg}

pub data Change : Type 0 where
  add : Text → Text → Change
  drop : Text → Change
  modify : Text → Text → Change
  rename : Text → Text → Change

-- The groups that the four regular expressions find in a text, in order, and Python's numbers.
pub record Patterns : Type 0 where
  pub numbers : Numbers
  pub adds : Text → List (Text × Text)
  pub drops : Text → List Text
  pub modifies : Text → List (Text × Text)
  pub renames : Text → List (Text × Text)

abbrev pub cons_if : Option Change → Option (List Change) → Option (List Change)
cons_if none rest = none
cons_if (some c) none = none
cons_if (some c) (some cs) = some (c ∷ cs)

abbrev pub with_type : (Text → Change) → Option Text → Option Change
with_type f none = none
with_type f (some t) = some (f t)

-- A column and its translated type, for each match; none where a type raises.
unfoldable pub typed_changes :
    Numbers → (Text → Text → Change) → Text → List (Text × Text) → Option (List Change)
unfolding src_type_to_iceberg lower
typed_changes N change source_key [] = some []
typed_changes N change source_key ((col, type) ∷ found) =
    cons_if (with_type (change (lower col)) (src_type_to_iceberg N source_key type))
      (typed_changes N change source_key found)

abbrev pub drop_changes : List Text → List Change
drop_changes cols = map (λ col. drop (lower col)) cols

abbrev pub rename_changes : List (Text × Text) → List Change
rename_changes pairs = map (λ p. rename (lower p.0) (lower p.1)) pairs

abbrev pub append_parts :
    Option (List Change) → List Change → Option (List Change) → List Change → Option (List Change)
append_parts none ds ms rs = none
append_parts (some added) ds none rs = none
append_parts (some added) ds (some ms) rs = some (added ++ (ds ++ (ms ++ rs)))

unfoldable pub parse_ddl_text : Patterns → Text → Text → Option (List Change)
unfolding typed_changes
parse_ddl_text re source_key ddl =
    append_parts (typed_changes re.numbers add source_key (re.adds ddl))
      (drop_changes (re.drops ddl)) (typed_changes re.numbers modify source_key (re.modifies ddl))
      (rename_changes (re.renames ddl))

-- A field of a schema diff: its name, empty where it has none, and its type or `string`.
pub record FieldDiff : Type 0 where
  pub field : Text
  pub type : Option Text

pub record SchemaChanges : Type 0 where
  pub added : List FieldDiff
  pub removed : List FieldDiff
  pub updated : List FieldDiff

abbrev or_string : Option Text → Text
or_string none = codes "string"
or_string (some t) = t

abbrev skip_nameless : Bool → Option Change → Option (List Change) → Option (List Change)
skip_nameless true c rest = elim c [ none ↦ none | some _ ↦ rest ]
skip_nameless false c rest = cons_if c rest

-- The type is translated before the name is looked at.
unfoldable pub field_changes :
    Numbers → (Text → Text → Change) → Text → List FieldDiff → Option (List Change)
unfolding src_type_to_iceberg lower
field_changes N change source_key [] = some []
field_changes N change source_key (f ∷ fs) =
    skip_nameless (is_empty (lower f.field))
      (with_type (change (lower f.field)) (src_type_to_iceberg N source_key (or_string f.type)))
      (field_changes N change source_key fs)

unfoldable pub removed_changes : List FieldDiff → List Change
unfolding lower
removed_changes [] = []
removed_changes (f ∷ fs) =
    let rest = removed_changes fs in
    if is_empty (lower f.field) then rest else drop (lower f.field) ∷ rest

unfoldable pub parse_mongodb_schema_change : Numbers → Text → SchemaChanges → Option (List Change)
unfolding field_changes removed_changes
parse_mongodb_schema_change N source_key diff =
    append_parts (field_changes N add source_key diff.added) (removed_changes diff.removed)
      (field_changes N modify source_key diff.updated) []

abbrev script_call : Text → Text → Text
script_call source_key table =
    codes "python3 scripts/ddl_apply.py --source " ++ source_key ++ codes " --table " ++ table

unfoldable pub build_command : Text → Text → Change → Text
build_command source_key table (add col type) =
    script_call source_key table ++ codes " --op add --col " ++ col ++ codes " --type " ++ type
build_command source_key table (drop col) =
    script_call source_key table ++ codes " --op drop --col " ++ col
build_command source_key table (modify col type) =
    script_call source_key table ++ codes " --op modify --col " ++ col ++ codes " --type " ++ type
build_command source_key table (rename col new_col) =
    script_call source_key table
    ++ codes " --op rename --col "
    ++ col
    ++ codes " --new-col "
    ++ new_col

-- The commands, without those that are empty.
unfoldable pub commands_of : Text → Text → List Change → List Text
unfolding build_command
commands_of source_key table [] = []
commands_of source_key table (c ∷ cs) =
    let rest = commands_of source_key table cs in
    if is_empty (build_command source_key table c)
    then rest
    else build_command source_key table c ∷ rest

-- An event: the fields of it that are read, with the milliseconds of its time and 0 for none.
pub record Event : Type 0 where
  pub table : Option Text
  pub collection : Option Text
  pub ddl : Text
  pub schema_changes : SchemaChanges
  pub source_ts_ms : ℕ
  pub ts_ms : ℕ

-- A message without a value, one that cannot be decoded, or an event.
pub data Payload : Type 0 where
  tombstone unreadable : Payload
  event : Event → Payload

pub record Extracted : Type 0 where
  pub source_key : Text
  pub table_name : Text
  pub ddl_text : Text
  pub changes : List Change
  pub commands : List Text
  pub event_ms : ℕ
  pub offset : ℕ

abbrev truthy_or : Option Text → Text → Text
truthy_or none other = other
truthy_or (some t) other = if is_empty t then other else t

abbrev pub table_of : Event → Text
table_of e = lower (truthy_or e.table (truthy_or e.collection []))

abbrev no_changes : List Change → Bool
no_changes [] = true
no_changes (c ∷ cs) = false

abbrev changes_of : Patterns → Text → Event → Option (List Change)
changes_of re source_key e =
    if text_eq source_key (codes "mongodb")
    then parse_mongodb_schema_change re.numbers source_key e.schema_changes
    else parse_ddl_text re source_key e.ddl

abbrev first_time : ℕ → ℕ → ℕ
first_time zero n = n
first_time (suc m) n = suc m

abbrev extracted : Text → Event → ℕ → Option (List Change) → Option Extracted
extracted source_key e offset none = none
extracted source_key e offset (some cs) =
    if no_changes cs && is_empty e.ddl
    then none
    else some (record {
      source_key = source_key;
      table_name = table_of e;
      ddl_text = e.ddl;
      changes = cs;
      commands = commands_of source_key (table_of e) cs;
      event_ms = first_time e.source_ts_ms e.ts_ms;
      offset = offset;
    })

-- What a message adds to the results: an error of parsing it is logged and the message skipped.
unfoldable pub handle : Patterns → Text → Payload → ℕ → Option Extracted
unfolding lower text_eq parse_ddl_text parse_mongodb_schema_change commands_of
handle re source_key tombstone offset = none
handle re source_key unreadable offset = none
handle re source_key (event e) offset =
    if is_empty (table_of e)
    then none
    else extracted source_key e offset (changes_of re source_key e)

pub data Poll : Type 0 where
  nothing end_of_partition kafka_error : Poll
  message : Payload → ℕ → Poll

abbrev pub max_empty_polls : ℕ
max_empty_polls = 5

abbrev pub put : List Extracted → Option Extracted → List Extracted
put results none = results
put results (some r) = results ++ (r ∷ [])

abbrev pub is_open : (max_messages polled empty : ℕ) → Bool
is_open max_messages polled empty = ltb polled max_messages && ltb empty max_empty_polls

-- The loop of `_consume_ddl_topic` without `--raw`: what the consumer answers to its polls from the
-- i-th on. None stands for a loop that goes on after the rounds that are given.
module _ (re : Patterns) (source_key : Text) (polls : ℕ → Poll) (max_messages : ℕ) where
  abbrev pub after_poll :
      (ℕ → ℕ → List Extracted → Option (List Extracted))
      → (polled empty : ℕ) → List Extracted
      → Poll
      → Option (List Extracted)
  after_poll rest polled empty results nothing = rest polled (suc empty) results
  after_poll rest polled empty results end_of_partition = rest polled (suc empty) results
  after_poll rest polled empty results kafka_error = rest polled empty results
  after_poll rest polled empty results (message p offset) =
      rest (suc polled) 0 (put results (handle re source_key p offset))

  unfoldable pub consume : (rounds i polled empty : ℕ) → List Extracted → Option (List Extracted)
  unfolding handle
  consume zero i polled empty results = none
  consume (suc rounds) i polled empty results = elim (is_open max_messages polled empty) [
    | true ↦ after_poll (consume rounds (suc i)) polled empty results (polls i)
    | false ↦ some results
  ]

  -- From the first poll on.
  unfoldable pub consume_ddl_topic : ℕ → Option (List Extracted)
  unfolding consume
  consume_ddl_topic rounds = consume rounds 0 0 0 []
