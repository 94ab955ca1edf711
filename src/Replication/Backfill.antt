-- ===== src/Replication/Backfill.antt =====
-- The replay of Kafka messages for a column that was added (scripts/ddl_apply.py). The PySpark scripts
-- that run in the pod are commands: what they print is an answer of the world.
pub mod Replays
use stardatadblabs.Base.{
  ℕ, ◌==◌, Text, codes, text_eq, starts_with, Bool, true, false, not, ◌||◌, Option, none, some,
  List, [], ◌∷◌, ◌++◌, drop, length, if◌then◌else◌,
}
use stardatadblabs.Base.Dict.{lookup}
use stardatadblabs.Base.Lines.{split_lines}
use stardatadblabs.Replication.Shell.{
  Source, read_checkpoint, read_kafka_secret, find_stale, replay, Completed, World, runtime_error,
  Script, pure, raise, ◌>>=◌, raise_if, or_raise, try_except, subprocess_run,
}
use stardatadblabs.Replication.Deployments.{source_name, is_empty}
use stardatadblabs.Replication.Statements.{ticked}

abbrev pub Offsets : Type 0
Offsets = List (ℕ × ℕ)

-- `_SOURCE_TOPIC_PREFIX`, and the topic of a table.
abbrev pub topic_of : Source → Text → Text
topic_of s table = source_name s ++ codes ".cache_testing." ++ table

-- `_read_checkpoint_offsets`, whose every error is a RuntimeError. The files of the checkpoint and
-- their JSON are read by libraries.
unfoldable pub read_checkpoint_offsets : World → Source → Script (List (Text × Offsets))
read_checkpoint_offsets w s past =
    or_raise (w.checkpoint past s) runtime_error (read_checkpoint s ∷ past)

-- The first line that starts with a mark.
unfoldable pub line_with : Text → List Text → Option Text
unfolding starts_with
line_with mark [] = none
line_with mark (line ∷ lines) =
    let rest = line_with mark lines in if starts_with line mark then some line else rest

abbrev pub stale_mark : Text
stale_mark = codes "STALE_START="

abbrev pub some_offsets : Option Offsets → Script (Option Offsets)
some_offsets none = raise runtime_error
some_offsets (some o) = pure (some o)

-- What a line of the scan says: no offsets, or their JSON behind the mark.
abbrev pub parse_stale : World → Option Text → Script (Option Offsets)
parse_stale w none = raise runtime_error
parse_stale w (some line) =
    let val = drop (length stale_mark) line in
    if text_eq val (codes "NONE") then pure none else some_offsets (w.load_offsets val)

unfoldable pub find_stale_window_start :
    World → Text → Text → Text → Offsets → Script (Option Offsets)
unfolding subprocess_run line_with
find_stale_window_start w pod topic col end_offsets = do
  r ← subprocess_run w (find_stale pod topic col end_offsets)
  _ ← raise_if (not (r.code == 0)) runtime_error
  parse_stale w (line_with stale_mark (split_lines r.out))

-- `kafka_secret = _bao_read_secret(…)` and the scan, in one `try`.
abbrev pub stale_start : World → Text → Text → Text → Offsets → Script (Option Offsets)
stale_start w pod topic col end_offsets = do
  _ ← subprocess_run w read_kafka_secret
  find_stale_window_start w pod topic col end_offsets

abbrev pub is_success : Text → Bool
is_success line =
    text_eq line (codes "BACKFILL_RESULT=NO_COL_IN_BATCH")
    || (text_eq line (codes "BACKFILL_RESULT=NO_ROWS")
        || starts_with line (codes "BACKFILL_RESULT=OK"))

abbrev pub reported : Option Text → Bool
reported none = false
reported (some line) = is_success line

-- What the replay script reports; its exit code is looked at first.
abbrev pub replay_result : Completed → Bool
replay_result r =
    if r.code == 0
    then reported (line_with (codes "BACKFILL_RESULT=") (split_lines r.out))
    else false

abbrev pub replay_window :
    World → Text → Text → Text → Text → Text → Offsets → Offsets → Script Bool
replay_window w pod fqn topic col pk_col start end_offsets = do
  r ← subprocess_run w (replay pod fqn topic col pk_col start end_offsets)
  pure (replay_result r)

-- From the scan's answer on: an error, no window, or a window.
abbrev pub replay_stale :
    World → Text → Text → Text → Text → Text → Offsets → Option (Option Offsets) → Script Bool
replay_stale w pod fqn topic col pk_col end_offsets none = pure false
replay_stale w pod fqn topic col pk_col end_offsets (some none) = pure true
replay_stale w pod fqn topic col pk_col end_offsets (some (some start)) =
    replay_window w pod fqn topic col pk_col start end_offsets

-- `end_offsets`, where it is found and not empty.
abbrev pub replay_topic : World → Text → Text → Text → Text → Text → Option Offsets → Script Bool
replay_topic w pod fqn topic col pk_col none = pure true
replay_topic w pod fqn topic col pk_col (some []) = pure true
replay_topic w pod fqn topic col pk_col (some (o ∷ os)) = do
  start ← try_except (stale_start w pod topic col (o ∷ os))
  replay_stale w pod fqn topic col pk_col (o ∷ os) start

abbrev pub replay_checkpoint :
    World → Text → Text → Text → Text → Text → Option (List (Text × Offsets)) → Script Bool
replay_checkpoint w pod fqn topic col pk_col none = pure false
replay_checkpoint w pod fqn topic col pk_col (some all_offsets) =
    replay_topic w pod fqn topic col pk_col (lookup topic all_offsets)

unfoldable pub run_backfill : World → Source → Text → Text → Text → Text → Text → Script Bool
unfolding read_checkpoint_offsets find_stale_window_start subprocess_run try_except lookup
run_backfill w s table col pk_col pod fqn = do
  all_offsets ← try_except (read_checkpoint_offsets w s)
  replay_checkpoint w pod fqn (topic_of s table) col pk_col all_offsets
