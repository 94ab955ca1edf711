-- ===== src/Replication/Backfill/Replays.antt =====
-- What step 6 changes: nothing, or one replay of a window (scripts/ddl_apply.py).
use stardatadblabs.Base.{
  ◌≡◌, refl, ap, ◌∙◌, ◌⊎◌, inl, inr, ◌==◌, Text, codes, text_eq, Bool, true, false, not, Option,
  none, some, List, [], ◌∷◌, drop, length,
}
use mathlib.Core.Path.{subst}
use stardatadblabs.Base.Dict.{lookup}
use stardatadblabs.Replication.Shell.{
  Source, Command, read_checkpoint, read_kafka_secret, find_stale, replay, World, Result, ok,
  raised, runtime_error, Script, pure, raise_if, go_on, ◌>>=◌, or_raise, subprocess_run,
}
use stardatadblabs.Replication.Backfill.{
  Offsets, topic_of, read_checkpoint_offsets, stale_mark, parse_stale, some_offsets,
  find_stale_window_start, stale_start, replay_result, replay_window, replay_stale, replay_topic,
  replay_checkpoint, run_backfill,
}
use stardatadblabs.Replication.Trace.{
  changes, IsQuiet, pure-IsQuiet, raise-IsQuiet, bind-IsQuiet, if-IsQuiet, try_except-IsQuiet,
  go_on-changes, subprocess_run-past,
}

raise_if-IsQuiet : (b : Bool) → IsQuiet (raise_if b runtime_error)
raise_if-IsQuiet true = raise-IsQuiet runtime_error
raise_if-IsQuiet false = pure-IsQuiet tt

read_checkpoint_offsets-IsQuiet : (w : World) (s : Source) → IsQuiet (read_checkpoint_offsets w s)
unfolding read_checkpoint_offsets
read_checkpoint_offsets-IsQuiet w s = record {
  quiet = λ past. by_answer (w.checkpoint past s) past;
}
  where
    by_answer :
        (o : Option (List (Text × Offsets))) (past : List Command)
        → changes (or_raise o runtime_error (read_checkpoint s ∷ past)).1 ≡ changes past
    by_answer none past = refl
    by_answer (some a) past = refl

loaded-IsQuiet : (o : Option Offsets) → IsQuiet (some_offsets o)
loaded-IsQuiet none = raise-IsQuiet runtime_error
loaded-IsQuiet (some a) = pure-IsQuiet (some a)

parse_stale-IsQuiet : (w : World) (line : Option Text) → IsQuiet (parse_stale w line)
parse_stale-IsQuiet w none = raise-IsQuiet runtime_error
parse_stale-IsQuiet w (some line) =
    if-IsQuiet (text_eq (drop (length stale_mark) line) (codes "NONE")) _ _ (pure-IsQuiet none)
      (loaded-IsQuiet (w.load_offsets (drop (length stale_mark) line)))

stale_start-IsQuiet :
    (w : World) (pod topic col : Text) (ends : Offsets) → IsQuiet (stale_start w pod topic col ends)
unfolding find_stale_window_start
stale_start-IsQuiet w pod topic col ends =
    bind-IsQuiet (subprocess_run w read_kafka_secret) _
      record { quiet = λ past. ap changes (subprocess_run-past w read_kafka_secret past) }
      λ secret.
        bind-IsQuiet (subprocess_run w (find_stale pod topic col ends)) _
          record {
            quiet = λ past. ap changes (subprocess_run-past w (find_stale pod topic col ends) past);
          }
          λ r. bind-IsQuiet _ _ (raise_if-IsQuiet (not (r.code == 0))) λ u. parse_stale-IsQuiet w _

-- What the changes are afterwards: those before, or one replay of a window of the topic more.
abbrev pub IsReplayed : Text → Text → Text → Text → Text → List Command → List Command → Type 0
IsReplayed pod fqn topic col pk_col before after =
    (after ≡ before)
    ⊎ ((start : Offsets) × (ends : Offsets) × (after
          ≡ replay pod fqn topic col pk_col start ends ∷ before))

module _ (w : World) (pod fqn topic col pk_col : Text) where
  record ReplaysAtMost (m : Script Bool) : Type 0 where
    pub replays :
        (past : List Command)
        → IsReplayed pod fqn topic col pk_col (changes past) (changes (m past).1)

  quiet-ReplaysAtMost : (m : Script Bool) → IsQuiet m → ReplaysAtMost m
  quiet-ReplaysAtMost m q = record { replays = λ past. inl (q.quiet past) }

  go_on-ReplaysAtMost :
      {A : Type 0} (f : A → Script Bool) (r : Result A) (mid past : List Command)
      → ((a : A) → ReplaysAtMost (f a))
      → changes mid ≡ changes past
      → IsReplayed pod fqn topic col pk_col (changes past) (changes (go_on f r mid).1)
  go_on-ReplaysAtMost f (ok a) mid past q h =
      subst (λ p. IsReplayed pod fqn topic col pk_col p (changes (f a mid).1)) h ((q a).replays mid)
  go_on-ReplaysAtMost f (raised e) mid past q h = inl h

  bind-ReplaysAtMost :
      {A : Type 0} (m : Script A) (f : A → Script Bool)
      → IsQuiet m
      → ((a : A) → ReplaysAtMost (f a))
      → ReplaysAtMost (m >>= f)
  bind-ReplaysAtMost m f qm qf = record {
    replays = λ past. go_on-ReplaysAtMost f (m past).0 (m past).1 past qf (qm.quiet past);
  }

  window-ReplaysAtMost :
      (start ends : Offsets) → ReplaysAtMost (replay_window w pod fqn topic col pk_col start ends)
  window-ReplaysAtMost start ends = record {
    replays = λ past.
        let c : Command = replay pod fqn topic col pk_col start ends in
        let (r, p) = subprocess_run w c past in
        inr (
          start,
          ends,
          go_on-changes (λ a. pure (replay_result a)) r p (λ a. pure-IsQuiet _)
              ∙ ap changes (subprocess_run-past w c past),
        );
  }

  stale-ReplaysAtMost :
      (ends : Offsets) (o : Option (Option Offsets))
      → ReplaysAtMost (replay_stale w pod fqn topic col pk_col ends o)
  stale-ReplaysAtMost ends none = quiet-ReplaysAtMost _ (pure-IsQuiet false)
  stale-ReplaysAtMost ends (some none) = quiet-ReplaysAtMost _ (pure-IsQuiet true)
  stale-ReplaysAtMost ends (some (some start)) = window-ReplaysAtMost start ends

  topic-ReplaysAtMost :
      (o : Option Offsets) → ReplaysAtMost (replay_topic w pod fqn topic col pk_col o)
  topic-ReplaysAtMost none = quiet-ReplaysAtMost _ (pure-IsQuiet true)
  topic-ReplaysAtMost (some []) = quiet-ReplaysAtMost _ (pure-IsQuiet true)
  topic-ReplaysAtMost (some (o ∷ os)) =
      bind-ReplaysAtMost _ _ (try_except-IsQuiet _ (stale_start-IsQuiet w pod topic col (o ∷ os)))
        λ start. stale-ReplaysAtMost (o ∷ os) start

  checkpoint-ReplaysAtMost :
      (o : Option (List (Text × Offsets)))
      → ReplaysAtMost (replay_checkpoint w pod fqn topic col pk_col o)
  checkpoint-ReplaysAtMost none = quiet-ReplaysAtMost _ (pure-IsQuiet false)
  checkpoint-ReplaysAtMost (some offsets) = topic-ReplaysAtMost (lookup topic offsets)

pub run_backfill-IsReplayed :
    (w : World) (s : Source) (table col pk_col pod fqn : Text) (past : List Command)
    → IsReplayed pod fqn
        (topic_of s table)
        col
        pk_col
        (changes past)
        (changes (run_backfill w s table col pk_col pod fqn past).1)
unfolding run_backfill
run_backfill-IsReplayed w s table col pk_col pod fqn past =
    (bind-ReplaysAtMost w pod fqn (topic_of s table) col pk_col _ _
        (try_except-IsQuiet _ (read_checkpoint_offsets-IsQuiet w s))
        λ offsets. checkpoint-ReplaysAtMost w pod fqn (topic_of s table) col pk_col offsets).replays
      past
