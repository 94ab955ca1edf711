-- ===== src/Replication/Apply/Success.antt =====
-- What a DDL run that reports success has seen (scripts/ddl_apply.py).
use stardatadblabs.Base.{
  ◌≡◌, refl, sym, ap, ◌∙◌, Text, has_infix, lower, Bool, true, false, not, ◌&&◌, List, [], ◌∷◌,
  arith, if◌then◌else◌,
}
use stardatadblabs.Replication.Shell.{Command, Completed, World, Result, ok, raised, pure, ◌>>=◌}
use stardatadblabs.Replication.Deployments.{WriteMode}
use stardatadblabs.Replication.Statements.{
  Op, add, drop, modify, rename, describe, run_spark_sql, iceberg_has_col, iceberg_col_type,
}
use stardatadblabs.Replication.Targets.{Request, table_name}
use stardatadblabs.Replication.Executor.{Executor}
use stardatadblabs.Replication.Apply.{
  is_applied, from_result, statement, execute, alter_tables, new_name, verify_add, verify_table,
  verify_modes,
}
use stardatadblabs.Replication.Apply.Made.{IsMade, is_applied-IsMade}
use stardatadblabs.Replication.Trace.{ran-bind}

-- From one history of the run to another the statements of the modes ran, one after the other, and
-- each was made.
abbrev pub IsAltered :
    World → Executor → Request → List WriteMode → List Command → List Command → Type 0
IsAltered w x q [] past past' = past' ≡ past
IsAltered w x q (m ∷ modes) past past' =
    (ddl : Text) × (r : Completed) × (mid : List Command) × (statement q m ≡ ok ddl)
    × (run_spark_sql w x.pod x.conf ddl past ≡ (ok r, mid))
    × IsMade q.op r
    × IsAltered w x q modes mid past'

-- A description of the table ran, and has the column in its text, or has it not, as the text of one
-- that fails without output has not.
abbrev pub Shows : World → Executor → Text → Text → Bool → List Command → List Command → Type 0
Shows w x fqn col b past past' =
    (r : Completed) × (run_spark_sql w x.pod x.conf (describe fqn) past ≡ (ok r, past'))
    × (has_infix (lower r.out) (lower col) ≡ b)

-- What step 4 asks of a table; of a changed type, and of an added one once it is there, that it is
-- described.
abbrev pub IsShown : World → Executor → Request → Op → Text → List Command → List Command → Type 0
IsShown w x q drop fqn past past' = Shows w x fqn q.col false past past'
IsShown w x q rename fqn past past' =
    (mid : List Command) × Shows w x fqn (new_name q) true past mid
    × Shows w x fqn q.col false mid past'
IsShown w x q modify fqn past past' =
    (r : Completed) × (run_spark_sql w x.pod x.conf (describe fqn) past ≡ (ok r, past'))
IsShown w x q add fqn past past' =
    (mid : List Command) × (r : Completed) × Shows w x fqn q.col true past mid
    × (run_spark_sql w x.pod x.conf (describe fqn) mid ≡ (ok r, past'))

-- The tables of the modes were shown, one after the other.
abbrev pub AreShown :
    World → Executor → Request → List WriteMode → List Command → List Command → Type 0
AreShown w x q [] past past' = past' ≡ past
AreShown w x q (m ∷ modes) past past' =
    (mid : List Command) × IsShown w x q q.op (table_name q m) past mid
    × AreShown w x q modes mid past'

pub returned : {A : Type 0} (a b : A) (p p' : List Command) → pure a p ≡ (ok b, p') → a ≡ b
returned a b p p' h = cc (ap (λ r. r.0) h)

built :
    (r : Result Text) (past : List Command) (ddl : Text) (mid : List Command)
    → from_result r past ≡ (ok ddl, mid)
    → r ≡ ok ddl
built (ok d) past ddl mid h = ap (λ p. p.0) h
built (raised e) past ddl mid h = absurd (cc (ap (λ p. p.0) h))

pub end_of : {A : Type 0} (a b : A) (p p' : List Command) → pure a p ≡ (ok b, p') → p ≡ p'
end_of a b p p' h = ap (λ r. r.1) h

pub ran_to :
    {A : Type 0} {o : Result A × List Command} (a b : A) (mid past' : List Command)
    → o ≡ (ok a, mid)
    → a ≡ b
    → mid ≡ past'
    → o ≡ (ok b, past')
ran_to a b mid past' e v t = e ∙ (ap (λ x. (ok x, mid)) v ∙ ap (λ p. (ok b, p)) t)

has_col-Shows :
    (w : World) (x : Executor) (fqn col : Text) (past past' : List Command) (b : Bool)
    → iceberg_has_col w x.pod x.conf fqn col past ≡ (ok b, past')
    → Shows w x fqn col b past past'
unfolding iceberg_has_col
has_col-Shows w x fqn col past past' b h =
    let (r, mid, e, k) = ran-bind (run_spark_sql w x.pod x.conf (describe fqn)) _ past b past' h in
    (r, e ∙ ap (λ p. (ok r, p)) (end_of _ b mid past' k), returned _ b mid past' k)

col_type-described :
    (w : World) (x : Executor) (fqn col : Text) (past past' : List Command) (t : Text)
    → iceberg_col_type w x.pod x.conf fqn col past ≡ (ok t, past')
    → (r : Completed) × (run_spark_sql w x.pod x.conf (describe fqn) past ≡ (ok r, past'))
unfolding iceberg_col_type
col_type-described w x fqn col past past' t h =
    let (r, mid, e, k) = ran-bind (run_spark_sql w x.pod x.conf (describe fqn)) _ past t past' h in
    (r, e ∙ ap (λ p. (ok r, p)) (end_of _ t mid past' k))

-- A statement that returns true in a run that is not dry was made.
execute-IsMade :
    (b : Bool) (w : World) (x : Executor) (q : Request) (ddl : Text) (past past' : List Command)
    → b ≡ false
    → (if b then pure true else (do r ← run_spark_sql w x.pod x.conf ddl; pure (is_applied q.op r)))
        past
      ≡ (ok true, past')
    → (r : Completed) × (run_spark_sql w x.pod x.conf ddl past ≡ (ok r, past')) × IsMade q.op r
execute-IsMade true w x q ddl past past' h e = absurd (cc h)
execute-IsMade false w x q ddl past past' h e =
    let (r, mid, e1, k1) = ran-bind (run_spark_sql w x.pod x.conf ddl) _ past true past' e in
    (
      r,
      e1 ∙ ap (λ p. (ok r, p)) (end_of _ true mid past' k1),
      is_applied-IsMade q.op r (returned _ true mid past' k1),
    )

built_at :
    (r : Result Text) (past : List Command) (ddl : Text) (mid : List Command)
    → from_result r past ≡ (ok ddl, mid)
    → past ≡ mid
built_at (ok d) past ddl mid h = ap (λ p. p.1) h
built_at (raised e) past ddl mid h = ap (λ p. p.1) h

pub alter_tables-IsAltered :
    (w : World) (x : Executor) (q : Request) (modes : List WriteMode) (past past' : List Command)
    → w.dry_run ≡ false
    → alter_tables w x q modes past ≡ (ok true, past')
    → IsAltered w x q modes past past'
unfolding alter_tables
alter_tables-IsAltered w x q [] past past' h e = sym (ap (λ p. p.1) e)
alter_tables-IsAltered w x q (m ∷ modes) past past' h e =
    let (ddl, p1, e1, k1) = ran-bind (from_result (statement q m)) _ past true past' e in
    let (applied, p2, e2, k2) = ran-bind (execute w x q.op ddl) _ p1 true past' k1 in
    let (rest, p3, e3, k3) = ran-bind (alter_tables w x q modes) _ p2 true past' k2 in
    let both : applied && rest ≡ true = returned _ true p3 past' k3 in
    let first : applied ≡ true = ground arith in
    let second : rest ≡ true = ground arith in
    let (r, ran, made) =
      execute-IsMade w.dry_run w x q ddl p1 p2 h (e2 ∙ ap (λ b. (ok b, p2)) first) in
    (
      ddl,
      r,
      p2,
      built _ past ddl p1 e1,
      ap (run_spark_sql w x.pod x.conf ddl) (built_at _ past ddl p1 e1) ∙ ran,
      made,
      alter_tables-IsAltered w x q modes p2 past' h
          (ran_to rest true p3 past' e3 second (end_of _ true p3 past' k3)),
    )

verify_table-IsShown :
    (w : World) (x : Executor) (q : Request) (op : Op) (fqn : Text) (past past' : List Command)
    → verify_table w x q op fqn past ≡ (ok true, past')
    → IsShown w x q op fqn past past'
unfolding verify_table
verify_table-IsShown w x q drop fqn past past' h =
    let (here, mid, e, k) =
      ran-bind (iceberg_has_col w x.pod x.conf fqn q.col) _ past true past' h in
    let gone : not here ≡ true = returned _ true mid past' k in
    has_col-Shows w x fqn q.col past past' false
      (ran_to here false mid past' e (ground arith) (end_of _ true mid past' k))
verify_table-IsShown w x q rename fqn past past' h =
    let (new_ok, p1, e1, k1) =
      ran-bind (iceberg_has_col w x.pod x.conf fqn (new_name q)) _ past true past' h in
    let (old, p2, e2, k2) =
      ran-bind (iceberg_has_col w x.pod x.conf fqn q.col) _ p1 true past' k1 in
    let both : new_ok && not old ≡ true = returned _ true p2 past' k2 in
    (
      p1,
      has_col-Shows w x fqn (new_name q) past p1 true (e1 ∙ ap (λ b. (ok b, p1)) (ground arith)),
      has_col-Shows w x fqn q.col p1 past' false
          (ran_to old false p2 past' e2 (ground arith) (end_of _ true p2 past' k2)),
    )
verify_table-IsShown w x q modify fqn past past' h =
    let (t, mid, e, k) = ran-bind (iceberg_col_type w x.pod x.conf fqn q.col) _ past true past' h in
    col_type-described w x fqn q.col past past' t
      (e ∙ ap (λ p. (ok t, p)) (end_of _ true mid past' k))
verify_table-IsShown w x q add fqn past past' h =
    let (present, mid, e, k) =
      ran-bind (iceberg_has_col w x.pod x.conf fqn q.col) _ past true past' h in
    let (was, r, described) = was_present present mid k in
    (mid, r, has_col-Shows w x fqn q.col past mid true (e ∙ ap (λ b. (ok b, mid)) was), described)
  where
    was_present :
        (b : Bool) (mid : List Command)
        → verify_add w x fqn q.col b mid ≡ (ok true, past')
        → (b ≡ true)
          × (r : Completed) × (run_spark_sql w x.pod x.conf (describe fqn) mid ≡ (ok r, past'))
    was_present true mid k =
        let (t, last, e, l) =
          ran-bind (iceberg_col_type w x.pod x.conf fqn q.col) _ mid true past' k in
        let (r, described) =
          col_type-described w x fqn q.col mid past' t
            (e ∙ ap (λ p. (ok t, p)) (end_of _ true last past' l)) in
        (refl, r, described)
    was_present false mid k = absurd (cc (ap (λ p. p.0) k))

pub verify_modes-AreShown :
    (w : World) (x : Executor) (q : Request) (modes : List WriteMode) (past past' : List Command)
    → verify_modes w x q modes past ≡ (ok true, past')
    → AreShown w x q modes past past'
unfolding verify_modes
verify_modes-AreShown w x q [] past past' e = sym (ap (λ p. p.1) e)
verify_modes-AreShown w x q (m ∷ modes) past past' e =
    let (verified, p1, e1, k1) =
      ran-bind (verify_table w x q q.op (table_name q m)) _ past true past' e in
    let (rest, p2, e2, k2) = ran-bind (verify_modes w x q modes) _ p1 true past' k1 in
    let both : verified && rest ≡ true = returned _ true p2 past' k2 in
    (
      p1,
      verify_table-IsShown w x q q.op (table_name q m) past p1
          (e1 ∙ ap (λ b. (ok b, p1)) (ground arith)),
      verify_modes-AreShown w x q modes p1 past'
          (ran_to rest true p2 past' e2 (ground arith) (end_of _ true p2 past' k2)),
    )
