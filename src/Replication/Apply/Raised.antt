-- ===== src/Replication/Apply/Raised.antt =====
-- A dropped column that nothing describes (scripts/ddl_apply.py).
use stardatadblabs.Base.{
  ◌≡◌, ◌≢◌, refl, ap, ◌∙◌, Text, has_infix, lower, true, false, List, [], ◌∷◌,
}
use stardatadblabs.Replication.Shell.{Command, Completed, World, ok}
use stardatadblabs.Replication.Statements.{drop, describe, run_spark_sql, iceberg_has_col}
use stardatadblabs.Replication.Targets.{Request}
use stardatadblabs.Replication.Executor.{Executor}
use stardatadblabs.Replication.Apply.{verify_table}
use stardatadblabs.Replication.Trace.{bind_ok}

no_text : (col : Text) → col ≢ [] → has_infix (lower []) (lower col) ≡ false
unfolding has_infix lower
no_text [] h = absurd (h refl)
no_text (c ∷ col) h = refl

-- Step 4 confirms that a column is dropped where the description of the table is empty, whatever its
-- exit code.
pub verify_table-drop_unread :
    (w : World) (x : Executor) (q : Request) (fqn : Text) (r : Completed)
    (past past' : List Command)
    → q.col ≢ []
    → run_spark_sql w x.pod x.conf (describe fqn) past ≡ (ok r, past')
    → r.out ≡ []
    → verify_table w x q drop fqn past ≡ (ok true, past')
unfolding verify_table iceberg_has_col
verify_table-drop_unread w x q fqn r past past' named e empty =
    bind_ok (iceberg_has_col w x.pod x.conf fqn q.col) _ past false past' (
      bind_ok (run_spark_sql w x.pod x.conf (describe fqn)) _ past r past' e
      ∙ ap (λ b. (ok b, past'))
          (ap (λ t. has_infix (lower t) (lower q.col)) empty ∙ no_text q.col named))
