-- ===== src/Replication/Apply/Verify.antt =====
-- Step 4 of a DDL run: it describes the tables and changes nothing (scripts/ddl_apply.py).
use stardatadblabs.Base.{ap, Text, starts_with, Bool, true, false, ◌||◌, List, [], ◌∷◌}
use stardatadblabs.Base.Lines.{strip, left_strip, right_strip}
use stardatadblabs.Replication.Shell.{World}
use stardatadblabs.Replication.Deployments.{WriteMode, is_empty}
use stardatadblabs.Replication.Statements.{
  Op, add, drop, modify, rename, escape_quotes, run_spark_sql, describe, iceberg_has_col,
  iceberg_col_type,
}
use stardatadblabs.Replication.Targets.{Request, table_name}
use stardatadblabs.Replication.Executor.{Executor}
use stardatadblabs.Replication.Apply.{
  new_name, verify_add, verify_table, verify_modes, verify_tables,
}
use stardatadblabs.Replication.Trace.{
  changes, IsQuiet, pure-IsQuiet, bind-IsQuiet, if-IsQuiet, run_spark_sql-past,
}

describe-IsQuiet :
    (w : World) (pod conf fqn : Text) → IsQuiet (run_spark_sql w pod conf (describe fqn))
unfolding escape_quotes strip left_strip right_strip starts_with
describe-IsQuiet w pod conf fqn = record {
  quiet = λ past. ap changes (run_spark_sql-past w pod conf (describe fqn) past);
}

has_col-IsQuiet :
    (w : World) (pod conf fqn col : Text) → IsQuiet (iceberg_has_col w pod conf fqn col)
unfolding iceberg_has_col
has_col-IsQuiet w pod conf fqn col =
    bind-IsQuiet _ _ (describe-IsQuiet w pod conf fqn) λ r. pure-IsQuiet _

col_type-IsQuiet :
    (w : World) (pod conf fqn col : Text) → IsQuiet (iceberg_col_type w pod conf fqn col)
unfolding iceberg_col_type
col_type-IsQuiet w pod conf fqn col =
    bind-IsQuiet _ _ (describe-IsQuiet w pod conf fqn) λ r. pure-IsQuiet _

verify_add-IsQuiet :
    (w : World) (x : Executor) (fqn col : Text) (b : Bool) → IsQuiet (verify_add w x fqn col b)
verify_add-IsQuiet w x fqn col true =
    bind-IsQuiet _ _ (col_type-IsQuiet w x.pod x.conf fqn col) λ t. pure-IsQuiet true
verify_add-IsQuiet w x fqn col false = pure-IsQuiet false

verify_table-IsQuiet :
    (w : World) (x : Executor) (q : Request) (op : Op) (fqn : Text)
    → IsQuiet (verify_table w x q op fqn)
unfolding verify_table
verify_table-IsQuiet w x q drop fqn =
    bind-IsQuiet _ _ (has_col-IsQuiet w x.pod x.conf fqn q.col) λ here. pure-IsQuiet _
verify_table-IsQuiet w x q rename fqn =
    bind-IsQuiet _ _ (has_col-IsQuiet w x.pod x.conf fqn (new_name q)) λ new_ok.
      bind-IsQuiet _ _ (has_col-IsQuiet w x.pod x.conf fqn q.col) λ old_here. pure-IsQuiet _
verify_table-IsQuiet w x q modify fqn =
    bind-IsQuiet _ _ (col_type-IsQuiet w x.pod x.conf fqn q.col) λ t. pure-IsQuiet true
verify_table-IsQuiet w x q add fqn =
    bind-IsQuiet _ _ (has_col-IsQuiet w x.pod x.conf fqn q.col)
      λ present. verify_add-IsQuiet w x fqn q.col present

verify_modes-IsQuiet :
    (w : World) (x : Executor) (q : Request) (modes : List WriteMode)
    → IsQuiet (verify_modes w x q modes)
unfolding verify_modes
verify_modes-IsQuiet w x q [] = pure-IsQuiet true
verify_modes-IsQuiet w x q (m ∷ modes) =
    bind-IsQuiet _ _ (verify_table-IsQuiet w x q q.op (table_name q m))
      λ verified. bind-IsQuiet _ _ (verify_modes-IsQuiet w x q modes) λ rest. pure-IsQuiet _

pub verify_tables-IsQuiet : (w : World) (x : Executor) (q : Request) → IsQuiet (verify_tables w x q)
verify_tables-IsQuiet w x q =
    if-IsQuiet (w.dry_run || (is_empty x.pod || is_empty x.conf)) _ _ (pure-IsQuiet true)
      (verify_modes-IsQuiet w x q q.modes)
