-- ===== src/Replication/Launch/Checked.antt =====
-- What the checks of the command line give: statements that can be built, and the meaning of the exit
-- code (scripts/ddl_apply.py).
use stardatadblabs.Base.{
  ◌≡◌, refl, sym, ap, ◌∙◌, ◌⊎◌, inl, inr, ◌↔◌, ◌||◌, Text, codes, lower, text_eq, text_eq_iff, Bool,
  true, false, Option, none, some, List, [], ◌∷◌, arith, if◌then◌else◌,
}
use stardatadblabs.Base.Lines.{strip, split_at}
use stardatadblabs.Replication.Shell.{Command, World, Source, ok, pure}
use stardatadblabs.Replication.Deployments.{WriteMode, deploy_name}
use stardatadblabs.Replication.Statements.{Op, add, drop, modify, rename, build_ddl}
use stardatadblabs.Replication.Targets.{Request, table_name}
use stardatadblabs.Replication.Apply.{statement, apply_ddl}
use stardatadblabs.Replication.Apply.DryRun.{from_result-IsQuiet}
use stardatadblabs.Replication.Apply.Quiet.{deployment_exists-IsQuiet}
use stardatadblabs.Replication.Apply.Success.{returned, end_of, ran_to}
use stardatadblabs.Replication.Apply.Reported.{IsSuccess, apply_ddl-IsSuccess}
use stardatadblabs.Replication.Launch.{
  Arguments, parse_modes, needs, is_complete, request_of, show_statements, show_deploys, exit_code,
  world_of, agrees, confirmed, launch, launch_modes, main,
}
use stardatadblabs.Replication.Trace.{
  changes, IsQuiet, pure-IsQuiet, bind-IsQuiet, if-IsQuiet, ran-bind, quiet_ran,
}

-- What an operation needs is enough to build its statement.
built_ddl :
    (op : Op) (fqn col : Text) (col_type new_col : Option Text)
    → needs op col_type new_col ≡ true
    → (ddl : Text) × (build_ddl op fqn col col_type new_col ≡ ok ddl)
unfolding build_ddl
built_ddl add fqn col none n h = absurd (cc h)
built_ddl add fqn col (some []) n h = absurd (cc h)
built_ddl add fqn col (some (c ∷ t)) n h = (_, refl)
built_ddl drop fqn col t n h = (_, refl)
built_ddl modify fqn col none n h = absurd (cc h)
built_ddl modify fqn col (some []) n h = absurd (cc h)
built_ddl modify fqn col (some (c ∷ t)) n h = (_, refl)
built_ddl rename fqn col t none h = absurd (cc h)
built_ddl rename fqn col t (some []) h = absurd (cc h)
built_ddl rename fqn col t (some (c ∷ n)) h = (_, refl)

-- For arguments that pass the checks, the statement of every mode can be built: the ValueError of
-- `_build_ddl` does not occur.
pub is_complete-statement :
    (a : Arguments) (modes : List WriteMode) (m : WriteMode)
    → is_complete a ≡ true
    → (ddl : Text) × (statement (request_of a modes) m ≡ ok ddl)
unfolding is_complete
is_complete-statement a modes m h =
    built_ddl a.op (table_name (request_of a modes) m) a.col a.col_type a.new_col (ground arith)

show_statements-IsQuiet : (q : Request) (modes : List WriteMode) → IsQuiet (show_statements q modes)
unfolding show_statements
show_statements-IsQuiet q [] = pure-IsQuiet tt
show_statements-IsQuiet q (m ∷ modes) =
    bind-IsQuiet _ _ (from_result-IsQuiet (statement q m)) λ ddl. show_statements-IsQuiet q modes

show_deploys-IsQuiet :
    (w : World) (s : Source) (modes : List WriteMode) → IsQuiet (show_deploys w s modes)
unfolding show_deploys
show_deploys-IsQuiet w s [] = pure-IsQuiet tt
show_deploys-IsQuiet w s (m ∷ modes) =
    bind-IsQuiet _ _
      (if-IsQuiet w.dry_run _ _ (pure-IsQuiet true) (deployment_exists-IsQuiet w (deploy_name s m)))
      λ there. show_deploys-IsQuiet w s modes

-- `--yes` is given, or what is typed is the word yes, in any case and with blanks around it.
abbrev pub IsConsent : Arguments → Text → Type 0
IsConsent a answer = (a.yes_given ≡ true) ⊎ (lower (strip answer) ≡ codes "yes")

agrees_iff :
    (w : World) (a : Arguments) (answer : Text)
    → w.dry_run ≡ false
    → (agrees w a answer ≡ true) ↔ IsConsent a answer
agrees_iff w a answer h =
    by_tests w.dry_run a.yes_given (text_eq (lower (strip answer)) (codes "yes")) h
      (text_eq_iff (lower (strip answer)) (codes "yes"))
  where
    by_tests :
        (dry given typed : Bool)
        → dry ≡ false
        → (typed ≡ true) ↔ (lower (strip answer) ≡ codes "yes")
        → (dry || (given || typed) ≡ true) ↔ ((given ≡ true) ⊎ (lower (strip answer) ≡ codes "yes"))
    by_tests true given typed h t = absurd (cc h)
    by_tests false true typed h t = (λ e. inl refl, λ c. refl)
    by_tests false false typed h t =
        (λ e. inr (t.0 e), λ c. elim c [ inl y ↦ absurd (cc y) | inr y ↦ t.1 y ])

-- An exit code of 0 in a run that is not dry: there is no consent and nothing changed, or there is
-- and the run reported success.
abbrev pub IsZeroExit : World → Arguments → Text → List Command → List Command → Type 0
IsZeroExit w a answer past past' =
    (modes : List WriteMode) × (parse_modes (split_at b',' a.modes) ≡ some modes)
    × ((¬ (IsConsent a answer) × (changes past' ≡ changes past))
        ⊎ (IsConsent a answer
            × (start : List Command) × (changes start ≡ changes past)
            × IsSuccess (world_of w a) (request_of a modes) start past'))

zero_code : (b : Bool) → exit_code b ≡ 0 → b ≡ true
zero_code true h = refl
zero_code false h = absurd (omega (arith, h))

confirmed_zero :
    (w : World) (q : Request) (c : Bool) (past past' : List Command)
    → w.dry_run ≡ false
    → confirmed w q c past ≡ (ok 0, past')
    → ((c ≡ false) × (changes past' ≡ changes past)) ⊎ ((c ≡ true) × IsSuccess w q past past')
confirmed_zero w q true past past' h e =
    let (b, mid, e1, k1) = ran-bind (apply_ddl w q) _ past 0 past' e in
    let succeeded : b ≡ true = zero_code b (returned (exit_code b) 0 mid past' k1) in
    inr (
      refl,
      apply_ddl-IsSuccess w q past past' h
          (ran_to b true mid past' e1 succeeded (end_of (exit_code b) 0 mid past' k1)),
    )
confirmed_zero w q false past past' h e = inl (refl, sym (ap (λ r. changes r.1) e))

launch_zero :
    (c : Bool) (w : World) (a : Arguments) (answer : Text) (modes : List WriteMode)
    (past past' : List Command)
    → w.dry_run ≡ false
    → (if c then launch w a answer (request_of a modes) else pure 1) past ≡ (ok 0, past')
    → (¬ (IsConsent a answer) × (changes past' ≡ changes past))
      ⊎ (IsConsent a answer
          × (start : List Command) × (changes start ≡ changes past)
          × IsSuccess w (request_of a modes) start past')
launch_zero false w a answer modes past past' h e =
    absurd (omega (arith, returned 1 0 past past' e))
launch_zero true w a answer modes past past' h e =
    let q = request_of a modes in
    let (u, p1, e1, k1) = ran-bind (show_statements q modes) _ past 0 past' e in
    let (v, p2, e2, k2) = ran-bind (show_deploys w q.source modes) _ p1 0 past' k1 in
    let quiet : changes p2 ≡ changes past =
      quiet_ran _ p1 v p2 (show_deploys-IsQuiet w q.source modes) e2
      ∙ quiet_ran _ past u p1 (show_statements-IsQuiet q modes) e1 in
    elim (confirmed_zero w q (agrees w a answer) p2 past' h k2) [
      | inl (n, unchanged) ↦ inl (refused n, unchanged ∙ quiet)
      | inr (y, s) ↦ inr ((agrees_iff w a answer h).0 y, p2, quiet, s)
    ]
  where
    refused : agrees w a answer ≡ false → ¬ (IsConsent a answer)
    refused n c = cc (sym n ∙ (agrees_iff w a answer h).1 c)

-- If the arguments and the environment ask for no dry run and `main` exits with 0, the modes are
-- known. Then either neither --yes is given nor the word yes typed, in any case and with blanks around
-- it, and nothing changed; or one of the two is so and, after a banner that changes nothing, the DDL
-- run went through all its steps with success.
pub main-IsZeroExit :
    (w : World) (a : Arguments) (answer : Text) (past past' : List Command)
    → (world_of w a).dry_run ≡ false
    → main w a answer past ≡ (ok 0, past')
    → IsZeroExit w a answer past past'
unfolding main
main-IsZeroExit w a answer past past' h e = by_modes (parse_modes (split_at b',' a.modes)) e
  where
    by_modes :
        (o : Option (List WriteMode))
        → launch_modes (world_of w a) a answer o past ≡ (ok 0, past')
        → (modes : List WriteMode) × (o ≡ some modes)
          × ((¬ (IsConsent a answer) × (changes past' ≡ changes past))
              ⊎ (IsConsent a answer
                  × (start : List Command) × (changes start ≡ changes past)
                  × IsSuccess (world_of w a) (request_of a modes) start past'))
    by_modes none k = absurd (omega (arith, returned 1 0 past past' k))
    by_modes (some modes) k =
        (modes, refl, launch_zero (is_complete a) (world_of w a) a answer modes past past' h k)
