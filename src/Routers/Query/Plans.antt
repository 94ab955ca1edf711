-- ===== src/Routers/Query/Plans.antt =====
-- Which object a planned query reads (routers/masking.py, `plan_masked_query`).
use Prim.Native.Nat.{◌/◌, ◌%◌}
use stardatadblabs.Base.{
  ℕ, zero, suc, ◌+◌, ◌<◌, ltb, arith, ◌≡◌, refl, sym, ap, ◌∙◌, ◌≢◌, ◌⊎◌, inl, inr, Text, false,
  List, [], ◌∷◌, ◌++◌, Bool-cases,
}
use stardatadblabs.Catalog.Rows.{ColumnTag, Tables}
use stardatadblabs.Catalog.Session.{ok, err, http}
use stardatadblabs.Masking.Route.{
  Target, base_table, masked_view, is_governance_enabled, tags_of, route, route_tagged,
  resolve_query_target, has_full_exception,
}
use stardatadblabs.Masking.Route.Exceptions.{IsExempt, resolve_query_target_iff}
use stardatadblabs.Routers.Query.{
  MaskedQueryRequest, MaskedQueryResponse, decimal, select_sql, plan_for, plan_masked_query,
}

Target-cases : (t : Target) → (t ≡ base_table) ⊎ (t ≡ masked_view)
Target-cases base_table = inl refl
Target-cases masked_view = inr refl

base_not_view : base_table ≢ masked_view
base_not_view e = cc

-- The view that the resolution names is the table's, with the suffix.
route_view_name :
    (database table : Text) (roles : List Text) (view_name : Text) (tags : List ColumnTag)
    (db : Tables)
    → (route database table roles view_name tags db).view_name ≡ view_name
unfolding route
route_view_name database table roles view_name [] db = refl
route_view_name database table roles view_name (t ∷ ts) db =
    elim (Bool-cases (has_full_exception roles (t ∷ ts) db.exceptions)) [
      | inl e ↦ rw (route_tagged, e) refl
      | inr e ↦ rw (route_tagged, e) refl
    ]

resolve_view_name :
    (suffix database table : Text) (roles : List Text) (db : Tables)
    → (resolve_query_target suffix database table roles db).view_name ≡ table ++ suffix
unfolding resolve_query_target
resolve_view_name suffix database table roles db =
    elim (Bool-cases (is_governance_enabled database db)) [
      | inl on ↦
          rw (resolve_query_target, on)
            (route_view_name database table roles (table ++ suffix) (tags_of database table db) db)
      | inr off ↦ rw (resolve_query_target, off) refl
    ]

-- A plan reads the base table only where that is allowed, and the masked view in all other cases.
abbrev pub IsPlan : Text → MaskedQueryRequest → List Text → Tables → MaskedQueryResponse → Type 0
IsPlan suffix body roles db p =
    ((p.target ≡ base_table)
      × (p.sql ≡ select_sql body body.stardata_table)
      × (p.columns_masked ≡ [])
      × ((is_governance_enabled body.stardata_database db ≡ false)
          ⊎ IsExempt roles (tags_of body.stardata_database body.stardata_table db) db.exceptions))
    ⊎ ((p.target ≡ masked_view)
        × (p.sql ≡ select_sql body (body.stardata_table ++ suffix))
        × (p.columns_clear ≡ [])
        × (is_governance_enabled body.stardata_database db ≢ false)
        × (IsExempt roles (tags_of body.stardata_database body.stardata_table db) db.exceptions
            → ⊥))

plan_for-IsPlan :
    (suffix : Text) (body : MaskedQueryRequest) (roles : List Text) (db : Tables)
    → IsPlan suffix body roles db (
        plan_for body
          (resolve_query_target suffix body.stardata_database body.stardata_table roles db))
unfolding plan_for
plan_for-IsPlan suffix body roles db =
    let q = resolve_query_target suffix body.stardata_database body.stardata_table roles db in
    let (to, from) =
      resolve_query_target_iff suffix body.stardata_database body.stardata_table roles db in
    elim (Target-cases q.target) [
      | inl e ↦ inl (rw (plan_for, e) (refl, refl, refl, to e))
      | inr e ↦ inr (
        rw (plan_for, e) refl,
        rw (plan_for, e)
            (ap (select_sql body)
              (resolve_view_name suffix body.stardata_database body.stardata_table roles db)),
        rw (plan_for, e) refl,
        λ off. base_not_view (sym (from (inl off)) ∙ e),
        λ x. base_not_view (sym (from (inr x)) ∙ e),
      )
    ]

-- A user without roles gets 404. Anyone else gets a statement: on the base table exactly if
-- governance is off for the database or for every classification of the table's tagged columns one of
-- the user's roles, possibly another for another classification, has an exception; and otherwise on
-- the masked view, with no column in the clear.
pub plan_masked_query-IsPlan :
    (suffix : Text) (body : MaskedQueryRequest) (roles : List Text) (db : Tables)
    → ((roles ≡ []) × (plan_masked_query suffix body roles db ≡ err (http 404)))
      ⊎ ((roles ≢ [])
          × (p : MaskedQueryResponse) × (plan_masked_query suffix body roles db ≡ ok p)
          × IsPlan suffix body roles db p)
unfolding plan_masked_query
plan_masked_query-IsPlan suffix body [] db = inl (refl, refl)
plan_masked_query-IsPlan suffix body (r ∷ rs) db = inr (
  λ e. cc,
  plan_for body
      (resolve_query_target suffix body.stardata_database body.stardata_table (r ∷ rs) db),
  refl,
  plan_for-IsPlan suffix body (r ∷ rs) db,
)

none_below : (n : ℕ) → n < 0 → ⊥
none_below n h = omega (arith, h)

-- The digits of a number do not depend on the fuel, as long as it exceeds the number: so `str` is
-- given enough.
pub decimal-enough : (f g n : ℕ) (acc : Text) → n < f → n < g → decimal f n acc ≡ decimal g n acc
unfolding decimal
decimal-enough zero g n acc p q = absurd (none_below n p)
decimal-enough (suc f) zero n acc p q = absurd (none_below n q)
decimal-enough (suc f) (suc g) n acc p q = elim (Bool-cases (ltb n 10)) [
  | inl small ↦ rw small refl
  | inr large ↦
      rw large (decimal-enough f g (n / 10) ((48 + n % 10) ∷ acc) (ground arith) (ground arith))
]
