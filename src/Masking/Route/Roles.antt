-- ===== src/Masking/Route/Roles.antt =====
-- How the routing of masking.py depends on the user's roles.
use stardatadblabs.Base.{
  ◌≡◌, refl, ◌⊎◌, inl, inr, Text, contains, Bool, true, none, List, [], ◌∷◌, ◌++◌, In,
  In-append-left, next_or, Bool-cases,
}
use stardatadblabs.Catalog.Rows.{ColumnTag, Tables}
use stardatadblabs.Masking.Route.{
  tags_of, base_table, highest_role, priority_order, resolve_query_target,
}
use stardatadblabs.Masking.Route.Exceptions.{contains-In, resolve_query_target_iff}

-- A user who gains further roles keeps the access to the base table.
pub resolve_query_target_mono :
    (suffix database table : Text) (roles more : List Text) (db : Tables)
    → (resolve_query_target suffix database table roles db).target ≡ base_table
    → (resolve_query_target suffix database table (roles ++ more) db).target ≡ base_table
resolve_query_target_mono suffix database table roles more db h =
    (resolve_query_target_iff suffix database table (roles ++ more) db).1
      (elim ((resolve_query_target_iff suffix database table roles db).0 h) [
        | inl off ↦ inl off
        | inr x ↦ inr (λ t m k q.
            let (e, i, r, p) = x t m k q in (e, i, In-append-left e.role_name roles more r, p))
      ])

-- Where no tag of a table names a classification, every user is sent to the base table, whatever
-- the roles and whatever policies the tagged columns have.
pub unclassified_to_base_table :
    (suffix database table : Text) (roles : List Text) (db : Tables)
    → ((t : ColumnTag) → In t (tags_of database table db) → t.classification_id ≡ none)
    → (resolve_query_target suffix database table roles db).target ≡ base_table
unclassified_to_base_table suffix database table roles db h =
    (resolve_query_target_iff suffix database table roles db).1 (inr (λ t m k q. cc (h t m)))

next_or-cases :
    (p : Text → Bool) (d : Text) (xs : List Text)
    → (next_or p d xs ≡ d) ⊎ (p (next_or p d xs) ≡ true)
next_or-cases p d [] = inl refl
next_or-cases p d (x ∷ xs) = elim (Bool-cases (p x)) [
  | inl e ↦ rw e (inr e)
  | inr e ↦ rw e (next_or-cases p d xs)
]

-- The role that is reported is one of the user's, if there is any.
highest_role-In : (r : Text) (rs : List Text) → In (highest_role (r ∷ rs)) (r ∷ rs)
unfolding highest_role
highest_role-In r rs = elim (next_or-cases (contains (r ∷ rs)) r priority_order) [
  | inl e ↦ inl e
  | inr c ↦ (contains-In (r ∷ rs) (next_or (contains (r ∷ rs)) r priority_order)).0 c
]
