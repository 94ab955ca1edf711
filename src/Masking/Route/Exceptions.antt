-- ===== src/Masking/Route/Exceptions.antt =====
-- Who is routed to the base table (masking.py, `resolve_query_target`).
use stardatadblabs.Base.{
  ℕ, ◌≡◌, refl, sym, ap, ◌∙◌, ◌↔◌, ◌⊎◌, inl, inr, Text, text_eq, text_eq_iff, contains, true, false,
  Option, none, some, List, [], ◌∷◌, ◌++◌, In, keep, In-any, any-In, ◌==◌, arith, Bool-cases,
  keep-In,
}
use stardatadblabs.Catalog.Rows.{ColumnTag, RoleMaskingException, Tables}
use stardatadblabs.Masking.Route.{
  is_governance_enabled, tags_of, contains_id, with_id, classification_ids, covers,
  exempt_class_ids, issubset, base_table, has_full_exception, route, resolve_query_target,
}

-- One of the roles has an exception for the classification.
abbrev pub HasException : List Text → ℕ → List RoleMaskingException → Type 0
HasException roles k exceptions =
    (e : RoleMaskingException) × In e exceptions × In e.role_name roles × (e.classification_id ≡ k)

-- The roles have an exception for every classification that a tag of the list names.
abbrev pub IsExempt : List Text → List ColumnTag → List RoleMaskingException → Type 0
IsExempt roles tags exceptions =
    (t : ColumnTag)
    → In t tags
    → (k : ℕ) → t.classification_id ≡ some k
    → HasException roles k exceptions

pub contains-In : (names : List Text) (s : Text) → (contains names s ≡ true) ↔ In s names
contains-In names s = (
  λ h. let (n, m, e) = any-In (λ n. text_eq n s) names h in rw (sym ((text_eq_iff n s).0 e)) m,
  λ m. In-any (λ n. text_eq n s) s names m ((text_eq_iff s s).1 refl),
)

contains_id-In : (ids : List ℕ) (k : ℕ) → (contains_id ids k ≡ true) ↔ In k ids
contains_id-In ids k = (
  λ h. let (i, m, e) = any-In (λ i. i == k) ids h in let p : i ≡ k = ground arith in rw (sym p) m,
  λ m. In-any (λ i. i == k) k ids m (ground arith),
)

issubset-In : (ks others : List ℕ) → (issubset ks others ≡ true) ↔ ((k : ℕ) → In k ks → In k others)
unfolding issubset
issubset-In [] others = (λ h k m. absurd m, λ h. refl)
issubset-In (k ∷ ks) others = (
  λ h j m. elim m [
    | inl e ↦ rw e ((contains_id-In others k).0 (ground arith))
    | inr m' ↦ (issubset-In ks others).0 (ground arith) j m'
  ],
  λ h.
      rw ((contains_id-In others k).1 (h k (inl refl)))
        ((issubset-In ks others).1 (λ j m. h j (inr m))),
)

with_id-In :
    (o : Option ℕ) (ids : List ℕ) (k : ℕ) → In k (with_id o ids) ↔ ((o ≡ some k) ⊎ In k ids)
with_id-In none ids k = (λ m. inr m, λ h. elim h [ inl e ↦ cc | inr m ↦ m ])
with_id-In (some j) ids k = (
  λ m. elim m [ inl e ↦ inl (ap some (sym e)) | inr m' ↦ inr m' ],
  λ h. elim h [ inl e ↦ inl (ground arith) | inr m ↦ inr m ],
)

classification_ids-In :
    (k : ℕ) (tags : List ColumnTag)
    → In k (classification_ids tags)
      ↔ ((t : ColumnTag) × In t tags × (t.classification_id ≡ some k))
unfolding classification_ids
classification_ids-In k [] = (λ m. absurd m, λ w. w.1)
classification_ids-In k (t ∷ ts) =
    let (to, from) = with_id-In t.classification_id (classification_ids ts) k in
    (
      λ m. elim (to m) [
        | inl e ↦ (t, inl refl, e)
        | inr m' ↦ let (x, i, q) = (classification_ids-In k ts).0 m' in (x, inr i, q)
      ],
      λ w. elim w.1 [
        | inl e ↦ from (inl (sym (ap (λ (x : ColumnTag). x.classification_id) e) ∙ w.2))
        | inr i ↦ from (inr ((classification_ids-In k ts).1 (w.0, i, w.2)))
      ],
    )

exempt_class_ids-In :
    (k : ℕ) (es : List RoleMaskingException)
    → In k (exempt_class_ids es)
      ↔ ((e : RoleMaskingException) × In e es × (e.classification_id ≡ k))
unfolding exempt_class_ids
exempt_class_ids-In k [] = (λ m. absurd m, λ w. w.1)
exempt_class_ids-In k (e ∷ es) = (
  λ m. elim m [
    | inl q ↦ (e, inl refl, sym q)
    | inr m' ↦ let (x, i, q) = (exempt_class_ids-In k es).0 m' in (x, inr i, q)
  ],
  λ w. elim w.1 [
    | inl q ↦ inl (sym w.2 ∙ ap (λ (x : RoleMaskingException). x.classification_id) q)
    | inr i ↦ inr ((exempt_class_ids-In k es).1 (w.0, i, w.2))
  ],
)

-- The row is an exception of one of the roles for one of the classifications.
covers-cases :
    (roles : List Text) (ids : List ℕ) (e : RoleMaskingException)
    → (covers roles ids e ≡ true) ↔ (In e.role_name roles × In e.classification_id ids)
covers-cases roles ids e = (
  λ h. (
    (contains-In roles e.role_name).0 (ground arith),
    (contains_id-In ids e.classification_id).0 (ground arith),
  ),
  λ h. ground (
    arith,
    (contains-In roles e.role_name).1 h.0,
    (contains_id-In ids e.classification_id).1 h.1,
  ),
)

covered-HasException :
    (roles : List Text) (ids : List ℕ) (k : ℕ) (es : List RoleMaskingException)
    → In k ids
    → In k (exempt_class_ids (keep (covers roles ids) es)) ↔ HasException roles k es
covered-HasException roles ids k es m = (
  λ h.
      let (e, i, q) = (exempt_class_ids-In k (keep (covers roles ids) es)).0 h in
      let (j, c) = (keep-In (covers roles ids) e es).0 i in
      (e, j, ((covers-cases roles ids e).0 c).0, q),
  λ w.
      let (e, j, r, q) = w in
      (exempt_class_ids-In k (keep (covers roles ids) es)).1
        (e, (keep-In (covers roles ids) e es).1 (j, (covers-cases roles ids e).1 (r, rw q m)), q),
)

has_full_exception-IsExempt :
    (roles : List Text) (tags : List ColumnTag) (es : List RoleMaskingException)
    → (has_full_exception roles tags es ≡ true) ↔ IsExempt roles tags es
unfolding has_full_exception
has_full_exception-IsExempt roles tags es =
    let ids = classification_ids tags in
    let others = exempt_class_ids (keep (covers roles ids) es) in
    (
      λ h t i k q.
          let m : In k ids = (classification_ids-In k tags).1 (t, i, q) in
          (covered-HasException roles ids k es m).0 ((issubset-In ids others).0 h k m),
      λ h. (issubset-In ids others).1 (λ k m.
          let (t, i, q) = (classification_ids-In k tags).0 m in
          (covered-HasException roles ids k es m).1 (h t i k q)),
    )

route-base_table :
    (database table : Text) (roles : List Text) (view_name : Text) (tags : List ColumnTag)
    (db : Tables)
    → ((route database table roles view_name tags db).target ≡ base_table)
      ↔ IsExempt roles tags db.exceptions
unfolding route
route-base_table database table roles view_name [] db = (λ h t m. absurd m, λ h. refl)
route-base_table database table roles view_name (t ∷ ts) db =
    let (to, from) = has_full_exception-IsExempt roles (t ∷ ts) db.exceptions in
    (λ h. to (ground arith), λ h. ground (arith, from h))

-- A query goes to the base table exactly if governance is off for the database, or if for every
-- classification of a tagged column of the table one of the user's roles has an exception, possibly
-- another role for another classification. It goes to the masked view in every other case.
pub resolve_query_target_iff :
    (suffix database table : Text) (roles : List Text) (db : Tables)
    → ((resolve_query_target suffix database table roles db).target ≡ base_table) ↔ (
        (is_governance_enabled database db ≡ false)
        ⊎ IsExempt roles (tags_of database table db) db.exceptions)
unfolding resolve_query_target
resolve_query_target_iff suffix database table roles db =
    let (to, from) =
      route-base_table database table roles (table ++ suffix) (tags_of database table db) db in
    elim (Bool-cases (is_governance_enabled database db)) [
      | inr off ↦ rw off (λ h. inl refl, λ h. refl)
      | inl on ↦ rw on (λ h. inr (to h), λ h. elim h [ inl e ↦ cc | inr x ↦ from x ])
    ]
