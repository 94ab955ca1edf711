-- ===== src/Polaris/Headers/Bearer.antt =====
-- The caller's own token is not passed on (manifests/polaris-auth-proxy/polaris_auth_proxy.py).
use stardatadblabs.Base.{
  ◌≡◌, refl, sym, ◌∙◌, Text, codes, text_eq, text_eq_iff, lower, not, ◌&&◌, Bool, true, false, some,
  List, [], ◌∷◌, ◌++◌, if◌then◌else◌,
}
use mathlib.Core.Path.{subst}
use stardatadblabs.Base.Dict.{Dict, lookup, insert, lookup-insert}
use stardatadblabs.Polaris.Headers.{is_hop, is_kept, kept_headers, forward_headers}

-- Every header of a dictionary has a property.
abbrev pub Every : (Text → Text → Type 0) → Dict Text → Type 0
Every P d = (k v : Text) → lookup k d ≡ some v → P k v

insert-Every :
    (P : Text → Text → Type 0) (k v : Text) (d : Dict Text)
    → P k v
    → Every P d
    → Every P (insert k v d)
insert-Every P k v d h all j w q = by_key (text_eq k j) refl (sym (lookup-insert j k v d) ∙ q)
  where
    by_key : (b : Bool) → text_eq k j ≡ b → (if b then some v else lookup j d) ≡ some w → P j w
    by_key true e q = subst (λ x. P j x) (cc q) (subst (λ x. P x v) ((text_eq_iff k j).0 e) h)
    by_key false e q = all j w q

kept_headers-Every :
    (hs : List (Text × Text)) (d : Dict Text)
    → Every (λ k v. is_kept k ≡ true) d
    → Every (λ k v. is_kept k ≡ true) (kept_headers hs d)
unfolding kept_headers
kept_headers-Every [] d all = all
kept_headers-Every ((k, v) ∷ hs) d all =
    kept_headers-Every hs (if is_kept k then insert k v d else d) (by_kept (is_kept k) refl)
  where
    by_kept :
        (b : Bool) → is_kept k ≡ b → Every (λ k v. is_kept k ≡ true) (if b then insert k v d else d)
    by_kept true e = insert-Every (λ k v. is_kept k ≡ true) k v d e all
    by_kept false e = all

-- No header of the connection, and no authorization but that of the proxy.
abbrev pub IsPassed : Text → Text → Text → Type 0
IsPassed token k v =
    (is_hop k ≡ false)
    × (text_eq (lower k) (codes "authorization") ≡ true → v ≡ codes "Bearer " ++ token)

kept-IsPassed : (token k v : Text) → is_kept k ≡ true → IsPassed token k v
kept-IsPassed token k v = by_tests (is_hop k) (text_eq (lower k) (codes "authorization"))
  where
    by_tests :
        (h a : Bool)
        → not h && not a ≡ true
        → (h ≡ false) × (a ≡ true → v ≡ codes "Bearer " ++ token)
    by_tests true a e = absurd (cc e)
    by_tests false true e = absurd (cc e)
    by_tests false false e = (refl, λ q. absurd (cc q))

-- Whatever headers a caller sends, the request that is passed on has the proxy's token as its
-- Authorization and no other one, however the name is spelled, and no header of the connection.
pub forward_headers-IsPassed :
    (token : Text) (hs : List (Text × Text))
    → (lookup (codes "Authorization") (forward_headers token hs) ≡ some (codes "Bearer " ++ token))
      × ((k v : Text) → lookup k (forward_headers token hs) ≡ some v → IsPassed token k v)
unfolding forward_headers lookup lower text_eq
forward_headers-IsPassed token hs = (
  lookup-insert (codes "Authorization") (codes "X-Iceberg-Access-Delegation") (codes "false")
        with_token
      ∙ lookup-insert (codes "Authorization") (codes "Authorization") (codes "Bearer " ++ token)
          kept,
  insert-Every (IsPassed token) (codes "X-Iceberg-Access-Delegation") (codes "false") with_token
      (refl, λ q. absurd (cc q))
      (insert-Every (IsPassed token) (codes "Authorization") (codes "Bearer " ++ token) kept
        (refl, λ q. refl)
        (λ k v q.
          kept-IsPassed token k v (kept_headers-Every hs [] (λ j w e. absurd (cc e)) k v q))),
)
  where
    kept : Dict Text
    kept = kept_headers hs []

    with_token : Dict Text
    with_token = insert (codes "Authorization") (codes "Bearer " ++ token) kept
