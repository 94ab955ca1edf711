-- ===== src/Catalog/Session.antt =====
-- The state of the service and the sessions in which its handlers work
-- (star-knowledge-catalog/catalog/database.py). An `HTTPException` is an error with its status.
-- The shared Redis cache is not part of the state: a failed call of it is logged and ignored, and
-- no handler reads it.
use stardatadblabs.Base.{ℕ, ◌≡◌, ap, Text, codes, Bool, true, false, Option, none, some}
use stardatadblabs.Catalog.Rows.{Tables}
use stardatadblabs.Catalog.Cache
use stardatadblabs.Catalog.Cache.{TtlCache}

-- `integrity` is what PostgreSQL raises when a constraint does not hold, `unavailable` what a query of
-- the Stardata server raises.
pub data Error : Type 0 where
  http : ℕ → Error
  integrity unavailable : Error

pub data Result (A : Type 0) : Type 0 where
  ok : A → Result A
  err : Error → Result A

pub record Service : Type 0 where
  pub tables : Tables
  pub cache : TtlCache

abbrev pub Action : Type 0 → Type 0
Action A = Service → Result A × Service

module _ {A : Type 0} where
  abbrev pub pure : A → Action A
  pure a s = (ok a, s)

  abbrev pub raise : Error → Action A
  raise e s = (err e, s)

  -- A query of the tables.
  abbrev pub query : (Tables → A) → Action A
  query f s = (ok (f s.tables), s)

  -- `if x is None: raise`
  abbrev pub or_raise : Option A → Error → Action A
  or_raise none e = raise e
  or_raise (some a) e = pure a

  -- `async with db_session()`: an exception takes the tables back to where the session began. What
  -- was done to the cache stays done.
  unfoldable pub db_session : Action A → Action A
  db_session body s =
      let (r, s') = body s in
      elim r [ ok a ↦ (ok a, s') | err e ↦ (err e, record s' { tables = s.tables }) ]

infixl 5 ◌>>=◌ ◌>>◌
abbrev pub ◌>>=◌ : {A B : Type 0} → Action A → (A → Action B) → Action B
◌>>=◌ m f s = let (r, s') = m s in elim r [ ok a ↦ f a s' | err e ↦ (err e, s') ]

-- An action whose first part returns goes on with what that part left.
pub bind-ok :
    {A B : Type 0} (m : Action A) (f : A → Action B) (s : Service) (a : A)
    → (m s).0 ≡ ok a
    → (m >>= f) s ≡ f a (m s).1
bind-ok m f s a e = ap (λ r. elim r [ ok b ↦ f b (m s).1 | err x ↦ (err x, (m s).1) ]) e

abbrev pub ◌>>◌ : {A B : Type 0} → Action A → Action B → Action B
m >> k = m >>= λ _. k

abbrev pub raise_if : Bool → Error → Action (Unit {0})
raise_if true e = raise e
raise_if false e = pure tt

abbrev pub write : (Tables → Tables) → Action (Unit {0})
write f s = (ok tt, record s { tables = f s.tables })

abbrev pub policy_cache_prefix : Text
policy_cache_prefix = codes "skc:policies"

abbrev pub column_tag_prefix : Text
column_tag_prefix = codes "skc:column_tags"

-- `cache_invalidate_prefix`, on the in-process cache.
unfoldable pub cache_invalidate_prefix : Text → Action (Unit {0})
cache_invalidate_prefix prefix s = (ok tt, record s { cache = Cache.clear_prefix prefix s.cache })
