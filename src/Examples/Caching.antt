-- ===== src/Examples/Caching.antt =====
-- The theorems on the in-process cache, on one with room for two entries.
use stardatadblabs.Base.{
  ◌≡◌, refl, ◌+◌, codes, text_eq, none, some, [], ◌∷◌, ◌++◌, ltb, arith, if◌then◌else◌,
}
use stardatadblabs.Catalog.Cache
use stardatadblabs.Catalog.Cache.{Entry, TtlCache}
use stardatadblabs.Catalog.Cache.Laws.{IsValid, operations-IsValid, set-get_evicts, get-set_self}
use stardatadblabs.Examples.{empty_cache}

abbrev full : TtlCache
full = record {
  maxsize = 2;
  ttl = 60;
  store = (codes "a", (70, codes "x")) ∷ (codes "b", (80, codes "y")) ∷ [];
}

empty_cache-IsValid : IsValid empty_cache
empty_cache-IsValid = record { nodup = tt; bounded = omega arith }

full-IsValid : IsValid full
unfolding Cache.lookup text_eq
full-IsValid = record { nodup = (refl, (refl, tt)); bounded = omega arith }

operations-IsValid_example :
    IsValid (Cache.get 10 (codes "a") empty_cache).1
    × IsValid (Cache.set 10 (codes "a") (codes "x") empty_cache)
    × IsValid (Cache.delete (codes "a") empty_cache)
    × IsValid (Cache.clear_prefix (codes "a") empty_cache)
operations-IsValid_example =
    operations-IsValid 10 (codes "a") (codes "x") empty_cache empty_cache-IsValid

set-get_evicts_example :
    (Cache.set 30 (codes "c") (codes "z") (Cache.get 20 (codes "a") full).1).store
    ≡ ([] ++ ((codes "a", (70, codes "x")) ∷ [])) ++ ((codes "c", (30 + 60, codes "z")) ∷ [])
unfolding Cache.lookup Cache.erase text_eq
set-get_evicts_example =
    set-get_evicts 20 30 (codes "a") (codes "c") (codes "z") full 70 (codes "x")
      (codes "b", (80, codes "y")) [] full-IsValid refl refl (omega arith) refl refl

get-set_self_example :
    (Cache.get 90 (codes "a") (Cache.set 20 (codes "a") (codes "x") empty_cache)).0
    ≡ (if ltb (20 + 60) 90 then none else some (codes "x"))
get-set_self_example =
    get-set_self 20 90 (codes "a") (codes "x") empty_cache empty_cache-IsValid (omega arith)
