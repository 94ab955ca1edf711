-- ===== src/Catalog/Cache.antt =====
-- The in-process cache (star-knowledge-catalog/catalog/database.py, `_TTLCache`): an ordered
-- dictionary from keys to values with an expiry, the least recently used entry first. `now` is the
-- reading of the monotonic clock that the call takes. The lock makes each call one step.
pub mod Laws
use stardatadblabs.Base.{
  ℕ, ◌+◌, Text, text_eq, starts_with, Bool, true, false, not, Option, none, some, List, [], ◌∷◌,
  ◌++◌, keep, length, ltb, if◌then◌else◌,
}

-- `key: (expires, value)`
abbrev pub Entry : Type 0
Entry = Text × (ℕ × Text)

pub record TtlCache : Type 0 where
  pub maxsize : ℕ
  pub ttl : ℕ
  pub store : List Entry

unfoldable pub lookup : Text → List Entry → Option (ℕ × Text)
lookup k [] = none
lookup k ((j, v) ∷ m) = let rest = lookup k m in if text_eq j k then some v else rest

-- `del store[key]`, or nothing if there is no such key.
unfoldable pub erase : Text → List Entry → List Entry
erase k [] = []
erase k (e ∷ m) = let rest = erase k m in if text_eq e.0 k then m else e ∷ rest

-- `store[key] = value; store.move_to_end(key)`
abbrev pub put_last : Text → ℕ × Text → List Entry → List Entry
put_last k v m = erase k m ++ ((k, v) ∷ [])

-- `popitem(last=False)`
abbrev pub pop_first : List Entry → List Entry
pop_first [] = []
pop_first (e ∷ m) = m

unfoldable pub get : ℕ → Text → TtlCache → Option Text × TtlCache
get now key c = elim (lookup key c.store) [
  | none ↦ (none, c)
  | some (expires, value) ↦
      if ltb expires now
      then (none, record c { store = erase key c.store })
      else (some value, record c { store = put_last key (expires, value) c.store })
]

unfoldable pub set : ℕ → Text → Text → TtlCache → TtlCache
set now key value c =
    let m = put_last key (now + c.ttl, value) c.store in
    record c { store = if ltb c.maxsize (length m) then pop_first m else m }

unfoldable pub delete : Text → TtlCache → TtlCache
delete key c = record c { store = erase key c.store }

unfoldable pub clear_prefix : Text → TtlCache → TtlCache
clear_prefix prefix c = record c { store = keep (λ e. not (starts_with e.0 prefix)) c.store }
