-- ===== src/Catalog/Cache/Laws.antt =====
-- The cache of database.py keeps its bound, forgets what has expired and evicts its first entry, while
-- an entry that is read goes to the end.
use stardatadblabs.Base.{
  ℕ, ◌+◌, ◌≤◌, ◌<◌, ◌≡◌, refl, sym, ap, ◌∙◌, Text, text_eq, text_eq_iff, text_eq_refl, starts_with,
  Bool, not, none, some, List, [], ◌∷◌, ◌++◌, keep, length, length-append, ltb, arith,
  if◌then◌else◌, Option-cases, inl, inr,
}
use stardatadblabs.Catalog.Cache.{
  Entry, TtlCache, lookup, erase, put_last, pop_first, get, set, delete, clear_prefix,
}

abbrev pub NodupKeys : List Entry → Type 0
NodupKeys [] = Unit
NodupKeys (e ∷ m) = (lookup e.0 m ≡ none) × NodupKeys m

-- No key stands twice, and there are no more than `maxsize` entries.
pub record IsValid (c : TtlCache) : Type 0 where
  pub nodup : NodupKeys c.store
  pub bounded : length c.store ≤ c.maxsize

lookup-erase :
    (j k : Text) (m : List Entry)
    → NodupKeys m
    → lookup j (erase k m) ≡ (if text_eq k j then none else lookup j m)
unfolding lookup erase
lookup-erase j k [] h = ground arith
lookup-erase j k (e ∷ m) h =
    ground (arith, lookup-erase j k m h.1, text_eq_iff k j, text_eq_iff e.0 k, text_eq_iff e.0 j)

lookup-erase-none : (j k : Text) (m : List Entry) → lookup j m ≡ none → lookup j (erase k m) ≡ none
unfolding lookup erase
lookup-erase-none j k [] h = refl
lookup-erase-none j k (e ∷ m) h = ground (arith, lookup-erase-none j k m)

lookup-snoc :
    (j : Text) (m : List Entry) (e : Entry)
    → lookup j (m ++ (e ∷ []))
      ≡ elim (lookup j m) [ some v ↦ some v | none ↦ if text_eq e.0 j then some e.1 else none ]
unfolding lookup
lookup-snoc j [] e = refl
lookup-snoc j (x ∷ m) e = ground (arith, lookup-snoc j m e)

erase-NodupKeys : (k : Text) (m : List Entry) → NodupKeys m → NodupKeys (erase k m)
unfolding erase
erase-NodupKeys k [] h = tt
erase-NodupKeys k (e ∷ m) h = ground (arith, erase-NodupKeys k m h.1, lookup-erase-none e.0 k m h.0)

snoc-NodupKeys :
    (m : List Entry) (e : Entry) → NodupKeys m → lookup e.0 m ≡ none → NodupKeys (m ++ (e ∷ []))
unfolding lookup
snoc-NodupKeys [] e h n = (refl, tt)
snoc-NodupKeys (x ∷ m) e h n =
    ground
      (arith, snoc-NodupKeys m e h.1, lookup-snoc x.0 m e, text_eq_iff x.0 e.0, text_eq_iff e.0 x.0)

length-erase_le : (k : Text) (m : List Entry) → length (erase k m) ≤ length m
unfolding erase
length-erase_le k [] = omega arith
length-erase_le k (e ∷ m) = ground (arith, length-erase_le k m)

length-erase :
    (k : Text) (m : List Entry) (v : ℕ × Text)
    → lookup k m ≡ some v
    → length (erase k m) + 1 ≡ length m
unfolding erase lookup
length-erase k [] v h = cc
length-erase k (e ∷ m) v h = ground (arith, length-erase k m v)

put_last-NodupKeys :
    (k : Text) (v : ℕ × Text) (m : List Entry) → NodupKeys m → NodupKeys (put_last k v m)
put_last-NodupKeys k v m h =
    snoc-NodupKeys (erase k m) (k, v) (erase-NodupKeys k m h)
      (lookup-erase k k m h ∙ rw (text_eq_refl k))

lookup-put_last :
    (j k : Text) (v : ℕ × Text) (m : List Entry)
    → NodupKeys m
    → lookup j (put_last k v m) ≡ (if text_eq k j then some v else lookup j m)
lookup-put_last j k v m h = ground (arith, lookup-snoc j (erase k m) (k, v), lookup-erase j k m h)

pop_first-NodupKeys : (m : List Entry) → NodupKeys m → NodupKeys (pop_first m)
pop_first-NodupKeys [] h = tt
pop_first-NodupKeys (e ∷ m) h = h.1

length-put_last :
    (k : Text) (v : ℕ × Text) (m : List Entry) → length (put_last k v m) ≤ length m + 1
length-put_last k v m = omega (arith, length-append (erase k m) ((k, v) ∷ []), length-erase_le k m)

pop_first_bound :
    (m : List Entry) (n : ℕ)
    → length m ≤ n + 1
    → length (if ltb n (length m) then pop_first m else m) ≤ n
pop_first_bound [] n h = ground arith
pop_first_bound (e ∷ m) n h = ground arith

set-IsValid : (now : ℕ) (k v : Text) (c : TtlCache) → IsValid c → IsValid (set now k v c)
unfolding set
set-IsValid now k v c h =
    let m = put_last k (now + c.ttl, v) c.store in
    let d : NodupKeys m = put_last-NodupKeys k (now + c.ttl, v) c.store h.nodup in
    record {
      nodup = ground (arith, pop_first-NodupKeys m d);
      bounded =
          pop_first_bound m c.maxsize (omega (arith, length-put_last k (now + c.ttl, v) c.store));
    }

get-IsValid : (now : ℕ) (k : Text) (c : TtlCache) → IsValid c → IsValid (get now k c).1
unfolding get
get-IsValid now k c h = elim (Option-cases (lookup k c.store)) [
  | inl e ↦ rw (e, get) h
  | inr (v, e) ↦
      rw (e, get)
        (ground (
          arith,
          erase-NodupKeys k c.store h.nodup,
          put_last-NodupKeys k v c.store h.nodup,
          length-erase k c.store v e,
          length-append (erase k c.store) ((k, v) ∷ []),
        ))
]

delete-IsValid : (k : Text) (c : TtlCache) → IsValid c → IsValid (delete k c)
unfolding delete
delete-IsValid k c h = record {
  nodup = erase-NodupKeys k c.store h.nodup;
  bounded = omega (arith, length-erase_le k c.store);
}

lookup-keep :
    (prefix j : Text) (m : List Entry)
    → lookup j (keep (λ e. not (starts_with e.0 prefix)) m)
      ≡ (if starts_with j prefix then none else lookup j m)
unfolding lookup
lookup-keep prefix j [] = ground arith
lookup-keep prefix j (e ∷ m) = ground (arith, lookup-keep prefix j m, text_eq_iff e.0 j)

keep-NodupKeys :
    (prefix : Text) (m : List Entry)
    → NodupKeys m
    → NodupKeys (keep (λ e. not (starts_with e.0 prefix)) m)
keep-NodupKeys prefix [] h = tt
keep-NodupKeys prefix (e ∷ m) h =
    ground (arith, keep-NodupKeys prefix m h.1, lookup-keep prefix e.0 m)

length-keep_le : (p : Entry → Bool) (m : List Entry) → length (keep p m) ≤ length m
length-keep_le p [] = omega arith
length-keep_le p (e ∷ m) = ground (arith, length-keep_le p m)

clear_prefix-IsValid : (prefix : Text) (c : TtlCache) → IsValid c → IsValid (clear_prefix prefix c)
unfolding clear_prefix
clear_prefix-IsValid prefix c h = record {
  nodup = keep-NodupKeys prefix c.store h.nodup;
  bounded = omega (arith, length-keep_le (λ e. not (starts_with e.0 prefix)) c.store);
}

-- Every operation keeps the keys distinct and the entries within the cache's size.
pub operations-IsValid :
    (now : ℕ) (k v : Text) (c : TtlCache)
    → IsValid c
    → IsValid (get now k c).1
      × IsValid (set now k v c)
      × IsValid (delete k c)
      × IsValid (clear_prefix k c)
operations-IsValid now k v c h = (
  get-IsValid now k c h,
  set-IsValid now k v c h,
  delete-IsValid k c h,
  clear_prefix-IsValid k c h,
)

erase_absent : (k : Text) (m : List Entry) → lookup k m ≡ none → erase k m ≡ m
unfolding erase lookup
erase_absent k [] h = refl
erase_absent k (e ∷ m) h = ground (arith, erase_absent k m)

-- A new key that is written to a full cache displaces the first entry and no other.
set-full :
    (now : ℕ) (k v : Text) (c : TtlCache) (e : Entry) (m : List Entry)
    → c.store ≡ e ∷ m
    → length (e ∷ m) ≡ c.maxsize
    → lookup k c.store ≡ none
    → (set now k v c).store ≡ m ++ ((k, (now + c.ttl, v)) ∷ [])
unfolding set
set-full now k v c e m s full absent =
    rw (erase_absent k c.store absent, s)
      (ground (arith, length-append m ((k, (now + c.ttl, v)) ∷ [])))

get_hit :
    (now : ℕ) (k : Text) (c : TtlCache) (expires : ℕ) (v : Text)
    → lookup k c.store ≡ some (expires, v)
    → now ≤ expires
    → (get now k c).1 ≡ record c { store = put_last k (expires, v) c.store }
unfolding get
get_hit now k c expires v found fresh = rw (found, get) (ground arith)

-- If a valid cache is full, a key in it that is not over is read and then a new key is set, the entry
-- that is evicted is the first of the others. The rest of them keep their order, and after them stand
-- the key that was read and the new key.
pub set-get_evicts :
    (now later : ℕ) (k k' v' : Text) (c : TtlCache) (expires : ℕ) (v : Text) (e : Entry)
    (m : List Entry)
    → IsValid c
    → length c.store ≡ c.maxsize
    → lookup k c.store ≡ some (expires, v)
    → now ≤ expires
    → lookup k' c.store ≡ none
    → erase k c.store ≡ e ∷ m
    → (set later k' v' (get now k c).1).store
      ≡ (m ++ ((k, (expires, v)) ∷ [])) ++ ((k', (later + c.ttl, v')) ∷ [])
set-get_evicts now later k k' v' c expires v e m valid full found fresh absent others =
    let read = record c { store = put_last k (expires, v) c.store } in
    let moved : read.store ≡ e ∷ (m ++ ((k, (expires, v)) ∷ [])) =
      ap (λ l. l ++ ((k, (expires, v)) ∷ [])) others in
    ap (λ x. (set later k' v' x).store) (get_hit now k c expires v found fresh)
    ∙ set-full later k' v' read e (m ++ ((k, (expires, v)) ∷ [])) moved
        (ap length (sym moved) ∙ (same_length ∙ full))
        (lookup-put_last k' k (expires, v) c.store valid.nodup ∙ ground (arith, text_eq_iff k k'))
  where
    same_length : length (put_last k (expires, v) c.store) ≡ length c.store
    same_length = omega (
      arith,
      length-append (erase k c.store) ((k, (expires, v)) ∷ []),
      length-erase k c.store (expires, v) found,
    )

lookup-pop_first :
    (k : Text) (v : ℕ × Text) (m : List Entry)
    → lookup k m ≡ none
    → 0 < length m
    → lookup k (pop_first (m ++ ((k, v) ∷ []))) ≡ some v
unfolding lookup
lookup-pop_first k v [] absent room = absurd (omega arith)
lookup-pop_first k v (e ∷ m) absent room = ground (arith, lookup-snoc k m (k, v), text_eq_refl k)

lookup-set_self :
    (now : ℕ) (k v : Text) (c : TtlCache)
    → IsValid c
    → 0 < c.maxsize
    → lookup k (set now k v c).store ≡ some (now + c.ttl, v)
unfolding set
lookup-set_self now k v c h room = ground (
  arith,
  lookup-put_last k k (now + c.ttl, v) c.store h.nodup,
  text_eq_refl k,
  lookup-erase k k c.store h.nodup,
  lookup-pop_first k (now + c.ttl, v) (erase k c.store),
  length-append (erase k c.store) ((k, (now + c.ttl, v)) ∷ []),
)

-- A value that was written is read back until its time to live has passed, and not afterwards.
pub get-set_self :
    (now later : ℕ) (k v : Text) (c : TtlCache)
    → IsValid c
    → 0 < c.maxsize
    → (get later k (set now k v c)).0 ≡ (if ltb (now + c.ttl) later then none else some v)
unfolding get
get-set_self now later k v c h room = rw (lookup-set_self now k v c h room, get) (ground arith)

-- After a prefix is cleared no key with that prefix is found, and every other key is found as
-- before.
pub get-clear_prefix :
    (now : ℕ) (prefix j : Text) (c : TtlCache)
    → (get now j (clear_prefix prefix c)).0
      ≡ (if starts_with j prefix then none else (get now j c).0)
unfolding get clear_prefix
get-clear_prefix now prefix j c = ground (arith, lookup-keep prefix j c.store)
