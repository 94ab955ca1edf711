-- ===== src/Proxy/Tree/Sorted.antt =====
-- The namespaces of the tree are sorted and distinct (docker/duckdb/stargraph_sql_proxy.py).
use stardatadblabs.Base.{
  ◌≡◌, refl, ap, ◌∙◌, ◌||◌, Text, text_eq, text_eq_iff, Bool, true, false, List, [], ◌∷◌, arith,
  if◌then◌else◌,
}
use stardatadblabs.Proxy.Groups.{Groups, has_key, IsGrouped}
use stardatadblabs.Proxy.Tree.{TableEntry, text_leb, insert_sorted, sorted_items}

-- A namespace that is not after the next one.
abbrev pub IsFirst : Text × List TableEntry → Groups Text TableEntry → Type 0
IsFirst e [] = Unit
IsFirst e (f ∷ d) = text_leb e.0 f.0 ≡ true

abbrev pub IsSorted : Groups Text TableEntry → Type 0
IsSorted [] = Unit
IsSorted (e ∷ d) = IsFirst e d × IsSorted d

text_leb_total : (s t : Text) → text_leb s t ≡ false → text_leb t s ≡ true
unfolding text_leb
text_leb_total [] t h = absurd (cc h)
text_leb_total (c ∷ s) [] h = refl
text_leb_total (c ∷ s) (d ∷ t) h = ground (arith, text_leb_total s t, h)

insert_sorted-IsFirst :
    (f e : Text × List TableEntry) (d : Groups Text TableEntry)
    → text_leb f.0 e.0 ≡ true
    → IsFirst f d
    → IsFirst f (insert_sorted e d)
unfolding insert_sorted
insert_sorted-IsFirst f e [] h k = h
insert_sorted-IsFirst f e (g ∷ d) h k = by_order (text_leb e.0 g.0)
  where
    by_order : (b : Bool) → IsFirst f (if b then e ∷ g ∷ d else g ∷ insert_sorted e d)
    by_order true = h
    by_order false = k

insert_sorted-IsSorted :
    (e : Text × List TableEntry) (d : Groups Text TableEntry)
    → IsSorted d
    → IsSorted (insert_sorted e d)
unfolding insert_sorted
insert_sorted-IsSorted e [] s = (tt, tt)
insert_sorted-IsSorted e (f ∷ d) (k, s) =
    by_order (text_leb e.0 f.0) refl (insert_sorted-IsSorted e d s)
  where
    by_order :
        (b : Bool)
        → text_leb e.0 f.0 ≡ b
        → IsSorted (insert_sorted e d)
        → IsSorted (if b then e ∷ f ∷ d else f ∷ insert_sorted e d)
    by_order true q ih = (q, (k, s))
    by_order false q ih = (insert_sorted-IsFirst f e d (text_leb_total e.0 f.0 q) k, ih)

pub sorted_items-IsSorted : (d : Groups Text TableEntry) → IsSorted (sorted_items d)
unfolding sorted_items
sorted_items-IsSorted [] = tt
sorted_items-IsSorted (e ∷ d) = insert_sorted-IsSorted e (sorted_items d) (sorted_items-IsSorted d)

abbrev pub Distinct : Groups Text TableEntry → Type 0
Distinct d = IsGrouped text_eq text_eq_iff d

abbrev names : Text → Groups Text TableEntry → Bool
names k d = has_key text_eq text_eq_iff k d

has_key-insert_sorted :
    (k : Text) (e : Text × List TableEntry) (d : Groups Text TableEntry)
    → names k (insert_sorted e d) ≡ text_eq e.0 k || names k d
unfolding insert_sorted
has_key-insert_sorted k e [] = refl
has_key-insert_sorted k e (f ∷ d) = ground (arith, has_key-insert_sorted k e d)

has_key-sorted_items :
    (k : Text) (d : Groups Text TableEntry) → names k (sorted_items d) ≡ names k d
unfolding sorted_items
has_key-sorted_items k [] = refl
has_key-sorted_items k (e ∷ d) =
    has_key-insert_sorted k e (sorted_items d)
    ∙ ap (λ b. text_eq e.0 k || b) (has_key-sorted_items k d)

new_name :
    (f e : Text × List TableEntry) (d : Groups Text TableEntry)
    → names e.0 (f ∷ d) ≡ false
    → names f.0 d ≡ false
    → names f.0 (insert_sorted e d) ≡ false
new_name f e d n m =
    ground (arith, has_key-insert_sorted f.0 e d, text_eq_iff e.0 f.0, text_eq_iff f.0 e.0, n, m)

insert_sorted-Distinct :
    (e : Text × List TableEntry) (d : Groups Text TableEntry)
    → names e.0 d ≡ false
    → Distinct d
    → Distinct (insert_sorted e d)
unfolding insert_sorted
insert_sorted-Distinct e [] n g = (n, tt)
insert_sorted-Distinct e (f ∷ d) n (m, g) =
    by_order (text_leb e.0 f.0) n (insert_sorted-Distinct e d (ground (arith, n)) g)
  where
    by_order :
        (b : Bool)
        → names e.0 (f ∷ d) ≡ false
        → Distinct (insert_sorted e d)
        → Distinct (if b then e ∷ f ∷ d else f ∷ insert_sorted e d)
    by_order true n ih = (n, (m, g))
    by_order false n ih = (new_name f e d n m, ih)

pub sorted_items-Distinct : (d : Groups Text TableEntry) → Distinct d → Distinct (sorted_items d)
unfolding sorted_items
sorted_items-Distinct [] g = tt
sorted_items-Distinct (e ∷ d) (n, g) =
    insert_sorted-Distinct e (sorted_items d) (has_key-sorted_items e.0 d ∙ n)
      (sorted_items-Distinct d g)
