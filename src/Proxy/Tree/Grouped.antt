-- ===== src/Proxy/Tree/Grouped.antt =====
-- The tree has every table in its namespace with its columns (docker/duckdb/stargraph_sql_proxy.py).
use stardatadblabs.Base.{
  ◌≡◌, refl, sym, ap, ◌∙◌, ◌↔◌, ◌⊎◌, inl, inr, Text, codes, text_eq, text_eq_iff, text_eq_refl, ◌≢◌,
  Bool, true, false, some, List, [], ◌∷◌, ◌++◌, map, keep, In, arith, if◌then◌else◌,
}
use mathlib.Core.Path.{subst}
use stardatadblabs.Proxy.Groups.{
  IsGrouped, Filled, group-Filled, get_list-In, Groups, get_list, get_list-group, group-IsGrouped,
  In-get_list,
}
use stardatadblabs.Proxy.Tree.{
  TableRow, ColumnRow, TableEntry, same_table, column_entry, col_index, table_entry, ns_map,
  text_leb, insert_sorted, sorted_items, get_catalog,
}
use stardatadblabs.Proxy.Tree.Sorted.{
  Distinct, IsSorted, sorted_items-Distinct, sorted_items-IsSorted,
}

same_table_iff : (a b : TableRow) → (same_table a b ≡ true) ↔ (a ≡ b)
unfolding same_table
same_table_iff a b = ground (
  arith,
  text_eq_iff a.catalog b.catalog,
  text_eq_iff a.schema b.schema,
  text_eq_iff a.table b.table,
)

In-insert_sorted :
    (e f : Text × List TableEntry) (d : Groups Text TableEntry)
    → In e (insert_sorted f d)
    → (e ≡ f) ⊎ In e d
unfolding insert_sorted
In-insert_sorted e f [] m = m
In-insert_sorted e f (g ∷ d) m = by_order (text_leb f.0 g.0) m (In-insert_sorted e f d)
  where
    by_order :
        (b : Bool)
        → In e (if b then f ∷ g ∷ d else g ∷ insert_sorted f d)
        → (In e (insert_sorted f d) → (e ≡ f) ⊎ In e d)
        → (e ≡ f) ⊎ In e (g ∷ d)
    by_order true m ih = m
    by_order false (inl q) ih = inr (inl q)
    by_order false (inr m) ih = elim (ih m) [ inl q ↦ inl q | inr i ↦ inr (inr i) ]

In-sorted_items :
    (e : Text × List TableEntry) (d : Groups Text TableEntry) → In e (sorted_items d) → In e d
unfolding sorted_items
In-sorted_items e [] m = m
In-sorted_items e (f ∷ d) m = elim (In-insert_sorted e f (sorted_items d) m) [
  | inl q ↦ inl q
  | inr i ↦ inr (In-sorted_items e d i)
]

-- The entry of a table, by itself: its columns are the rows of its columns, in order.
abbrev pub entry_of : List ColumnRow → TableRow → TableEntry
entry_of cols r = record {
  name = r.table;
  full_name = r.catalog ++ codes "." ++ r.schema ++ codes "." ++ r.table;
  columns = map column_entry (keep (λ c. same_table c.of_table r) cols);
}

indexed : (cols : List ColumnRow) (r : TableRow) → table_entry (col_index cols) r ≡ entry_of cols r
unfolding col_index get_list
indexed cols r =
    ap
      (λ l. record {
        name = r.table;
        full_name = r.catalog ++ codes "." ++ r.schema ++ codes "." ++ r.table;
        columns = l;
      })
      (get_list-group same_table same_table_iff (λ c. c.of_table) column_entry r cols [])

map_indexed :
    (cols : List ColumnRow) (rows : List TableRow)
    → map (table_entry (col_index cols)) rows ≡ map (entry_of cols) rows
map_indexed cols [] = refl
map_indexed cols (r ∷ rows) =
    ap (λ x. x ∷ map (table_entry (col_index cols)) rows) (indexed cols r)
    ∙ ap (λ l. entry_of cols r ∷ l) (map_indexed cols rows)

insert_sorted-In :
    (e f : Text × List TableEntry) (d : Groups Text TableEntry)
    → (e ≡ f) ⊎ In e d
    → In e (insert_sorted f d)
unfolding insert_sorted
insert_sorted-In e f [] m = m
insert_sorted-In e f (g ∷ d) m = by_order (text_leb f.0 g.0) m (insert_sorted-In e f d)
  where
    by_order :
        (b : Bool)
        → (e ≡ f) ⊎ In e (g ∷ d)
        → ((e ≡ f) ⊎ In e d → In e (insert_sorted f d))
        → In e (if b then f ∷ g ∷ d else g ∷ insert_sorted f d)
    by_order true m ih = m
    by_order false (inl q) ih = inr (ih (inl q))
    by_order false (inr (inl q)) ih = inl q
    by_order false (inr (inr i)) ih = inr (ih (inr i))

sorted_items-In :
    (e : Text × List TableEntry) (d : Groups Text TableEntry) → In e d → In e (sorted_items d)
unfolding sorted_items
sorted_items-In e [] m = m
sorted_items-In e (f ∷ d) (inl q) = insert_sorted-In e f (sorted_items d) (inl q)
sorted_items-In e (f ∷ d) (inr i) =
    insert_sorted-In e f (sorted_items d) (inr (sorted_items-In e d i))

abbrev pub tables_of : List ColumnRow → Text → List TableRow → List TableEntry
tables_of cols ns rows = map (entry_of cols) (keep (λ r. text_eq r.schema ns) rows)

get_list-ns_map :
    (rows : List TableRow) (cols : List ColumnRow) (ns : Text)
    → get_list text_eq ns (ns_map (col_index cols) rows) ≡ tables_of cols ns rows
unfolding ns_map get_list
get_list-ns_map rows cols ns =
    get_list-group text_eq text_eq_iff (λ r. r.schema) (table_entry (col_index cols)) ns rows []
    ∙ map_indexed cols (keep (λ r. text_eq r.schema ns) rows)

not_none :
    (rows : List TableRow) (cols : List ColumnRow) (r : TableRow)
    → In r rows
    → tables_of cols r.schema rows ≢ []
not_none [] cols r m = absurd m
not_none (q ∷ rows) cols r m = by_schema (text_eq q.schema r.schema) refl m (not_none rows cols r)
  where
    by_schema :
        (b : Bool)
        → text_eq q.schema r.schema ≡ b
        → In r (q ∷ rows)
        → (In r rows → tables_of cols r.schema rows ≢ [])
        → map (entry_of cols) (
            if b
            then q ∷ keep (λ x. text_eq x.schema r.schema) rows
            else keep (λ x. text_eq x.schema r.schema) rows)
          ≢ []
    by_schema true e i ih = λ h. cc h
    by_schema false e (inl s) ih =
        absurd (cc (ap (λ x. text_eq x.schema r.schema) (sym s), text_eq_refl r.schema, e))
    by_schema false e (inr i) ih = ih i

-- The tree that is answered: its namespaces are distinct and sorted by name, a namespace in it has
-- exactly the tables whose rows name it, in order, each with exactly its columns in order, and every
-- row of a table names a namespace of it. No namespace is empty.
abbrev pub IsTree : List TableRow → List ColumnRow → Groups Text TableEntry → Type 0
IsTree rows cols t =
    Distinct t
    × IsSorted t
    × ((ns : Text) (entries : List TableEntry) → In (ns, entries) t → entries ≢ [])
    × ((ns : Text) (entries : List TableEntry)
        → In (ns, entries) t
        → entries ≡ tables_of cols ns rows)
    × ((r : TableRow) → In r rows → In (r.schema, tables_of cols r.schema rows) t)

abbrev groups : List TableRow → List ColumnRow → Groups Text TableEntry
groups rows cols = ns_map (col_index cols) rows

groups-IsGrouped :
    (rows : List TableRow) (cols : List ColumnRow)
    → IsGrouped text_eq text_eq_iff (groups rows cols)
unfolding ns_map
groups-IsGrouped rows cols =
    group-IsGrouped text_eq text_eq_iff (λ r. r.schema) (table_entry (col_index cols)) rows [] tt

groups-Filled : (rows : List TableRow) (cols : List ColumnRow) → Filled text_eq (groups rows cols)
unfolding ns_map
groups-Filled rows cols =
    group-Filled text_eq (λ r. r.schema) (table_entry (col_index cols)) rows [] (λ k vs m. absurd m)

sorted_items-IsTree :
    (rows : List TableRow) (cols : List ColumnRow)
    → IsTree rows cols (sorted_items (groups rows cols))
sorted_items-IsTree rows cols = (
  sorted_items-Distinct (groups rows cols) (groups-IsGrouped rows cols),
  sorted_items-IsSorted (groups rows cols),
  λ ns entries m.
      groups-Filled rows cols ns entries (In-sorted_items (ns, entries) (groups rows cols) m),
  λ ns entries m.
      sym (
        In-get_list text_eq text_eq_iff ns entries (groups rows cols) (groups-IsGrouped rows cols)
          (In-sorted_items (ns, entries) (groups rows cols) m))
      ∙ get_list-ns_map rows cols ns,
  λ r m.
      let l = get_list-ns_map rows cols r.schema in
      sorted_items-In (r.schema, tables_of cols r.schema rows) (groups rows cols)
        (subst (λ x. In (r.schema, x) (groups rows cols)) l
          (get_list-In text_eq text_eq_iff r.schema (groups rows cols)
            (λ e. not_none rows cols r m (sym l ∙ e)))),
)

-- From the rows of tables and columns the browser answers with their tree: every schema of a row
-- once, sorted by name, with exactly its tables in the order of the rows, each with exactly its columns
-- in order. There is no other namespace.
pub get_catalog-IsTree :
    (rows : List TableRow) (cols : List ColumnRow)
    → (t : Groups Text TableEntry) × (get_catalog (some rows) (some cols) ≡ some t)
      × IsTree rows cols t
unfolding get_catalog
get_catalog-IsTree rows cols =
    (sorted_items (groups rows cols), refl, sorted_items-IsTree rows cols)
