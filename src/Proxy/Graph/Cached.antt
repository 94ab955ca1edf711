-- ===== src/Proxy/Graph/Cached.antt =====
-- What the graphs that Memgraph still has do to the answers
-- (docker/duckdb/stargraph_sql_proxy.py).
use stardatadblabs.Base.{ℕ, ◌≡◌, refl, sym, ap, ◌∙◌, Text, Option, none, some, List, [], ◌∷◌}
use stardatadblabs.Proxy.Cypher.{build_merge_and_query_cypher}
use stardatadblabs.Proxy.Graph.{
  SqlRequest, Record, DuckReply, refused, failed, answered, Services, Envelope, envelope, Answer,
  cached, loaded, resolved_sql, scope_of, label_of, answer_of, stamped, merged,
  load_and_query_memgraph, load_reply, after_check, check_if, graph_of, sql_to_graph,
}

-- The envelope of a cached answer, if it is one, and that of a loaded one.
abbrev cached_of : Answer → Option Envelope
cached_of (cached e) = some e
cached_of _ = none

abbrev pub loaded_of : Answer → Option Envelope
loaded_of (loaded e) = some e
loaded_of _ = none

pub none_some : {P : Type 0} {e : Envelope} → ◌≡◌ {A = Option Envelope} none (some e) → P
none_some h = absurd (cc h)

module _ (V : Services) where
  -- A load answers with no graph of the cache.
  load_uncached :
      (now : ℕ) (sql : Text) (s : V.State) (r : DuckReply)
      → cached_of (load_reply V now sql s r).0 ≡ none
  unfolding load_and_query_memgraph
  load_uncached now sql s (refused status) = refl
  load_uncached now sql s failed = refl
  load_uncached now sql s (answered cols []) = refl
  load_uncached now sql s (answered cols (row ∷ rows)) = by_merge _ _ _ _
    where
      by_match : (s : V.State) (o : Option (List Record)) → cached_of (answer_of V s o).0 ≡ none
      by_match s none = refl
      by_match s (some rs) = refl

      by_stamp :
          (q : Text) (s : V.State) (o : Option V.State) → cached_of (stamped V q s o).0 ≡ none
      by_stamp q s none = refl
      by_stamp q s (some s') = by_match s' (V.run_match q s')

      by_merge :
          (q scope label : Text) (o : Option V.State)
          → cached_of (merged V now q scope label s o).0 ≡ none
      by_merge q scope label none = refl
      by_merge q scope label (some s') = by_stamp q s' (V.set_stamp label scope now s')

  after_check_any :
      (now : ℕ) (sql : Text) (p p' : List Text) (c : Option Envelope × V.State) (e : Envelope)
      → (after_check V now sql p c).0 ≡ cached e
      → after_check V now sql p' c ≡ after_check V now sql p c
  after_check_any now sql p p' (some f, s) e h = refl
  after_check_any now sql p p' (none, s) e h =
      none_some (sym (load_uncached now sql s (V.query sql p)) ∙ ap cached_of h)

  graph_of_any :
      (ttl now : ℕ) (p p' : List Text) (s : V.State) (o : Option Text) (e : Envelope)
      → (graph_of V ttl now p s o).0 ≡ cached e
      → graph_of V ttl now p' s o ≡ graph_of V ttl now p s o
  graph_of_any ttl now p p' s none e h = none_some (ap cached_of h)
  graph_of_any ttl now p p' s (some sql) e h =
      after_check_any now sql p p' (check_if V ttl now sql s) e h

  -- If a request is answered from the cache, every request with the same SQL gets the same answer and
  -- leaves the same state, whatever its parameters are.
  pub sql_to_graph_any_parameters :
      (ttl now : ℕ) (q q' : SqlRequest) (s : V.State) (e : Envelope)
      → resolved_sql V q' ≡ resolved_sql V q
      → (sql_to_graph V ttl now q s).0 ≡ cached e
      → sql_to_graph V ttl now q' s ≡ sql_to_graph V ttl now q s
  unfolding sql_to_graph
  sql_to_graph_any_parameters ttl now q q' s e same h =
      ap (graph_of V ttl now q'.parameters s) same
      ∙ graph_of_any ttl now q.parameters q'.parameters s (resolved_sql V q) e h

  -- What a loaded answer comes from: the rows that DuckDB answered, and the records of its query.
  abbrev pub IsLoaded : ℕ → Text → List Text → V.State → Envelope → V.State → Type 0
  IsLoaded now sql p s e s' =
      (cols : List Text) × (row : List Text) × (rows : List (List Text)) × (s1 : V.State)
      × (records : List Record) × (V.query sql p ≡ answered cols (row ∷ rows))
      × (V.set_stamp (label_of V sql) (scope_of V sql) now s1 ≡ some s')
      × (V.run_match (build_merge_and_query_cypher cols (scope_of V sql) (label_of V sql)).1 s'
          ≡ some records)
      × (e ≡ envelope records)

  pub load-IsLoaded :
      (now : ℕ) (sql : Text) (p : List Text) (s : V.State) (r : DuckReply) (e : Envelope)
      (s' : V.State)
      → V.query sql p ≡ r
      → load_reply V now sql s r ≡ (loaded e, s')
      → IsLoaded now sql p s e s'
  unfolding load_and_query_memgraph
  load-IsLoaded now sql p s (refused status) e s' k h = none_some (ap (λ a. loaded_of a.0) h)
  load-IsLoaded now sql p s failed e s' k h = none_some (ap (λ a. loaded_of a.0) h)
  load-IsLoaded now sql p s (answered cols []) e s' k h = none_some (ap (λ a. loaded_of a.0) h)
  load-IsLoaded now sql p s (answered cols (row ∷ rows)) e s' k h =
      by_merge (V.merge _ cols (row ∷ rows) s) h
    where
      by_match :
          (s1 s2 : V.State) (o : Option (List Record))
          → V.set_stamp (label_of V sql) (scope_of V sql) now s1 ≡ some s2
          → V.run_match (build_merge_and_query_cypher cols (scope_of V sql) (label_of V sql)).1 s2
            ≡ o
          → answer_of V s2 o ≡ (loaded e, s')
          → IsLoaded now sql p s e s'
      by_match s1 s2 none f g h = none_some (ap (λ a. loaded_of a.0) h)
      by_match s1 s2 (some records) f g h =
          let last : s2 ≡ s' = ap (λ a. a.1) h in
          (
            cols,
            row,
            rows,
            s1,
            records,
            k,
            f ∙ ap some last,
            ap (V.run_match (build_merge_and_query_cypher cols (scope_of V sql) (label_of V sql)).1)
                  (sym last)
                ∙ g,
            some_eq (sym (ap (λ a. loaded_of a.0) h)),
          )
        where
          some_eq : {a b : Envelope} → ◌≡◌ {A = Option Envelope} (some a) (some b) → a ≡ b
          some_eq q = cc q

      by_stamp :
          (s1 : V.State) (o : Option V.State)
          → V.set_stamp (label_of V sql) (scope_of V sql) now s1 ≡ o
          → stamped V (build_merge_and_query_cypher cols (scope_of V sql) (label_of V sql)).1 s1 o
            ≡ (loaded e, s')
          → IsLoaded now sql p s e s'
      by_stamp s1 none f h = none_some (ap (λ a. loaded_of a.0) h)
      by_stamp s1 (some s2) f h = by_match s1 s2 (V.run_match _ s2) f refl h

      by_merge :
          (o : Option V.State)
          → merged V now
              (build_merge_and_query_cypher cols (scope_of V sql) (label_of V sql)).1
              (scope_of V sql)
              (label_of V sql)
              s
              o
            ≡ (loaded e, s')
          → IsLoaded now sql p s e s'
      by_merge none h = none_some (ap (λ a. loaded_of a.0) h)
      by_merge (some s1) h = by_stamp s1 (V.set_stamp _ _ now s1) refl h
