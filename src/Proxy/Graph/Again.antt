-- ===== src/Proxy/Graph/Again.antt =====
-- A query that is asked again while its graph is fresh (docker/duckdb/stargraph_sql_proxy.py).
use stardatadblabs.Base.{
  ℕ, ◌+◌, ◌≤◌, ◌<◌, ◌≡◌, ◌≢◌, refl, sym, ap, ◌∙◌, ◌⊎◌, inl, inr, ltb, Text, Bool, true, false,
  Option, none, some, List, [], ◌∷◌, arith, if◌then◌else◌,
}
use stardatadblabs.Proxy.Cypher.{
  edge_query, node_query, edge_columns, cyphers_for, build_merge_and_query_cypher,
}
use stardatadblabs.Proxy.Graph.{
  SqlRequest, Record, answered, Services, Envelope, envelope, cached, loaded, resolved_sql,
  scope_of, label_of, read_graph, check_stamp, check_memgraph_cache, after_check, check_if,
  graph_of, sql_to_graph,
}
use stardatadblabs.Proxy.Graph.Cached.{IsLoaded, load-IsLoaded, loaded_of, none_some}

-- What the proxy relies on: the two texts of queries are the two queries that the cache asks, and a
-- stamp is read back unless there is nothing of the scope.
pub record IsLawful (V : Services) : Type 0 where
  pub edges_text :
      (label scope : Text) (s : V.State)
      → V.run_match (edge_query label scope) s ≡ V.match_edges label scope s
  pub nodes_text :
      (label scope : Text) (s : V.State)
      → V.run_match (node_query label scope) s ≡ V.match_nodes label scope s
  pub stamp_read :
      (label scope : Text) (t : ℕ) (s s' : V.State)
      → V.set_stamp label scope t s ≡ some s'
      → (V.stamps label scope s' ≡ some (some t ∷ []))
        ⊎ ((V.match_edges label scope s' ≡ some []) × (V.match_nodes label scope s' ≡ some []))

not_nil :
    {r : Record} {rs : List Record} → ◌≡◌ {A = Option (List Record)} (some []) (some (r ∷ rs)) → ⊥
not_nil h = cc h

module _ (V : Services) (lawful : IsLawful V) where
  -- The records of a load are what the cache reads, and there are some of the scope.
  read_back :
      (cols : List Text) (label scope : Text) (o : Option (Text × Text)) (r : Record)
      (rs : List Record) (s : V.State)
      → V.run_match (cyphers_for cols scope label o).1 s ≡ some (r ∷ rs)
      → (o ≡ none → V.match_edges label scope s ≡ some [])
      → (read_graph V (V.match_edges label scope s) (V.match_nodes label scope s)
          ≡ some (envelope (r ∷ rs)))
        × ¬ ((V.match_edges label scope s ≡ some []) × (V.match_nodes label scope s ≡ some []))
  read_back cols label scope none r rs s h quiet =
      let nodes : V.match_nodes label scope s ≡ some (r ∷ rs) =
        sym (lawful.nodes_text label scope s) ∙ h in
      (
        ap (λ m. read_graph V m (V.match_nodes label scope s)) (quiet refl)
            ∙ ap (read_graph V (some [])) nodes,
        λ k. not_nil (sym k.1 ∙ nodes),
      )
  read_back cols label scope (some (a, b)) r rs s h quiet =
      let edges : V.match_edges label scope s ≡ some (r ∷ rs) =
        sym (lawful.edges_text label scope s) ∙ h in
      (ap (λ m. read_graph V m (V.match_nodes label scope s)) edges, λ k. not_nil (sym k.0 ∙ edges))

  fresh :
      (ttl now now' : ℕ) (scope label : Text) (s : V.State)
      → now' ≤ now + ttl
      → check_stamp V ttl now' scope label s (some (some now ∷ []))
        ≡ (read_graph V (V.match_edges label scope s) (V.match_nodes label scope s), s)
  fresh ttl now now' scope label s h = by_age _ (ltb (now + ttl) now') (ground arith)
    where
      by_age :
          (P : Option Envelope × V.State) (b : Bool)
          → b ≡ false
          → (if b
              then P
              else (read_graph V (V.match_edges label scope s) (V.match_nodes label scope s), s))
            ≡ (read_graph V (V.match_edges label scope s) (V.match_nodes label scope s), s)
      by_age P true e = cc e
      by_age P false e = refl

  -- Reading the graph of a load again.
  load-check :
      (ttl now now' : ℕ) (sql : Text) (p : List Text) (s : V.State) (e : Envelope) (s' : V.State)
      → 0 < ttl
      → now' ≤ now + ttl
      → e.columns ≢ []
      → IsLoaded V now sql p s e s'
      → ((cols : List Text) (rows : List (List Text))
          → V.query sql p ≡ answered cols rows
          → edge_columns cols ≡ none
          → V.match_edges (label_of V sql) (scope_of V sql) s' ≡ some [])
      → check_if V ttl now' sql s' ≡ (some e, s')
  unfolding check_memgraph_cache build_merge_and_query_cypher envelope
  load-check ttl now now' sql p s e s' pos early full (cols, row, rows, s1, [], k, f, g, h) quiet =
      absurd (full (ap (λ x. x.columns) h))
  load-check ttl now now' sql p s e s' pos early full (cols, row, rows, s1, r ∷ rs, k, f, g, h)
        quiet =
      let (graph, some_left) =
        read_back cols (label_of V sql) (scope_of V sql) (edge_columns cols) r rs s' g
          (quiet cols (row ∷ rows) k) in
      let stamp : V.stamps (label_of V sql) (scope_of V sql) s' ≡ some (some now ∷ []) =
        elim (lawful.stamp_read (label_of V sql) (scope_of V sql) now s1 s' f) [
          | inl e ↦ e
          | inr nothing ↦ absurd (some_left nothing)
        ] in
      let open_cache : ltb 0 ttl ≡ true = ground arith in
      ap
        (λ b.
          if b
          then check_memgraph_cache V ttl now' (scope_of V sql) (label_of V sql) s'
          else (none, s'))
        open_cache
      ∙ (ap (check_stamp V ttl now' (scope_of V sql) (label_of V sql) s') stamp
          ∙ (fresh ttl now now' (scope_of V sql) (label_of V sql) s' early
              ∙ ap (λ o. (o, s')) (graph ∙ ap some (sym h))))

  -- If Memgraph is lawful and a request loads a graph with columns, a request with the same SQL gets
  -- the same columns and rows from the cache while the time to live, which is not 0, is not over, and
  -- changes nothing. If the columns of DuckDB are those of nodes, no edge of the scope may be in
  -- Memgraph.
  pub sql_to_graph_again :
      (ttl now now' : ℕ) (q q' : SqlRequest) (sql : Text) (s : V.State) (e : Envelope)
      (s' : V.State)
      → 0 < ttl
      → now' ≤ now + ttl
      → resolved_sql V q ≡ some sql
      → resolved_sql V q' ≡ some sql
      → sql_to_graph V ttl now q s ≡ (loaded e, s')
      → e.columns ≢ []
      → ((cols : List Text) (rows : List (List Text))
          → V.query sql q.parameters ≡ answered cols rows
          → edge_columns cols ≡ none
          → V.match_edges (label_of V sql) (scope_of V sql) s' ≡ some [])
      → sql_to_graph V ttl now' q' s' ≡ (cached e, s')
  unfolding sql_to_graph
  sql_to_graph_again ttl now now' q q' sql s e s' pos early r r' h full quiet =
      ap (graph_of V ttl now' q'.parameters s') r'
      ∙ ap (after_check V now' sql q'.parameters) (
          was_loaded (check_if V ttl now sql s)
            (sym (ap (graph_of V ttl now q.parameters s) r) ∙ h))
    where
      was_loaded :
          (c : Option Envelope × V.State)
          → after_check V now sql q.parameters c ≡ (loaded e, s')
          → check_if V ttl now' sql s' ≡ (some e, s')
      was_loaded (some f, s1) k = none_some (ap (λ a. loaded_of a.0) k)
      was_loaded (none, s1) k =
          load-check ttl now now' sql q.parameters s1 e s' pos early full
            (load-IsLoaded V now sql q.parameters s1 (V.query sql q.parameters) e s' refl k) quiet
