-- ===== src/Proxy/Groups.antt =====
-- Grouping rows by a key, with `setdefault(key, []).append(…)`, for keys of any type with a test.
use stardatadblabs.Base.{
  ◌≡◌, ◌≢◌, refl, sym, ap, ◌∙◌, ◌↔◌, Bool, true, false, ◌||◌, List, [], ◌∷◌, ◌++◌, map, append-nil,
  append_assoc, keep, any, In, In-any, inl, inr, arith, if◌then◌else◌,
}

abbrev pub Groups : Type 0 → Type 0 → Type 0
Groups K V = List (K × List V)

module _ {K V : Type 0} (eq : K → K → Bool) where
  -- `d.setdefault(k, []).append(v)`
  unfoldable pub append_at : K → V → Groups K V → Groups K V
  append_at k v [] = (k, v ∷ []) ∷ []
  append_at k v ((j, vs) ∷ d) =
      let rest = append_at k v d in if eq j k then (j, vs ++ (v ∷ [])) ∷ d else (j, vs) ∷ rest

  -- `d.get(k, [])`
  unfoldable pub get_list : K → Groups K V → List V
  get_list k [] = []
  get_list k ((j, vs) ∷ d) = let rest = get_list k d in if eq j k then vs else rest

  append_nonempty : (vs : List V) (v : V) → vs ++ (v ∷ []) ≢ []
  append_nonempty [] v h = cc h
  append_nonempty (w ∷ vs) v h = cc h

  -- No group is empty.
  abbrev pub Filled : Groups K V → Type 0
  Filled d = (k : K) (vs : List V) → In (k, vs) d → vs ≢ []

  append_at-Filled : (j : K) (v : V) (d : Groups K V) → Filled d → Filled (append_at j v d)
  unfolding append_at
  append_at-Filled j v [] f k vs (inl e) = λ h. append_nonempty [] v (sym (ap (λ p. p.1) e) ∙ h)
  append_at-Filled j v [] f k vs (inr m) = absurd m
  append_at-Filled j v ((i, ws) ∷ d) f k vs m =
      by_key (eq i j) m (append_at-Filled j v d (λ k' us n. f k' us (inr n)) k vs)
    where
      by_key :
          (b : Bool)
          → In (k, vs) (if b then (i, ws ++ (v ∷ [])) ∷ d else (i, ws) ∷ append_at j v d)
          → (In (k, vs) (append_at j v d) → vs ≢ [])
          → vs ≢ []
      by_key true (inl e) ih = λ h. append_nonempty ws v (sym (ap (λ p. p.1) e) ∙ h)
      by_key true (inr n) ih = f k vs (inr n)
      by_key false (inl e) ih = f k vs (inl e)
      by_key false (inr n) ih = ih n

  module _ {R : Type 0} (key : R → K) (val : R → V) where
    -- `for r in rows: d.setdefault(key(r), []).append(val(r))`
    unfoldable pub group : List R → Groups K V → Groups K V
    unfolding append_at
    group [] d = d
    group (r ∷ rows) d = group rows (append_at (key r) (val r) d)

    pub group-Filled : (rows : List R) (d : Groups K V) → Filled d → Filled (group rows d)
    unfolding group
    group-Filled [] d f = f
    group-Filled (r ∷ rows) d f =
        group-Filled rows (append_at (key r) (val r) d) (append_at-Filled (key r) (val r) d f)

  module _ (eq_iff : (a b : K) → (eq a b ≡ true) ↔ (a ≡ b)) where
    get_list-append_at :
        (k j : K) (v : V) (d : Groups K V)
        → get_list k (append_at j v d) ≡ (if eq j k then get_list k d ++ (v ∷ []) else get_list k d)
    unfolding get_list append_at
    get_list-append_at k j v [] = refl
    get_list-append_at k j v ((i, vs) ∷ d) =
        ground (arith, get_list-append_at k j v d, eq_iff i j, eq_iff i k, eq_iff j k)

    -- The group of a key has what it had and the values of the rows with the key, in order.
    pub get_list-group :
        {R : Type 0} (key : R → K) (val : R → V) (k : K) (rows : List R) (d : Groups K V)
        → get_list k (group key val rows d)
          ≡ get_list k d ++ map val (keep (λ r. eq (key r) k) rows)
    unfolding group
    get_list-group key val k [] d = sym (append-nil (get_list k d))
    get_list-group key val k (r ∷ rows) d =
        get_list-group key val k rows (append_at (key r) (val r) d)
        ∙ (ap (λ l. l ++ map val (keep (λ x. eq (key x) k) rows))
              (get_list-append_at k (key r) (val r) d)
            ∙ by_key (eq (key r) k))
      where
        by_key :
            (b : Bool)
            → (if b then get_list k d ++ (val r ∷ []) else get_list k d)
                ++ map val (keep (λ x. eq (key x) k) rows)
              ≡ get_list k d
                ++ map val
                    (if b then r ∷ keep (λ x. eq (key x) k) rows else keep (λ x. eq (key x) k) rows)
        by_key true = append_assoc (get_list k d) (val r ∷ []) _
        by_key false = refl

    -- The keys of the groups are distinct.
    abbrev pub has_key : K → Groups K V → Bool
    has_key k d = any (λ e. eq e.0 k) d

    abbrev pub IsGrouped : Groups K V → Type 0
    IsGrouped [] = Unit
    IsGrouped ((k, vs) ∷ d) = (has_key k d ≡ false) × IsGrouped d

    has_key-append_at :
        (k j : K) (v : V) (d : Groups K V) → has_key k (append_at j v d) ≡ has_key k d || eq j k
    unfolding append_at
    has_key-append_at k j v [] = ground arith
    has_key-append_at k j v ((i, vs) ∷ d) =
        ground (arith, has_key-append_at k j v d, eq_iff i j, eq_iff i k, eq_iff j k)

    new_key :
        (i j : K) (v : V) (d : Groups K V)
        → has_key i d ≡ false
        → eq i j ≡ false
        → has_key i (append_at j v d) ≡ false
    new_key i j v d new e = ground (arith, has_key-append_at i j v d, eq_iff i j, eq_iff j i)

    branch-IsGrouped :
        (b : Bool) (i j : K) (v : V) (vs : List V) (d : Groups K V)
        → eq i j ≡ b
        → has_key i d ≡ false
        → IsGrouped d
        → IsGrouped (append_at j v d)
        → IsGrouped (if b then (i, vs ++ (v ∷ [])) ∷ d else (i, vs) ∷ append_at j v d)
    branch-IsGrouped true i j v vs d e new g h = (new, g)
    branch-IsGrouped false i j v vs d e new g h = (new_key i j v d new e, h)

    append_at-IsGrouped :
        (j : K) (v : V) (d : Groups K V) → IsGrouped d → IsGrouped (append_at j v d)
    unfolding append_at
    append_at-IsGrouped j v [] g = (refl, tt)
    append_at-IsGrouped j v ((i, vs) ∷ d) (new, g) =
        branch-IsGrouped (eq i j) i j v vs d refl new g (append_at-IsGrouped j v d g)

    pub group-IsGrouped :
        {R : Type 0} (key : R → K) (val : R → V) (rows : List R) (d : Groups K V)
        → IsGrouped d
        → IsGrouped (group key val rows d)
    unfolding group
    group-IsGrouped key val [] d g = g
    group-IsGrouped key val (r ∷ rows) d g =
        group-IsGrouped key val rows (append_at (key r) (val r) d)
          (append_at-IsGrouped (key r) (val r) d g)

    not_head :
        (b : Bool) (j k : K) (ws vs : List V) (d : Groups K V)
        → eq j k ≡ b
        → has_key j d ≡ false
        → In (k, vs) d
        → get_list k d ≡ vs
        → (if b then ws else get_list k d) ≡ vs
    not_head true j k ws vs d e new m h =
        let back : eq k j ≡ true = (eq_iff k j).1 (sym ((eq_iff j k).0 e)) in
        absurd (cc (In-any (λ p. eq p.0 j) (k, vs) d m back, new))
    not_head false j k ws vs d e new m h = h

    -- A group that stands among groups with distinct keys is the one that is found.
    pub In-get_list :
        (k : K) (vs : List V) (d : Groups K V) → IsGrouped d → In (k, vs) d → get_list k d ≡ vs
    unfolding get_list
    In-get_list k vs [] g m = absurd m
    In-get_list k vs ((j, ws) ∷ d) (new, g) (inl e) =
        let same : eq j k ≡ true = (eq_iff j k).1 (sym (ap (λ p. p.0) e)) in
        rw same (sym (ap (λ p. p.1) e))
    In-get_list k vs ((j, ws) ∷ d) (new, g) (inr m) =
        not_head (eq j k) j k ws vs d refl new m (In-get_list k vs d g m)

    -- A list that is not empty stands among the groups under its key.
    pub get_list-In : (k : K) (d : Groups K V) → get_list k d ≢ [] → In (k, get_list k d) d
    unfolding get_list
    get_list-In k [] h = absurd (h refl)
    get_list-In k ((j, vs) ∷ d) h = by_key (eq j k) refl h (get_list-In k d)
      where
        by_key :
            (b : Bool)
            → eq j k ≡ b
            → (if b then vs else get_list k d) ≢ []
            → (get_list k d ≢ [] → In (k, get_list k d) d)
            → In (k, (if b then vs else get_list k d)) ((j, vs) ∷ d)
        by_key true e n ih = inl (ap (λ x. (x, vs)) (sym ((eq_iff j k).0 e)))
        by_key false e n ih = inr (ih n)
