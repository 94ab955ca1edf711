-- ===== src/Masking/Stardata/Revocation.antt =====
-- What comes of revoking the access to an object (masking.py, `_revoke_base_table_from_user`).
use stardatadblabs.Base.{
  Option, some, ◌≡◌, refl, sym, ap, ◌∙◌, ◌⊎◌, inl, inr, Text, text_eq, text_eq_iff, text_eq_refl,
  Bool, true, false, ◌&&◌, ◌||◌, none, if◌then◌else◌, Option-cases, arith,
}
use mathlib.Core.Path.{subst}
use stardatadblabs.Masking.Stardata.{
  Statement, grant_select, revoke_select, Backend, IsLawful, attempt, grant_view_to_user,
  revoke_base_table_from_user,
}

-- A state of the server that another comes to by statements, of which some may fail.
pub data Sent (B : Backend) (s : B.State) : B.State → Type 0 where
  here : Sent B s s
  sent : {s' : B.State} (st : Statement) → Sent B s s' → Sent B s (attempt B st s')

pub Sent-trans : (B : Backend) {a b c : B.State} → Sent B a b → Sent B b c → Sent B a c
Sent-trans B x here = x
Sent-trans B x (sent st y) = sent st (Sent-trans B x y)

pub executed-Sent :
    (B : Backend) (s s' : B.State) (st : Statement) → B.execute s st ≡ some s' → Sent B s s'
unfolding attempt
executed-Sent B s s' st e = subst (Sent B s) (ap (λ o. after o) e) (sent st here)
  where
    after : Option B.State → B.State
    after none = s
    after (some t) = t

-- How the access of a user to an object comes out where it is to be revoked, or not: it is as before,
-- or it is gone, or the server refused a `REVOKE` in between while the user held the privilege, which
-- the source ignores, and it is as before.
module _ (B : Backend) (can_select : B.State → Text → Text → Text → Bool) (d o u : Text) where
  abbrev pub IsRefused : B.State → B.State → Type 0
  IsRefused s s' =
      (t : B.State) × Sent B s t
      × (B.execute t (revoke_select d o u) ≡ none)
      × (can_select t d o u ≡ true)
      × Sent B t s'

  abbrev pub IsAccess : Bool → B.State → B.State → Type 0
  IsAccess false s s' = can_select s' d o u ≡ can_select s d o u
  IsAccess true s s' =
      (can_select s' d o u ≡ false) ⊎ ((can_select s' d o u ≡ can_select s d o u) × IsRefused s s')

  abbrev pub IsRevoked : Bool → B.State → B.State → Type 0
  IsRevoked b s s' = Sent B s s' × IsAccess b s s'

  pub same-IsRevoked : (b : Bool) (s : B.State) → b ≡ false → IsRevoked b s s
  same-IsRevoked true s e = absurd (cc e)
  same-IsRevoked false s e = (here, refl)

  later : (s s1 s2 : B.State) → Sent B s s1 → IsRefused s1 s2 → IsRefused s s2
  later s s1 s2 x (t, y, e, h, z) = (t, Sent-trans B x y, e, h, z)

  earlier : (s s1 s2 : B.State) → IsRefused s s1 → Sent B s1 s2 → IsRefused s s2
  earlier s s1 s2 (t, y, e, h, z) x = (t, y, e, h, Sent-trans B z x)

  pub IsRevoked-trans :
      (a b : Bool) (s s1 s2 : B.State)
      → IsRevoked a s s1
      → IsRevoked b s1 s2
      → IsRevoked (a || b) s s2
  IsRevoked-trans a b s s1 s2 (x, h) (y, k) = (Sent-trans B x y, joined a b h k)
    where
      joined : (a b : Bool) → IsAccess a s s1 → IsAccess b s1 s2 → IsAccess (a || b) s s2
      joined false false h k = k ∙ h
      joined false true h (inl k) = inl k
      joined false true h (inr (k, r)) = inr (k ∙ h, later s s1 s2 x r)
      joined true false (inl h) k = inl (k ∙ h)
      joined true false (inr (h, r)) k = inr (k ∙ h, earlier s s1 s2 r y)
      joined true true h (inl k) = inl k
      joined true true (inl h) (inr (k, r)) = inl (k ∙ h)
      joined true true (inr (h, r)) (inr (k, _)) = inr (k ∙ h, earlier s s1 s2 r y)

  pub IsRevoked-cast : {a b : Bool} (s s' : B.State) → a ≡ b → IsRevoked a s s' → IsRevoked b s s'
  IsRevoked-cast s s' e h = subst (λ c. IsRevoked c s s') e h

  by_equation :
      (b : Bool) (s s' : B.State)
      → can_select s' d o u ≡ (if b then false else can_select s d o u)
      → IsAccess b s s'
  by_equation true s s' h = inl h
  by_equation false s s' h = h

  refused-IsAccess :
      (b : Bool) (s : B.State)
      → (b ≡ true → B.execute s (revoke_select d o u) ≡ none)
      → IsAccess b s s
  refused-IsAccess false s e = refl
  refused-IsAccess true s e = by_access (can_select s d o u) refl
    where
      by_access :
          (c : Bool)
          → can_select s d o u ≡ c
          → (can_select s d o u ≡ false)
            ⊎ ((can_select s d o u ≡ can_select s d o u) × IsRefused s s)
      by_access true h = inr (refl, (s, here, e refl, h, here))
      by_access false h = inl h

module _ (B : Backend) {can : B.State → Text → Text → Text → Bool} (L : IsLawful B can) where
  -- A revocation from a user on an object, seen from any user and object.
  pub revoke-IsRevoked :
      (d o u o' v : Text) (s : B.State)
      → IsRevoked B can d o' v
          (text_eq o o' && text_eq u v)
          s
          (revoke_base_table_from_user B d o u s)
  unfolding revoke_base_table_from_user
  revoke-IsRevoked d o u o' v s = elim (Option-cases (B.execute s (revoke_select d o u))) [
    | inr (s', e) ↦
        rw (e, attempt)
          (
            executed-Sent B s s' (revoke_select d o u) e,
            by_equation B can d o' v (text_eq o o' && text_eq u v) s s'
                (L.revoke_takes s s' d o u d o' v e ∙ rw (text_eq_refl d)),
          )
    | inl e ↦
        rw (e, attempt)
          (
            here,
            refused-IsAccess B can d o' v (text_eq o o' && text_eq u v) s λ both.
                let o-same = (text_eq_iff o o').0 (ground arith) in
                let u-same = (text_eq_iff u v).0 (ground arith) in rw (sym o-same, sym u-same) e,
          )
  ]

-- A grant on a view, which fails or not.
pub grant-Sent :
    (B : Backend) (d o u : Text) (s : B.State) → Sent B s (grant_view_to_user B d o u s)
unfolding grant_view_to_user
grant-Sent B d o u s = sent (grant_select d o u) here
