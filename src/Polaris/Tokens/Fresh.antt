-- ===== src/Polaris/Tokens/Fresh.antt =====
-- The tokens that are handed out are valid (manifests/polaris-auth-proxy/polaris_auth_proxy.py).
use stardatadblabs.Base.{
  ℕ, ◌+◌, ◌≤◌, ◌<◌, ◌≡◌, refl, sym, ap, ◌⊎◌, inl, inr, Text, Bool, true, false, Option, none, some,
  List, [], ◌∷◌, arith, if◌then◌else◌,
}
use stardatadblabs.Polaris.Tokens.{
  Manager, new_manager, Expiry, Reply, failed, granted, lifetime, stored, fetch, stale, token_of,
  retry, get_token, refresh_round,
}

-- What happens to a manager: a call of `get_token`, or a round of the refresh.
pub data Event : Type 0 where
  asked : ℕ → ℕ → Reply → Event
  refreshed : ℕ → Reply → Event

abbrev pub step : ℕ → Manager → Event → Manager
step buffer m (asked now later r) = (get_token buffer now later r m).1
step buffer m (refreshed later r) = (refresh_round later r m).1

unfoldable pub run : ℕ → Manager → List Event → Manager
unfolding get_token refresh_round
run buffer m [] = m
run buffer m (e ∷ es) = run buffer (step buffer m e) es

module _ (valid_until : Text → ℕ) where
  -- A reply that gives a token no longer than it is valid.
  abbrev pub IsTruthful : ℕ → Reply → Type 0
  IsTruthful later failed = Unit
  IsTruthful later (granted x e) = (n : ℕ) × (lifetime e ≡ some n) × (later + n ≤ valid_until x)

  abbrev pub IsHonest : Event → Type 0
  IsHonest (asked now later r) = IsTruthful later r
  IsHonest (refreshed later r) = IsTruthful later r

  abbrev pub AllHonest : List Event → Type 0
  AllHonest [] = Unit
  AllHonest (e ∷ es) = IsHonest e × AllHonest es

  -- The token of a manager is valid as long as the manager believes.
  abbrev pub IsKept : Manager → Type 0
  IsKept m = (x : Text) → m.token ≡ some x → m.expires_at ≤ valid_until x

  stored-IsKept :
      (x : Text) (later n : ℕ) (o : Option ℕ) (m : Manager)
      → o ≡ some n
      → later + n ≤ valid_until x
      → IsKept (stored x later o m).1
  stored-IsKept x later n none m e h = λ y q. absurd (cc e)
  stored-IsKept x later n (some k) m e h = λ y q. by_token y (cc q) (cc e)
    where
      by_token : (y : Text) → x ≡ y → k ≡ n → later + k ≤ valid_until y
      by_token y q e = rw (sym q) (rw e h)

  fetch-IsKept :
      (r : Reply) (later : ℕ) (m : Manager)
      → IsTruthful later r
      → IsKept m
      → IsKept (fetch r later m).1
  unfolding fetch
  fetch-IsKept failed later m t k = k
  fetch-IsKept (granted x e) later m (n, q, h) k = stored-IsKept x later n (lifetime e) m q h

  token_of-state : (c : Bool × Manager) → (token_of c).1 ≡ c.1
  token_of-state (true, m) = refl
  token_of-state (false, m) = refl

  retry-state : (c : Bool × Manager) → (retry c).1 ≡ c.1
  retry-state (true, m) = refl
  retry-state (false, m) = refl

  step-IsKept :
      (buffer : ℕ) (m : Manager) (e : Event) → IsHonest e → IsKept m → IsKept (step buffer m e)
  unfolding get_token refresh_round
  step-IsKept buffer m (asked now later r) t k = by_age (stale buffer now m.token m.expires_at)
    where
      by_age : (b : Bool) → IsKept (if b then token_of (fetch r later m) else (m.token, m)).1
      by_age true = rw (token_of-state (fetch r later m)) (fetch-IsKept r later m t k)
      by_age false = k
  step-IsKept buffer m (refreshed later r) t k =
      rw (retry-state (fetch r later m)) (fetch-IsKept r later m t k)

  run-IsKept :
      (buffer : ℕ) (m : Manager) (es : List Event)
      → AllHonest es
      → IsKept m
      → IsKept (run buffer m es)
  unfolding run
  run-IsKept buffer m [] t k = k
  run-IsKept buffer m (e ∷ es) (t, ts) k =
      run-IsKept buffer (step buffer m e) es ts (step-IsKept buffer m e t k)

  stored_token :
      (x y : Text) (later : ℕ) (o : Option ℕ) (m : Manager)
      → (token_of (stored x later o m)).0 ≡ some y
      → x ≡ y
  stored_token x y later none m q = absurd (cc q)
  stored_token x y later (some n) m q = cc q

  -- A token that a call returns was given to it by Polaris, or is valid for longer than the buffer.
  fetched_token :
      (r : Reply) (later : ℕ) (m : Manager) (x : Text)
      → (token_of (fetch r later m)).0 ≡ some x
      → (e : Expiry) × (r ≡ granted x e)
  unfolding fetch
  fetched_token failed later m x q = absurd (cc q)
  fetched_token (granted y e) later m x q =
      (e, ap (λ z. granted z e) (stored_token y x later (lifetime e) m q))

  kept_token :
      (buffer now : ℕ) (o : Option Text) (expires_at : ℕ) (x : Text)
      → stale buffer now o expires_at ≡ false
      → o ≡ some x
      → now + buffer < expires_at
  kept_token buffer now none expires_at x b q = absurd (cc q)
  kept_token buffer now (some y) expires_at x b q = ground arith

  -- If the replies of Polaris so far give every token a time to live that is a number and that ends no
  -- later than the token, get_token returns a token that the reply to this very call gives, or one
  -- that is valid for longer than the buffer.
  pub get_token-IsFresh :
      (buffer : ℕ) (es : List Event) (now later : ℕ) (r : Reply) (x : Text)
      → AllHonest es
      → (get_token buffer now later r (run buffer new_manager es)).0 ≡ some x
      → (now + buffer < valid_until x) ⊎ ((e : Expiry) × (r ≡ granted x e))
  unfolding get_token
  get_token-IsFresh buffer es now later r x t =
      by_age (run buffer new_manager es) (run-IsKept buffer new_manager es t (λ y q. absurd (cc q)))
        _ refl
    where
      by_age :
          (m : Manager)
          → IsKept m
          → (b : Bool) → stale buffer now m.token m.expires_at ≡ b
          → (if b then token_of (fetch r later m) else (m.token, m)).0 ≡ some x
          → (now + buffer < valid_until x) ⊎ ((e : Expiry) × (r ≡ granted x e))
      by_age m k true a q = inr (fetched_token r later m x q)
      by_age m k false a q =
          let early = kept_token buffer now m.token m.expires_at x a q in
          let kept = k x q in inl (omega arith)
