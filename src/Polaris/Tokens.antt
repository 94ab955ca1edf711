-- ===== src/Polaris/Tokens.antt =====
-- The token manager (manifests/polaris-auth-proxy/polaris_auth_proxy.py). Times are seconds of the
-- monotonic clock; Polaris is a parameter, its reply an argument of every call that may ask for one.
pub mod Fresh
use stardatadblabs.Base.{
  ℕ, ◌+◌, ◌-◌, leb, Text, Bool, true, false, Option, none, some, if◌then◌else◌,
}

-- `_TokenManager`
pub record Manager : Type 0 where
  pub token : Option Text
  pub expires_at : ℕ

abbrev pub new_manager : Manager
new_manager = record { token = none; expires_at = 0 }

-- What `expires_in` of a reply gives: it may be left out, or be no number.
pub data Expiry : Type 0 where
  absent : Expiry
  malformed : Expiry
  seconds : ℕ → Expiry

-- A reply of Polaris: an error, or no reply with a token, or a token.
pub data Reply : Type 0 where
  failed : Reply
  granted : Text → Expiry → Reply

abbrev pub lifetime : Expiry → Option ℕ
lifetime absent = some 3600
lifetime malformed = none
lifetime (seconds n) = some n

abbrev pub stored : Text → ℕ → Option ℕ → Manager → Bool × Manager
stored x now none m = (false, record { token = some x; expires_at = m.expires_at })
stored x now (some n) m = (true, record { token = some x; expires_at = now + n })

-- `_fetch`, with the time at which the reply is there. False is an exception; the token is set
-- before the time to live is read.
unfoldable pub fetch : Reply → ℕ → Manager → Bool × Manager
fetch failed now m = (false, m)
fetch (granted x e) now m = stored x now (lifetime e) m

abbrev pub stale : ℕ → ℕ → Option Text → ℕ → Bool
stale buffer now none expires_at = true
stale buffer now (some x) expires_at = leb expires_at (now + buffer)

abbrev pub token_of : Bool × Manager → Option Text × Manager
token_of (false, m) = (none, m)
token_of (true, m) = (m.token, m)

-- `get_token`, with the time of the test and the time of the reply. None is an exception, or no token.
unfoldable pub get_token : ℕ → ℕ → ℕ → Reply → Manager → Option Text × Manager
unfolding fetch
get_token buffer now later r m =
    if stale buffer now m.token m.expires_at then token_of (fetch r later m) else (m.token, m)

abbrev at_least : ℕ → ℕ → ℕ
at_least n k = if leb n k then k else n

-- The seconds that the background refresh sleeps before a round; another call may run meanwhile.
unfoldable pub refresh_wait : ℕ → ℕ → Manager → ℕ
refresh_wait buffer now m = at_least 30 (m.expires_at - now - buffer)

abbrev pub retry : Bool × Manager → ℕ × Manager
retry (false, m) = (30, m)
retry (true, m) = (0, m)

-- A round of the background refresh, with the seconds that it sleeps after it.
unfoldable pub refresh_round : ℕ → Reply → Manager → ℕ × Manager
unfolding fetch
refresh_round later r m = retry (fetch r later m)
