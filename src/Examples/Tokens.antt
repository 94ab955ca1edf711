-- ===== src/Examples/Tokens.antt =====
-- The theorems on the Polaris proxy, on a token that is refreshed and a caller with an own token.
use stardatadblabs.Base.{ℕ, ◌+◌, ◌<◌, ◌≡◌, refl, ◌⊎◌, Text, codes, some, List, [], ◌∷◌, ◌++◌, arith}
use stardatadblabs.Base.Dict.{lookup}
use stardatadblabs.Polaris.Tokens.{
  Expiry, absent, seconds, failed, granted, get_token, refresh_round,
}
use stardatadblabs.Polaris.Tokens.Fresh.{Event, asked, refreshed, run, get_token-IsFresh}
use stardatadblabs.Polaris.Headers.{forward_headers}
use stardatadblabs.Polaris.Headers.Bearer.{IsPassed, forward_headers-IsPassed}

abbrev day : List Event
day =
    asked 10 11 (granted (codes "a") absent)
    ∷ refreshed 3401 (granted (codes "b") (seconds 900))
    ∷ []

abbrev valid_until : Text → ℕ
valid_until x = 5000

get_token-IsFresh_example :
    (3500 + 300 < valid_until (codes "b")) ⊎ ((e : Expiry) × (failed ≡ granted (codes "b") e))
unfolding get_token refresh_round run
get_token-IsFresh_example =
    get_token-IsFresh valid_until 300 day 3500 3501 failed (codes "b")
      ((3600, refl, omega arith), ((900, refl, omega arith), tt)) refl

abbrev sent : List (Text × Text)
sent = (codes "AUTHORIZATION", codes "Bearer mine") ∷ (codes "Accept", codes "json") ∷ []

forward_headers-IsPassed_example :
    (lookup (codes "Authorization") (forward_headers (codes "t") sent)
      ≡ some (codes "Bearer " ++ codes "t"))
    × ((k v : Text)
        → lookup k (forward_headers (codes "t") sent) ≡ some v
        → IsPassed (codes "t") k v)
forward_headers-IsPassed_example = forward_headers-IsPassed (codes "t") sent
