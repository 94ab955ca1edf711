-- ===== src/Polaris/Headers.antt =====
-- The headers of a request that is passed on (manifests/polaris-auth-proxy/polaris_auth_proxy.py).
pub mod Bearer
use stardatadblabs.Base.{
  Text, codes, text_eq, lower, not, ◌&&◌, Bool, List, [], ◌∷◌, ◌++◌, any, if◌then◌else◌,
}
use stardatadblabs.Base.Dict.{Dict, insert}

abbrev pub hop_by_hop : List Text
hop_by_hop =
    codes "connection"
    ∷ codes "keep-alive"
    ∷ codes "proxy-authenticate"
    ∷ codes "proxy-authorization"
    ∷ codes "te"
    ∷ codes "trailers"
    ∷ codes "transfer-encoding"
    ∷ codes "upgrade"
    ∷ []

abbrev pub is_hop : Text → Bool
is_hop k = any (λ h. text_eq h (lower k)) hop_by_hop

abbrev pub is_kept : Text → Bool
is_kept k = not (is_hop k) && not (text_eq (lower k) (codes "authorization"))

-- The comprehension over `self.headers.items()`; a header that comes again replaces the first.
unfoldable pub kept_headers : List (Text × Text) → Dict Text → Dict Text
unfolding insert lower
kept_headers [] d = d
kept_headers ((k, v) ∷ hs) d = kept_headers hs (if is_kept k then insert k v d else d)

-- The headers of `_forward` up to the length of the body, from the token of the manager.
unfoldable pub forward_headers : Text → List (Text × Text) → Dict Text
unfolding kept_headers
forward_headers token hs =
    insert (codes "X-Iceberg-Access-Delegation") (codes "false")
      (insert (codes "Authorization") (codes "Bearer " ++ token) (kept_headers hs []))
