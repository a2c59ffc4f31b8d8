-- ===== src/Examples/Addresses.antt =====
-- The theorem on scopes, applied.
use twinstudio.Base.{String, ◌≡◌, ◌↔◌, true, false, [], ◌∷◌, ok}
use twinstudio.Uri.{ParsedUrl, UrlLibrary, PoaUri, parse_poa_uri, is_within_scope}
use twinstudio.Uri.Scope.{IsInScope, is_within_scope_iff}

abbrev parsed : String → ParsedUrl
parsed path = record { scheme = "poa"; netloc = "acme"; path = path }

-- addresses of one tenant, given by their paths
abbrev pub urls : UrlLibrary
urls = record { quote = λ safe s. s; unquote = λ s. s; urlparse = λ s. ok (parsed s) }

is_within_scope_iff_example :
    (is_within_scope urls "/lamp@r1/part/lid/face"
        ("/lamp@r1/part/base" ∷ "/lamp@r1/part" ∷ [])
        false
      ≡ ok true)
    ↔ ((a : PoaUri) × (parse_poa_uri urls "/lamp@r1/part/lid/face" ≡ ok a)
        × IsInScope urls false a ("/lamp@r1/part/base" ∷ "/lamp@r1/part" ∷ []))
is_within_scope_iff_example =
    is_within_scope_iff urls false "/lamp@r1/part/lid/face"
      ("/lamp@r1/part/base" ∷ "/lamp@r1/part" ∷ [])
