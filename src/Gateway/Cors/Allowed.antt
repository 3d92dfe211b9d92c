-- ===== src/Gateway/Cors/Allowed.antt =====
-- Only the configured origins are let in, and only to the public pages.
-- The origin that an answer names, if any.
use ai_peer.Base.{String, Option, List, none, some, ◌≡◌, ◌∷◌, trim_space, string_eq, [], ◌≢◌, ◌⊎◌}
use ai_peer.Gateway.Cors.{Answer, with_origin, preflight, passed_on}

abbrev pub granted : Answer → Option String
granted passed_on = none
granted (with_origin origin) = some origin
granted (preflight origin) = some origin

unfoldable pub Configured : String → List String → Type 0
Configured origin [] = ⊥
Configured origin (o ∷ origins) =
    ((trim_space o ≡ origin) × (origin ≢ "")) ⊎ Configured origin origins
