-- ===== src/Gateway/Cors.antt =====
-- pkg/gateway/cors.go: which cross-origin requests of a browser are answered.
pub mod Allowed
-- The texts of the set that the middleware builds, without the spaces around them.
use ai_peer.Registry.{is_empty}
use ai_peer.Base.{
  List, String, ◌∷◌, if◌then◌else◌, trim_space, Bool, ◌==◌, not, any, ◌||◌, [], string_eq,
}

unfoldable pub allowed_set : List String → List String
allowed_set [] = []
allowed_set (o ∷ origins) =
    let rest = allowed_set origins in
    let origin = trim_space o in if origin == "" then rest else origin ∷ rest

unfoldable pub explorer_cors_path : String → Bool
explorer_cors_path path = path == "/health" || path == "/v1/models" || path == "/v1/network/nodes"

-- What the middleware does with a request: hand it on as it is, hand it on with the headers for the
-- origin, or answer the preflight itself.
pub data Answer : Type 0 where
  passed_on : Answer
  with_origin : String → Answer
  preflight : String → Answer

unfoldable pub cors_answer : List String → String → String → String → Answer
cors_answer allowed path origin_header method =
    let origin = trim_space origin_header in
    if not (explorer_cors_path path)
    then passed_on
    else if origin == ""
    then passed_on
    else if not (any (λ o. o == origin) allowed)
    then passed_on
    else if method == "OPTIONS"
    then preflight origin
    else with_origin origin

-- Without any allowed origin the middleware is left out.
unfoldable pub explorer_cors_middleware : List String → String → String → String → Answer
explorer_cors_middleware origins path origin_header method =
    let allowed = allowed_set origins in
    if is_empty allowed then passed_on else cors_answer allowed path origin_header method
