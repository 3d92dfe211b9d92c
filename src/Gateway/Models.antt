-- ===== src/Gateway/Models.antt =====
-- `handleModels` of pkg/gateway/openai_proxy.go: the models that the local backend and the registry's
-- nodes have. What the backend answers is a parameter. The map of models that have been seen is a list
-- without repetitions.
pub mod Listed
mod Tests
use ai_peer.Base.{
  String, Bool, false, ℕ, Option, none, some, List, [], ◌∷◌, if◌then◌else◌, ◌==◌, string_eq, not,
  any, trim_space, sort_by, ltb_str,
}
use ai_peer.Registry.{Registry, NodeRecord, list_nodes}
use ai_peer.Gateway.Proxy.{Proxy}
use ai_peer.Gateway.Answers.{Answer, write_error}

pub record Tag : Type 0 where
  pub name : String
  pub model : String

-- The backend's answer, or the status and the message that the client is given.
pub data Tags : Type 0 where
  tagged : List Tag → Tags
  tags_failed : ℕ → String → Tags

pub data ModelsReply : Type 0 where
  models_listed : List String → ModelsReply
  models_refused : Answer → ModelsReply

abbrev pub tag_id : Tag → String
tag_id t = if t.name == "" then t.model else t.name

-- seen[strings.TrimSpace(raw)] = struct{}{}, unless that is empty
unfoldable pub see : String → List String → List String
see raw seen =
    let id = trim_space raw in
    if id == "" then seen else if any (λ k. k == id) seen then seen else id ∷ seen

unfoldable pub see_tags : List Tag → List String → List String
unfolding see
see_tags [] seen = seen
see_tags (t ∷ tags) seen = see_tags tags (see (tag_id t) seen)

unfoldable pub see_models : List String → List String → List String
unfolding see
see_models [] seen = seen
see_models (model ∷ models) seen = see_models models (see model seen)

unfoldable pub see_records : List NodeRecord → List String → List String
unfolding see_models
see_records [] seen = seen
see_records (rec ∷ recs) seen = see_records recs (see_models rec.models seen)

unfoldable pub see_registry : Option Registry → List String → List String
unfolding see_records
see_registry none seen = seen
see_registry (some reg) seen = see_records (list_nodes reg) seen

abbrev pub list_seen : Option Registry → List String → ModelsReply
list_seen reg seen = models_listed (sort_by ltb_str (see_registry reg seen))

unfoldable pub handle_models : {S : Type 0} → Proxy S → Option Registry → Tags → ModelsReply
unfolding see_tags see_registry
handle_models p reg tags = if not p.local_backend_enabled then list_seen reg [] else elim tags [
  | tagged ts ↦ list_seen reg (see_tags ts [])
  | tags_failed status message ↦ models_refused (write_error status message)
]
