-- ===== src/Gateway/Models/Tests.antt =====
-- The models of three nodes and of a local backend.
use ai_peer.Base.{String, List, [], ◌∷◌, some, map, In, ◌≡◌, ◌↔◌, ◌⊎◌, refl}
use ai_peer.Gateway.Proxy.{Proxy, new_proxy}
use ai_peer.Gateway.Ranking.Tests.{three}
use ai_peer.Gateway.Models.{Tag, tag_id, tagged, models_listed, handle_models}
use ai_peer.Gateway.Models.Listed.{Rising, SomeHas, Named, nodes_of, handle_models_lem}

abbrev tags : List Tag
tags = record { name = " phi3 "; model = "x" } ∷ record { name = ""; model = "gemma" } ∷ []

abbrev proxy : Proxy Unit
proxy = new_proxy ":8080"

handle_models_lem_example :
    (ids : List String) × (handle_models proxy (some three) (tagged tags) ≡ models_listed ids)
    × Rising ids
    × ((id : String)
        → In id ids ↔ (SomeHas id (nodes_of (some three)) ⊎ Named id (map tag_id tags)))
handle_models_lem_example = handle_models_lem proxy (some three) tags refl

three_listed :
    handle_models proxy (some three) (tagged tags)
    ≡ models_listed ("gemma" ∷ "llama3" ∷ "phi3" ∷ [])
unfolding handle_models ai_peer.Base.sort_by ai_peer.Registry.list_nodes ai_peer.Base.ltb_str
    ai_peer.Base.trim_space
three_listed = refl
