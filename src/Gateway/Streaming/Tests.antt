-- ===== src/Gateway/Streaming/Tests.antt =====
-- Streams of one node.
use ai_peer.Base.{
  some, none, String, Bool, true, false, ℤ, ℕ, pos, List, [], ◌∷◌, ◌++◌, map, ◌≡◌, refl,
}
use ai_peer.Wire.{InferenceStreamChunk}
use ai_peer.Gateway.Pricing.{ChatRequest, estimate_input_tokens, at_least}
use ai_peer.Gateway.Streaming.Relay.{chunk, broken, relay_first_remote}
use ai_peer.Gateway.Streaming.Relaying.{shown, contents, stream_with_end, stream_without_end}

abbrev piece : String → Bool → ℤ → InferenceStreamChunk
piece content done tokens = record {
  request_id = "gw-1";
  model = "llama3";
  content = content;
  tokens_used = tokens;
  done = done;
  ok = true;
  error_message = "";
}

abbrev hello : ChatRequest
hello = record {
  model = "llama3";
  messages = record { role = "user"; content = "hello" } ∷ [];
  stream = true;
  max_tokens = none;
  temperature = none;
}

abbrev always : ℕ → Bool
always n = true

abbrev more : List InferenceStreamChunk
more = piece "lo" false (pos 0) ∷ piece ", " false (pos 0) ∷ []

stream_with_end_example :
    shown (
      relay_first_remote always hello
        (piece "Hel" false (pos 0))
        (map chunk more ++ (chunk (piece "you" true (pos 5)) ∷ broken ∷ [])))
    ≡ (
      true,
      pos (estimate_input_tokens (some hello)),
      at_least (pos 0) (pos 5),
      "Hel" ∷ (contents more ++ ("you" ∷ [])),
    )
stream_with_end_example =
    stream_with_end always hello (λ n. refl) (piece "Hel" false (pos 0)) more
      (piece "you" true (pos 5)) (broken ∷ []) (refl, refl) ((refl, refl), ((refl, refl), tt)) refl
      refl

stream_without_end_example :
    shown (relay_first_remote always hello (piece "Hel" false (pos 0)) (map chunk more))
    ≡ (true, pos 0, pos 0, "Hel" ∷ contents more)
stream_without_end_example =
    stream_without_end always hello (λ n. refl) (piece "Hel" false (pos 0)) more (refl, refl)
      ((refl, refl), ((refl, refl), tt))
