-- ===== src/Gateway/Streaming/Relaying.antt =====
-- What a remote stream shows the client and what it bills.
use ai_peer.Base.{
  some, String, Bool, true, false, ℤ, ℕ, pos, suc, List, [], ◌∷◌, ◌++◌, map, All, ◌≡◌, ◌∙◌, refl,
  ap, ◌∙◌,
}
use ai_peer.Wire.{InferenceStreamChunk}
use ai_peer.Gateway.Pricing.{ChatRequest, estimate_input_tokens, at_least}
use ai_peer.Gateway.Streaming.Relay.{
  Frame, chunk, Relayed, relay_remote, relay_first_remote, model_after,
}

abbrev pub contents : List InferenceStreamChunk → List String
contents cs = map (λ c. c.content) cs

-- The success, the two counts of tokens and the contents that the client has got.
abbrev pub shown : Relayed → Bool × ℤ × ℤ × List String
shown r = (r.success, r.prompt_tokens, r.completion_tokens, map (λ e. e.content) r.events)

-- A chunk that is not the last.
abbrev pub Going : InferenceStreamChunk → Type 0
Going c = (c.ok ≡ true) × (c.done ≡ false)

abbrev pub add_content : String → Bool × ℤ × ℤ × List String → Bool × ℤ × ℤ × List String
add_content content s = (s.0, s.1, s.2, content ∷ s.3)

module _ (takes : ℕ → Bool) (req : ChatRequest) (taken : (n : ℕ) → takes n ≡ true) where
  next_shown :
      (n : ℕ) (model : String) (c : InferenceStreamChunk)
      (frames : List (Frame InferenceStreamChunk))
      → Going c
      → shown (relay_remote takes req n model (chunk c ∷ frames))
        ≡ add_content c.content
            (shown (relay_remote takes req (suc n) (model_after model c.model) frames))
  unfolding relay_remote
  next_shown n model c frames (is_ok, is_open) = rw (is_ok, taken n, is_open) refl

  first_shown :
      (c : InferenceStreamChunk) (frames : List (Frame InferenceStreamChunk))
      → Going c
      → shown (relay_first_remote takes req c frames)
        ≡ add_content c.content
            (shown (relay_remote takes req 1 (model_after req.model c.model) frames))
  unfolding relay_first_remote
  first_shown c frames (is_ok, is_open) = rw (taken 0, is_open) refl

  relay_closed :
      (n : ℕ) (model : String) (cs : List InferenceStreamChunk) (end : InferenceStreamChunk)
      (tail : List (Frame InferenceStreamChunk))
      → All Going cs
      → end.ok ≡ true
      → end.done ≡ true
      → shown (relay_remote takes req n model (map chunk cs ++ (chunk end ∷ tail))) ≡ (
        true,
        pos (estimate_input_tokens (some req)),
        at_least (pos 0) end.tokens_used,
        contents cs ++ (end.content ∷ []),
      )
  unfolding relay_remote
  relay_closed n model [] end tail h is_ok is_done = rw (is_ok, taken n, is_done) refl
  relay_closed n model (c ∷ cs) end tail (g, h) is_ok is_done =
      next_shown n model c (map chunk cs ++ (chunk end ∷ tail)) g
      ∙ ap (add_content c.content)
          (relay_closed (suc n) (model_after model c.model) cs end tail h is_ok is_done)

  relay_unclosed :
      (n : ℕ) (model : String) (cs : List InferenceStreamChunk)
      → All Going cs
      → shown (relay_remote takes req n model (map chunk cs)) ≡ (true, pos 0, pos 0, contents cs)
  unfolding relay_remote
  relay_unclosed n model [] h = refl
  relay_unclosed n model (c ∷ cs) (g, h) =
      next_shown n model c (map chunk cs) g
      ∙ ap (add_content c.content) (relay_unclosed (suc n) (model_after model c.model) cs h)

  -- A remote stream whose first chunks are in order and not the last, and which then has a last one, is
  -- shown to a client that takes every event in full and in order, up to that chunk and no further;
  -- it succeeds, and what it reports for billing is the estimate of the request's prompt and, as output,
  -- all the tokens that the last chunk names, or zero where these are negative.
  pub stream_with_end :
      (first : InferenceStreamChunk) (cs : List InferenceStreamChunk) (end : InferenceStreamChunk)
      (tail : List (Frame InferenceStreamChunk))
      → Going first
      → All Going cs
      → end.ok ≡ true
      → end.done ≡ true
      → shown (relay_first_remote takes req first (map chunk cs ++ (chunk end ∷ tail))) ≡ (
        true,
        pos (estimate_input_tokens (some req)),
        at_least (pos 0) end.tokens_used,
        first.content ∷ (contents cs ++ (end.content ∷ [])),
      )
  stream_with_end first cs end tail g h is_ok is_done =
      first_shown first (map chunk cs ++ (chunk end ∷ tail)) g
      ∙ ap (add_content first.content)
          (relay_closed 1 (model_after req.model first.model) cs end tail h is_ok is_done)

  -- A remote stream that stops after chunks that are in order, without a last one, is shown in full to a
  -- client that takes every event, and succeeds, but reports no tokens at all.
  pub stream_without_end :
      (first : InferenceStreamChunk) (cs : List InferenceStreamChunk)
      → Going first
      → All Going cs
      → shown (relay_first_remote takes req first (map chunk cs))
        ≡ (true, pos 0, pos 0, first.content ∷ contents cs)
  stream_without_end first cs g h =
      first_shown first (map chunk cs) g
      ∙ ap (add_content first.content) (relay_unclosed 1 (model_after req.model first.model) cs h)
