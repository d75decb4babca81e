-- ===== src/Handlers/Trailing.antt =====
-- src/proxy/handlers.rs: what the client of a streamed answer receives: `build_trailing_sse_event`, and
-- the sends of the task that `handle_streaming_response` spawns. The serializer is an argument.
use arbstr.Prelude.{ℕ, ◌++◌, Bool, Option, none, some, String, List, [], ◌∷◌, if◌then◌else◌, ◌&&◌}
use arbstr.Router.Types.{SelectedProvider}
use arbstr.Router.Cost.{F64}
use arbstr.Request.Types.{get_or}
use arbstr.Sse.Json.{Json, Utf8}
use arbstr.Sse.Observer.{ascii}
use arbstr.Handlers.Streaming.{
  Item, chunk, Forward, started, wrap_sse_stream, take_result, forward, complete,
}

-- The entries of the object "arbstr".
pub record Metadata (C : Type 0) : Type 0 where
  pub cost_sats : Option C
  pub latency_ms : ℕ
  pub complexity_score : Option C
  pub tier : Option String

-- `serde_json`: whether `Number::from_f64` takes a number, and `to_string` of the object, in bytes.
pub record EventWriter (C : Type 0) : Type 0 where
  pub is_number : C → Bool
  pub to_string : Metadata C → Option (List ℕ)

module _ {C : Type 0} (w : EventWriter C) where
  -- `and_then` with `Number::from_f64`.
  abbrev pub number_of : Option C → Option C
  number_of none = none
  number_of (some c) = if w.is_number c then some c else none

  -- The `format!` of the event and of the end marker, each with an empty line after it.
  unfoldable pub build_trailing_sse_event : Option C → ℕ → Option C → Option String → List ℕ
  build_trailing_sse_event cost_sats latency_ms complexity_score tier =
      let json_str =
        get_or
          (w.to_string (record {
            cost_sats = number_of cost_sats;
            latency_ms = latency_ms;
            complexity_score = number_of complexity_score;
            tier = tier;
          }))
          [] in
      ascii "data: " ++ (json_str ++ 10 ∷ 10 ∷ (ascii "data: [DONE]" ++ 10 ∷ 10 ∷ []))

module _ (j : Json) (t : Utf8) (f : F64) where
  open f use {Carrier}

  -- The last send, whose failure is ignored.
  send_last : (ℕ → Bool) → List ℕ → Forward → List Item
  send_last accepts event s =
      if s.client_connected && accepts s.sent then s.received ++ chunk event ∷ [] else s.received

  -- All that the client takes out of the channel, until the task drops its end.
  unfoldable pub client_body :
      EventWriter Carrier
      → (ℕ → Bool)
      → List Item
      → SelectedProvider
      → ℕ
      → Option Carrier
      → Option String
      → List Item
  unfolding send_last
  client_body w accepts items p latency_ms complexity_score tier =
      let s = forward j t accepts items (started wrap_sse_stream) in
      let (_, result) = take_result s.observed in
      let row = complete f p s.client_connected result in
      send_last accepts (build_trailing_sse_event w row.cost_sats latency_ms complexity_score tier)
        s
