-- ===== src/Gateway/Answers.antt =====
-- What the handlers of pkg/gateway write: a status and a body, as `writeJSON` and `openAIError` make
-- them.
use ai_peer.Base.{String, Bool, ℤ, ℕ, List, Map}
use ai_peer.Dataplane.Tables.{Amount, Balance}
use ai_peer.X402.{PaymentRequired}
use ai_peer.Gateway.Records.{UsageEvent}

-- The values of a JSON object. An amount is counted in units of 10 ^ -6 USDC.
pub data Field : Type 0 where
  text : String → Field
  flag : Bool → Field
  number : ℕ → Field
  amount : ℤ → Field
  float_amount : Amount → Field
  balance : Balance → Field
  events : List UsageEvent → Field

pub data Body : Type 0 where
  object : Map Field → Body
  openai_error : String → Body
  payment_required : PaymentRequired → Body
  plain : String → Body

pub record Answer : Type 0 where
  pub status : ℕ
  pub body : Body

abbrev pub write_json : ℕ → Map Field → Answer
write_json status fields = record { status = status; body = object fields }

abbrev pub write_error : ℕ → String → Answer
write_error status message = record { status = status; body = openai_error message }
