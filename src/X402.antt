-- ===== src/X402.antt =====
-- pkg/x402spike/eip712.go: the payment messages of the x402 protocol. The untyped `Extra` and
-- `Extensions` maps, which the source only carries along, are maps of texts.
use ai_peer.Base.{ℤ, String, Bool, false, List, [], Map}

pub record ResourceInfo : Type 0 where
  pub url : String
  pub description : String
  pub mime_type : String

pub record PaymentRequirements : Type 0 where
  pub scheme : String
  pub network : String
  pub amount : String
  pub asset : String
  pub pay_to : String
  pub max_timeout_seconds : ℤ
  pub extra : Map String

pub record PaymentRequired : Type 0 where
  pub x402_version : ℤ
  pub error : String
  pub resource : ResourceInfo
  pub accepts : List PaymentRequirements
  pub extensions : Map String

pub record Authorization : Type 0 where
  pub from : String
  pub to : String
  pub value : String
  pub valid_after : String
  pub valid_before : String
  pub nonce : String

pub record ExactEvmPayload : Type 0 where
  pub signature : String
  pub authorization : Authorization

pub record PaymentPayload : Type 0 where
  pub x402_version : ℤ
  pub resource : ResourceInfo
  pub accepted : PaymentRequirements
  pub payload : ExactEvmPayload
  pub extensions : Map String

pub record SettlementResponse : Type 0 where
  pub success : Bool
  pub error_reason : String
  pub payer : String
  pub transaction : String
  pub network : String
  pub extensions : Map String

abbrev pub no_settlement : SettlementResponse
no_settlement = record {
  success = false;
  error_reason = "";
  payer = "";
  transaction = "";
  network = "";
  extensions = [];
}
