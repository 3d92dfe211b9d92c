-- ===== src/Gateway/Sessions/Billing.antt =====
-- A prepaid chat request from its reservation to its charge, on the store of Dataplane.
use ai_peer.Dataplane.Store.{postgres_store}
use ai_peer.Gateway.Sessions.Coverage.{estimate_prepaid_reserve_positive}
use ai_peer.Dataplane.Faults.{never}
use ai_peer.Dataplane.Prepaid.Once.{own_key, first_reserve, first_finalize}
use ai_peer.Gateway.Pricing.{ChatRequest}
use ai_peer.Dataplane.Prepaid.{charge_of, ReserveResult}
use ai_peer.Dataplane.Tables.{Tables, Reservation, ok}
use ai_peer.Gateway.Sessions.{
  begin_prepaid_reservation, finalize_prepaid_reservation, begin_for, finalize_with,
  PrepaidChargeSession, begin_answer, is_prepaid, asked, compute_prepaid_charge,
  estimate_prepaid_reserve, proceed,
}
use ai_peer.Gateway.Proxy.{Proxy, ControlStore}
use ai_peer.Gateway.Records.{ApiKeyPrincipal}
use ai_peer.Base.{
  ℤ, String, Bool, ◌-ℤ◌, true, lookup, pos, is_some, ◌+ℤ◌, ◌<ℤ◌, Option, ◌≡◌, some, int_laws, refl,
  arith, ◌≤ℤ◌, none, ap, ◌∙◌,
}
use ai_peer.Dataplane.Prepaid.Settling.{settled_tables}
use ai_peer.Dataplane.Prepaid.Moves.{reserved_tables, balance_of, reserve_row}

abbrev pub session_of : ApiKeyPrincipal → String → ℤ → PrepaidChargeSession
session_of principal r reserve = record {
  enabled = true;
  consumer_id = principal.consumer_id;
  request_id = r;
  reserved_usdc = reserve;
}

-- The cap is applied by the gateway and again by the store.
charge_of-asked :
    (reserved charge : ℤ) (success : Bool)
    → pos 0 <ℤ reserved
    → charge_of reserved (asked reserved charge success) success ≡ charge_of reserved charge success
charge_of-asked reserved charge success h = ground arith

begin_lem :
    (p : Proxy Tables) (store : ControlStore Tables) (principal : ApiKeyPrincipal)
    (req : Option ChatRequest) (r : String) (t t' : Tables) (res : ReserveResult)
    → p.control_store ≡ some store
    → is_prepaid principal ≡ true
    → store.reserve_prepaid principal.consumer_id r (estimate_prepaid_reserve p req) t
      ≡ (t', ok res)
    → res.approved ≡ true
    → begin_prepaid_reservation p r (some principal) req t
      ≡ (t', proceed (some (session_of principal r res.reserved_usdc)))
unfolding begin_prepaid_reservation begin_for begin_answer
begin_lem p store principal req r t t' res e kind answer agreed =
    rw (kind, e) (rw (answer, agreed) refl)

finalize_lem :
    (p : Proxy Tables) (store : ControlStore Tables) (session : PrepaidChargeSession)
    (req : Option ChatRequest) (completion : ℤ) (success : Bool) (t : Tables)
    → p.control_store ≡ some store
    → session.enabled ≡ true
    → finalize_prepaid_reservation p (some session) req completion success t
      ≡ (store.finalize_prepaid session.consumer_id session.request_id
          (asked session.reserved_usdc (compute_prepaid_charge p req completion) success)
          success
          t).0
unfolding finalize_prepaid_reservation finalize_with compute_prepaid_charge
    ai_peer.Gateway.Sessions.resolve_prepaid_token_pricing
finalize_lem p store session req completion success t e on = rw (on, e) refl

reserved_row :
    (c r : String) (amount b : ℤ) (t : Tables)
    → lookup r (reserved_tables c r amount b t).reservations ≡ some (reserve_row c amount)
unfolding reserved_tables
reserved_row c r amount b t = own_key r _ t.reservations

reserved_balance :
    (c r : String) (amount b : ℤ) (t : Tables)
    → lookup c (reserved_tables c r amount b t).balances ≡ some (b -ℤ amount)
unfolding reserved_tables
reserved_balance c r amount b t = own_key c _ t.balances

reserved_consumer :
    (c r : String) (amount b : ℤ) (t : Tables)
    → is_some (lookup c t.consumers) ≡ true
    → is_some (lookup c (reserved_tables c r amount b t).consumers) ≡ true
unfolding reserved_tables
reserved_consumer c r amount b t k = k

settled_balance :
    (c r : String) (row : Reservation) (b charge : ℤ) (t : Tables)
    → balance_of c (settled_tables c r row b charge t) ≡ b +ℤ row.reserved_usdc -ℤ charge
unfolding settled_tables balance_of
settled_balance c r row b charge t =
    rw (own_key c (b +ℤ row.reserved_usdc -ℤ charge) t.balances) refl

net : (b reserve charge : ℤ) → b -ℤ reserve +ℤ reserve -ℤ charge ≡ b -ℤ charge
net b reserve charge = grind int_laws

-- What a prepaid request needs of the store: money, an account, and an id that is new.
pub record Funded (principal : ApiKeyPrincipal) (reserve : ℤ) (r : String) (b : ℤ) (t : Tables)
    : Type 0 where
  pub prepaid : is_prepaid principal ≡ true
  pub covered : reserve ≤ℤ b
  pub new_id : lookup r t.reservations ≡ none
  pub balance : lookup principal.consumer_id t.balances ≡ some b
  pub account : is_some (lookup principal.consumer_id t.consumers) ≡ true

module _ (p : Proxy Tables) (now : ℤ) (principal : ApiKeyPrincipal) (req : Option ChatRequest)
    (r : String) (b : ℤ) (t : Tables) (e : p.control_store ≡ some (postgres_store never now))
    (f : Funded principal (estimate_prepaid_reserve p req) r b t) where
  pub held_session : begin_prepaid_reservation p r (some principal) req t ≡ (
    reserved_tables principal.consumer_id r (estimate_prepaid_reserve p req) b t,
    proceed (some (session_of principal r (estimate_prepaid_reserve p req))),
  )
  held_session =
      begin_lem p (postgres_store never now) principal req r t
        (reserved_tables principal.consumer_id r (estimate_prepaid_reserve p req) b t) _ e f.prepaid
        (first_reserve principal.consumer_id r (estimate_prepaid_reserve p req) b t
          (estimate_prepaid_reserve_positive p req) f.covered f.new_id f.balance f.account)
        refl

  pub settled_session :
      (completion : ℤ) (success : Bool)
      → balance_of principal.consumer_id (
          finalize_prepaid_reservation p
            (some (session_of principal r (estimate_prepaid_reserve p req)))
            req
            completion
            success
            (reserved_tables principal.consumer_id r (estimate_prepaid_reserve p req) b t))
        ≡ b
          -ℤ charge_of
              (estimate_prepaid_reserve p req)
              (compute_prepaid_charge p req completion)
              success
  settled_session completion success =
      let c : String = principal.consumer_id in
      let store = postgres_store never now in
      let reserve : ℤ = estimate_prepaid_reserve p req in
      let actual : ℤ = asked reserve (compute_prepaid_charge p req completion) success in
      let held = reserved_tables c r reserve b t in
      let settled_answer =
        first_finalize c r actual success (reserve_row c reserve) (b -ℤ reserve) held
          (reserved_row c r reserve b t) refl refl (reserved_balance c r reserve b t)
          (reserved_consumer c r reserve b t f.account) in
      ap (balance_of c)
        (finalize_lem p store (session_of principal r reserve) req completion success held e refl)
      ∙ ap (λ x. balance_of c x.0) settled_answer
      ∙ settled_balance c r (reserve_row c reserve) (b -ℤ reserve)
          (charge_of reserve actual success) held
      ∙ net b reserve (charge_of reserve actual success)
      ∙ ap (λ x. b -ℤ x)
          (charge_of-asked reserve (compute_prepaid_charge p req completion) success
            (estimate_prepaid_reserve_positive p req))
