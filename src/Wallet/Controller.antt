-- ===== src/Wallet/Controller.antt =====
-- `WalletServiceController` of rust/crates/hns-chromium-native-host/src/wallet_abi.rs: the state of
-- one channel to the wallet service, and an exchange on it.
pub mod Negotiate
pub mod Reads
pub mod Keeps
pub mod Invariant
pub mod Sequence
pub mod Exchanges
pub mod Answer
pub mod Refusal
use hns_dane_browser_extensi.Prelude.{
  ℕ, ◌+◌, Bool, true, false, ◌&&◌, ◌||◌, not, Option, none, some, List, ◌==◌, bytes_eq, checked_add,
  if◌then◌else◌,
}
use hns_dane_browser_extensi.Prelude.Result.{Result, ok, err}
use hns_dane_browser_extensi.Prelude.Exec.{
  Exec, pure, raise, lift, gets, modify, reject, ◌>>=◌, ◌>>◌,
}
use hns_dane_browser_extensi.Wallet.Capability.{NegotiatedWalletServiceCapability}
use hns_dane_browser_extensi.Wallet.Lease.{WalletHandshakeNetwork, WalletServiceHnsAuthorityContext}
use hns_dane_browser_extensi.Wallet.Responses.{
  WalletReadOnlyModule, WalletReadOnlyResponse, WalletReadOnlyResponseKind, response_kind,
  WalletServiceErrorCode, WalletServiceFailure, is_protocol_failure, failure_valid, status_kind,
  accounts_kind, balance_kind, target_kind, history_kind, sync_kind,
}

-- `io::Error` by its kind, and a failure of the service by its code. A failure of the system is
-- `system`, with a number for what it was.
pub data ServiceError : Type 0 where
  broken_pipe invalid_input invalid_data permission_denied : ServiceError
  service_failed : WalletServiceErrorCode → ServiceError
  system : ℕ → ServiceError

-- `WalletServiceProcess` by its `child`.
pub data WalletServiceProcess : Type 0 where
  running terminated : WalletServiceProcess

pub record WalletServiceController : Type 0 where
  pub process : Option WalletServiceProcess
  pub host_session_id : List ℕ
  pub service_session_id : List ℕ
  pub restart_generation : ℕ
  pub next_host_sequence : ℕ
  pub next_service_sequence : ℕ
  pub capabilities : List NegotiatedWalletServiceCapability
  pub selected_active_wallet : Option (List ℕ)
  pub selected_hns_account : Option (List ℕ)
  pub poisoned : Bool

-- `WalletReadOnlyServiceRequest`, with the requests that it wraps.
pub data WalletReadOnlyServiceRequest : Type 0 where
  status_request list_accounts_request : WalletReadOnlyServiceRequest
  balance_request receive_target_request history_request :
      WalletReadOnlyModule → List ℕ → WalletReadOnlyServiceRequest
  module_status_request : WalletReadOnlyModule → WalletReadOnlyServiceRequest
  current_hns_context :
      WalletHandshakeNetwork → ℕ → List ℕ → ℕ → WalletReadOnlyModule → WalletReadOnlyServiceRequest

pub data WalletReadOnlyServiceResponse : Type 0 where
  wallet : WalletReadOnlyResponse → WalletReadOnlyServiceResponse
  wallet_authority : WalletServiceHnsAuthorityContext → WalletReadOnlyServiceResponse
  failure : WalletServiceFailure → WalletReadOnlyServiceResponse

-- `WalletServiceResponseKind`
pub data WalletServiceResponseKind : Type 0 where
  wallet_of : WalletReadOnlyResponseKind → WalletServiceResponseKind
  authority_kind : WalletServiceResponseKind

abbrev kind_place : WalletReadOnlyResponseKind → ℕ
kind_place status_kind = 0
kind_place accounts_kind = 1
kind_place balance_kind = 2
kind_place target_kind = 3
kind_place history_kind = 4
kind_place sync_kind = 5

-- `response.kind() == Some(expected)`
unfoldable pub is_of_kind : WalletReadOnlyServiceResponse → WalletServiceResponseKind → Bool
unfolding response_kind
is_of_kind (wallet response) (wallet_of kind) =
    kind_place (response_kind response) == kind_place kind
is_of_kind (wallet response) authority_kind = false
is_of_kind (wallet_authority context) (wallet_of kind) = false
is_of_kind (wallet_authority context) authority_kind = true
is_of_kind (failure f) kind = false

pub record WalletHostRequestEnvelope : Type 0 where
  pub protocol_version : ℕ
  pub host_session_id : List ℕ
  pub service_session_id : List ℕ
  pub restart_generation : ℕ
  pub channel_sequence : ℕ
  pub request_id : List ℕ
  pub body : WalletReadOnlyServiceRequest

pub record WalletServiceResponseEnvelope : Type 0 where
  pub protocol_version : ℕ
  pub host_session_id : List ℕ
  pub service_session_id : List ℕ
  pub restart_generation : ℕ
  pub channel_sequence : ℕ
  pub request_id : List ℕ
  pub body : WalletReadOnlyServiceResponse

abbrev pub wallet_service_protocol_version : ℕ
wallet_service_protocol_version = 2

-- What the system, serde_json and the pipes do. `write_payload` and `read_payload` are
-- `write_wallet_payload` and `read_wallet_payload` under the deadline.
pub record Transport (W : Type 0) : Type 0 where
  pub random_wallet_wire_id : ℕ → W → Result ServiceError (List ℕ) × W
  pub encode_request : WalletHostRequestEnvelope → Option (List ℕ)
  pub decode_response : List ℕ → Option WalletServiceResponseEnvelope
  -- `Instant::now().checked_add(timeout)`, by whether it is some instant
  pub deadline : W → Bool × W
  pub write_payload : List ℕ → W → Result ServiceError (Unit {0}) × W
  pub read_payload : W → Result ServiceError (List ℕ) × W

-- The controller, and the world that its calls change.
pub record Service (W : Type 0) : Type 0 where
  pub controller : WalletServiceController
  pub world : W

abbrev pub killed : Option WalletServiceProcess → Option WalletServiceProcess
killed none = none
killed (some process) = some terminated

-- `poison`
unfoldable pub poison : WalletServiceController → WalletServiceController
poison c = record c { poisoned = true; process = killed c.process }

abbrev pub Run : Type 0 → Type 0 → Type 0
Run W A = Exec (Service W) ServiceError A

module _ {W : Type 0} where
  abbrev pub poisoned_service : Service W → Service W
  poisoned_service s = record s { controller = poison s.controller }

  unfoldable pub protocol_error : {A : Type 0} → Run W A
  unfolding poison
  protocol_error s = (err invalid_data, poisoned_service s)

  -- `if bad { return Err(self.protocol_error(message)) }`
  unfoldable pub violates : Bool → Run W (Unit {0})
  unfolding protocol_error
  violates true s = protocol_error s
  violates false s = (ok tt, s)

  -- `option.ok_or_else(...)` and `map_err(|_| self.protocol_error(message))` on a parsed value
  unfoldable pub parsed : {A : Type 0} → Option A → Run W A
  unfolding protocol_error
  parsed none s = protocol_error s
  parsed (some a) s = (ok a, s)

  unfoldable pub required : {A : Type 0} → Option A → ServiceError → Run W A
  required none e s = (err e, s)
  required (some a) e s = (ok a, s)

  -- The controller's fields, read in the middle of an operation.
  unfoldable pub reading : {A : Type 0} → (WalletServiceController → A) → Run W A
  reading f s = (ok (f s.controller), s)

  unfoldable pub update : (WalletServiceController → WalletServiceController) → Run W (Unit {0})
  update f s = (ok tt, record s { controller = f s.controller })

  -- A call of the system.
  unfoldable pub calling : {A : Type 0} → (W → Result ServiceError A × W) → Run W A
  calling call s = let (r, w) = call s.world in (r, record s { world = w })

  abbrev pub after_failure :
      {A : Type 0} → Result ServiceError A × Service W → Result ServiceError A × Service W
  after_failure (ok a, s) = (ok a, s)
  after_failure (err e, s) = (err e, poisoned_service s)

  -- ... after whose failure the controller is poisoned.
  unfoldable pub calling_or_poison : {A : Type 0} → (W → Result ServiceError A × W) → Run W A
  unfolding calling poison
  calling_or_poison call s = after_failure (calling call s)

  unfoldable pub advance_sequences : Run W (Unit {0})
  advance_sequences = do
    host ← reading (λ c. checked_add c.next_host_sequence 1)
    next_host ← parsed host
    service ← reading (λ c. checked_add c.next_service_sequence 1)
    next_service ← parsed service
    update (λ c. record c { next_host_sequence = next_host; next_service_sequence = next_service })

  -- `if self.poisoned { return Err(...) }`
  unfoldable pub require_healthy : Run W (Unit {0})
  require_healthy = do poisoned ← reading (λ c. c.poisoned); reject poisoned broken_pipe

abbrev pub deadline_result : Bool → Result ServiceError (Unit {0})
deadline_result true = ok tt
deadline_result false = err invalid_input

module _ {W : Type 0} (t : Transport W) where
  abbrev pub set_deadline : W → Result ServiceError (Unit {0}) × W
  set_deadline w = let (within, w') = t.deadline w in (deadline_result within, w')

  unfoldable pub exchange : List ℕ → Run W (List ℕ)
  exchange payload = do
    require_healthy
    calling_or_poison set_deadline
    calling_or_poison (t.write_payload payload)
    calling_or_poison t.read_payload

  abbrev pub request_envelope :
      WalletServiceController → List ℕ → WalletReadOnlyServiceRequest → WalletHostRequestEnvelope
  request_envelope c request_id body = record {
    protocol_version = wallet_service_protocol_version;
    host_session_id = c.host_session_id;
    service_session_id = c.service_session_id;
    restart_generation = c.restart_generation;
    channel_sequence = c.next_host_sequence;
    request_id = request_id;
    body = body;
  }

  -- The test on the envelope of a response.
  unfoldable pub envelope_mismatch :
      WalletServiceController → List ℕ → WalletServiceResponseEnvelope → Bool
  envelope_mismatch c request_id e =
      not (e.protocol_version == wallet_service_protocol_version)
      || not (bytes_eq e.host_session_id c.host_session_id)
      || not (bytes_eq e.service_session_id c.service_session_id)
      || not (e.restart_generation == c.restart_generation)
      || not (e.channel_sequence == c.next_service_sequence)
      || not (bytes_eq e.request_id request_id)

  unfoldable pub accept_body :
      WalletReadOnlyServiceResponse
      → WalletServiceResponseKind
      → Run W WalletReadOnlyServiceResponse
  accept_body (failure f) expected = do
    violates (not (failure_valid f))
    violates (is_protocol_failure f.code)
    advance_sequences
    raise (service_failed f.code)
  accept_body response expected = do
    violates (not (is_of_kind response expected))
    advance_sequences
    pure response

  unfoldable pub service_request :
      WalletReadOnlyServiceRequest → WalletServiceResponseKind → Run W WalletReadOnlyServiceResponse
  service_request body expected = do
    request_id ← calling (t.random_wallet_wire_id 16)
    envelope ← reading (λ c. request_envelope c request_id body)
    payload ← required (t.encode_request envelope) invalid_data
    bytes ← exchange payload
    response ← parsed (t.decode_response bytes)
    mismatch ← reading (λ c. envelope_mismatch c request_id response)
    violates mismatch
    accept_body response.body expected
