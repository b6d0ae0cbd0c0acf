-- ===== src/Wallet/ServiceRuns.antt =====
-- Runs of the controller, the lease and the session slot on test data, and what their theorems say
-- of them.
use hns_dane_browser_extensi.Prelude.{
  ℕ, ◌+◌, ◌≡◌, refl, Bool, true, false, Option, none, some, List, [], ◌∷◌, replicate, arith, ◌==◌,
  if◌then◌else◌,
}
use hns_dane_browser_extensi.Prelude.Lists.{bytes_eq}
use hns_dane_browser_extensi.Prelude.Result.{Result, ok, err}
use hns_dane_browser_extensi.Prelude.Exec.{pure, reject, ◌>>=◌}
use hns_dane_browser_extensi.PoolStats.Literals.{ascii}
use hns_dane_browser_extensi.Wallet.Capability.{
  NegotiatedWalletServiceCapability, value_movement, wallet_read_session_required_capabilities, has,
  collect_set, is_subset, intersection, wallet_read_session_capability_ceiling,
}
use hns_dane_browser_extensi.Wallet.Capability.Ceiling.{IsGranted, capability_ceiling-IsGranted}
use hns_dane_browser_extensi.Wallet.Responses.{
  handshake, WalletReadOnlyStatus, status_response, status_kind, response_kind,
}
use hns_dane_browser_extensi.Wallet.Lease.{
  mainnet, WalletNamespaceLeaseClaim, GuardRun, answer, calls, run_guard, use_if_current,
}
use hns_dane_browser_extensi.Wallet.Lease.Once.{CallsOnce, use_if_current-CallsOnce}
use hns_dane_browser_extensi.Wallet.Controller.{
  running, terminated, WalletServiceController, WalletServiceResponseEnvelope, wallet, wallet_of,
  status_request, Transport, Service, ServiceError, protocol_error, violates, parsed, required,
  reading, update, calling, calling_or_poison, advance_sequences, require_healthy, exchange,
  envelope_mismatch, accept_body, service_request, is_of_kind,
}
use hns_dane_browser_extensi.Wallet.Controller.Reads.{
  read_status, list_accounts, read_balance, read_receive_target, read_transaction_history,
  read_module_status, read_all, read_hns_authority_context,
}
use hns_dane_browser_extensi.Wallet.Controller.Sequence.{
  Steps, start, more, reads_status, reads_all, Continues, Steps-Continues, IsStopped,
  Steps-IsStopped,
}
use hns_dane_browser_extensi.Wallet.Controller.Refusal.{Refuses, poisoned-Refuses}
use hns_dane_browser_extensi.Wallet.Controller.Answer.{IsAnswer, service_request-IsAnswer}
use hns_dane_browser_extensi.Wallet.Controller.Negotiate.{
  HelloFormat, negotiate, negotiate_over, hello_mismatch, capabilities_invalid,
  valid_wallet_wire_id, is_exact_v2,
}
use hns_dane_browser_extensi.Wallet.Controller.Negotiate.Contract.{
  IsNegotiated, negotiate-IsNegotiated,
}
use hns_dane_browser_extensi.Wallet.Lifecycle.{
  AdmittedWalletReadSession, WalletReadSessionLifecycle, Startup, negotiated, Operated, returned,
  stale, result, invalidate, execute_active,
}
use hns_dane_browser_extensi.Wallet.Lifecycle.Generations.{
  IsLifecycle, serving, Starts, start-Starts, IsHealthy, execute_active-IsHealthy, Call,
  invalidates, executes, IsOther, AreFor, AllRefused, slot_after_all, stale-AllRefused,
}
use hns_dane_browser_extensi.Wallet.Lifecycle

abbrev toy_status : WalletReadOnlyStatus
toy_status = record {
  locked = false;
  active_wallet = some (replicate 16 1);
  enabled_modules = handshake ∷ [];
  mainnet_settlement_enabled = false;
}

abbrev toy_envelope : ℕ → WalletServiceResponseEnvelope
toy_envelope sequence = record {
  protocol_version = 2;
  host_session_id = ascii "h";
  service_session_id = ascii "s";
  restart_generation = 3;
  channel_sequence = sequence;
  request_id = ascii "q";
  body = wallet (status_response toy_status);
}

abbrev sequence_of : List ℕ → Option WalletServiceResponseEnvelope
sequence_of [] = none
sequence_of (sequence ∷ rest) = some (toy_envelope sequence)

-- A service that answers every request with its status, and counts the answers.
abbrev toy_transport : Transport ℕ
toy_transport = record {
  random_wallet_wire_id = λ size w. (ok (if size == 16 then ascii "q" else ascii "h"), w);
  encode_request = λ envelope. some [];
  decode_response = sequence_of;
  deadline = λ w. (true, w);
  write_payload = λ payload w. (ok tt, w);
  read_payload = λ w. (ok (w ∷ []), w + 1);
}

abbrev toy_hello : HelloFormat ℕ
toy_hello = record {
  encode_hello = λ session generation. some [];
  decode_hello = λ bytes. some (record {
    protocol_version = 2;
    platform = ascii "chromiumNativeHost";
    host_session_id = ascii "h";
    service_session_id = ascii "s";
    restart_generation = 3;
    capabilities = wallet_read_session_required_capabilities;
    limits = record {
      outer_frame_bytes = 1_048_576;
      provider_request_bytes = 65_536;
      provider_result_bytes = 262_144;
      provider_event_bytes = 65_536;
      approval_frame_bytes = 16_384;
      approval_lifetime_ms = 90_000;
    };
  });
  decode_base64url = λ text. some (replicate 32 1);
  encode_base64url = λ bytes. ascii "s";
  set_nonblocking_reader = λ w. (ok tt, w);
  set_nonblocking_writer = λ w. (ok tt, w);
}

abbrev toy_controller : ℕ → Bool → WalletServiceController
toy_controller sequence poisoned = record {
  process = some (if poisoned then terminated else running);
  host_session_id = ascii "h";
  service_session_id = ascii "s";
  restart_generation = 3;
  next_host_sequence = sequence;
  next_service_sequence = sequence;
  capabilities = wallet_read_session_required_capabilities;
  selected_active_wallet = none;
  selected_hns_account = none;
  poisoned = poisoned;
}

toy_negotiation :
    negotiate toy_transport toy_hello
      (some running)
      wallet_read_session_required_capabilities
      3
      false
      0
    ≡ (ok (toy_controller 1 false), 1)
unfolding negotiate negotiate_over hello_mismatch capabilities_invalid valid_wallet_wire_id
    is_exact_v2 exchange require_healthy calling_or_poison calling reading required parsed violates
    update protocol_error has collect_set is_subset bytes_eq reject pure ◌>>=◌
toy_negotiation = refl

negotiate-IsNegotiated_example :
    ((3 == 0) ≡ false)
    × IsNegotiated toy_transport toy_hello wallet_read_session_required_capabilities 3
        (some running)
        0
        1
        (toy_controller 1 false)
negotiate-IsNegotiated_example =
    negotiate-IsNegotiated toy_transport toy_hello wallet_read_session_required_capabilities 3
      (some running) false 0 1 (toy_controller 1 false) toy_negotiation

abbrev toy_service : Service ℕ
toy_service = record { controller = toy_controller 1 false; world = 1 }

toy_request : service_request toy_transport status_request (wallet_of status_kind) toy_service ≡ (
  ok (wallet (status_response toy_status)),
  record { controller = toy_controller 2 false; world = 2 },
)
unfolding service_request accept_body envelope_mismatch is_of_kind response_kind advance_sequences
    exchange require_healthy calling_or_poison calling reading required parsed violates update
    protocol_error bytes_eq reject pure ◌>>=◌
toy_request = refl

service_request-IsAnswer_example :
    IsAnswer toy_transport status_request
      (wallet_of status_kind)
      toy_service
      (record { controller = toy_controller 2 false; world = 2 })
      (wallet (status_response toy_status))
service_request-IsAnswer_example =
    service_request-IsAnswer toy_transport status_request (wallet_of status_kind) toy_service
      (record { controller = toy_controller 2 false; world = 2 })
      (wallet (status_response toy_status)) toy_request

-- A status, and then a view, whose accounts the service gets wrong.
abbrev first_service : Service ℕ
first_service = (read_status toy_transport toy_service).1

abbrev last_service : Service ℕ
last_service = (read_all toy_transport first_service).1

toy_steps : Steps toy_transport toy_service last_service
toy_steps =
    more first_service last_service (more toy_service first_service start reads_status) reads_all

Steps-Continues_example : Continues toy_service.controller last_service.controller
Steps-Continues_example = Steps-Continues toy_transport toy_service last_service toy_steps

Steps-IsStopped_example : IsStopped last_service.controller
Steps-IsStopped_example = Steps-IsStopped toy_transport toy_service last_service toy_steps (λ h. cc)

abbrev poisoned_service : Service ℕ
poisoned_service = record { controller = toy_controller 1 true; world = 1 }

abbrev toy_claim : WalletNamespaceLeaseClaim
toy_claim = record {
  network = mainnet;
  network_magic = 7;
  namespace_id = replicate 16 2;
  generation = 4;
}

poisoned-Refuses_example :
    Refuses toy_transport poisoned_service (read_status toy_transport)
    × Refuses toy_transport poisoned_service (list_accounts toy_transport)
    × Refuses toy_transport poisoned_service (read_balance toy_transport)
    × Refuses toy_transport poisoned_service (read_receive_target toy_transport)
    × Refuses toy_transport poisoned_service (read_transaction_history toy_transport)
    × Refuses toy_transport poisoned_service (read_module_status toy_transport)
    × Refuses toy_transport poisoned_service (read_all toy_transport)
    × Refuses toy_transport poisoned_service
        (read_hns_authority_context toy_transport (λ network. 7) toy_claim)
    × ((payload : List ℕ) → Refuses toy_transport poisoned_service (exchange toy_transport payload))
poisoned-Refuses_example =
    poisoned-Refuses toy_transport poisoned_service refl (λ network. 7) toy_claim

-- A guard that calls the operation once, from 5, and then says that the claim held.
abbrev toy_guard : GuardRun ℕ
toy_guard = calls 5 (λ w. answer true (w + 1))

abbrev toy_act : ℕ → Result ServiceError ℕ × ℕ
toy_act w = (ok 8, w + 1)

toy_use : use_if_current toy_act toy_guard ≡ (ok 8, 7)
unfolding use_if_current run_guard
toy_use = refl

use_if_current-CallsOnce_example :
    (w : ℕ) × CallsOnce (λ u. (toy_act u).1) 7 toy_guard w × ((toy_act w).0 ≡ ok 8)
use_if_current-CallsOnce_example = use_if_current-CallsOnce toy_act toy_guard 8 7 toy_use

abbrev toy_session : AdmittedWalletReadSession
toy_session = record { controller = toy_controller 1 false; restart_generation = 3 }

abbrev toy_slot : WalletReadSessionLifecycle
toy_slot = record { next_restart_generation = 4; active = some toy_session }

toy_slot-IsLifecycle : IsLifecycle toy_slot
toy_slot-IsLifecycle = serving toy_session 4 (omega arith)

abbrev toy_compose : ℕ → Startup
toy_compose generation =
    negotiated (record (toy_controller 1 false) { restart_generation = generation }) true

start-Starts_example : Starts toy_slot (Lifecycle.start toy_compose toy_slot)
start-Starts_example = start-Starts toy_compose toy_slot toy_slot-IsLifecycle

-- An operation that poisons its controller.
abbrev toy_operation : AdmittedWalletReadSession → Operated ℕ
toy_operation session = returned (err 1) (toy_controller 1 true)

execute_active-IsHealthy_example :
    let r = execute_active 3 toy_operation toy_slot in
    IsLifecycle r.1 × IsHealthy r.1.active × (r.1.next_restart_generation ≡ 4)
execute_active-IsHealthy_example =
    execute_active-IsHealthy 3 toy_operation toy_slot toy_slot-IsLifecycle

-- Late calls of earlier generations, and one of a generation that was never started.
abbrev toy_calls : List (Call ℕ)
toy_calls = invalidates 2 ∷ executes 1 toy_operation ∷ executes 9 toy_operation ∷ []

toy_calls-AreFor : AreFor (IsOther toy_session) toy_calls
toy_calls-AreFor = (λ h. omega arith, (λ h. omega arith, (λ h. omega arith, tt)))

stale-AllRefused_example :
    (slot_after_all toy_calls toy_slot ≡ toy_slot) × AllRefused toy_calls toy_slot
stale-AllRefused_example =
    stale-AllRefused toy_slot toy_session refl refl toy_calls toy_calls-AreFor

-- An artifact that also admits value movement, which a read session does not get.
abbrev toy_admitted : List NegotiatedWalletServiceCapability
toy_admitted = value_movement ∷ wallet_read_session_required_capabilities

toy_ceiling :
    wallet_read_session_capability_ceiling toy_admitted
    ≡ some wallet_read_session_required_capabilities
unfolding wallet_read_session_capability_ceiling intersection collect_set has
toy_ceiling = refl

capability_ceiling-IsGranted_example :
    IsGranted toy_admitted wallet_read_session_required_capabilities
capability_ceiling-IsGranted_example =
    capability_ceiling-IsGranted toy_admitted wallet_read_session_required_capabilities toy_ceiling
