-- ===== src/Wallet/Controller/Negotiate.antt =====
-- `WalletServiceController::negotiate`.
pub mod Contract
use hns_dane_browser_extensi.Prelude.{
  ℕ, Bool, true, false, ◌&&◌, ◌||◌, not, Option, none, some, List, [], length, leb, ltb, ◌==◌,
  bytes_eq, if◌then◌else◌,
}
use hns_dane_browser_extensi.Prelude.Result.{Result, ok, err}
use hns_dane_browser_extensi.Prelude.Exec.{Exec, pure, reject, ◌>>=◌, ◌>>◌}
use hns_dane_browser_extensi.PoolStats.Literals.{ascii}
use hns_dane_browser_extensi.Wallet.Capability.{
  NegotiatedWalletServiceCapability, provider_dispatch, value_movement, has, collect_set, is_subset,
  holds_required,
}
use hns_dane_browser_extensi.Wallet.Responses.{any_nonzero}
use hns_dane_browser_extensi.Wallet.Controller.{
  ServiceError, invalid_input, invalid_data, WalletServiceProcess, WalletServiceController,
  Transport, Service, Run, violates, parsed, required, reading, update, exchange,
  wallet_service_protocol_version,
}

pub record NegotiatedWalletServiceLimits : Type 0 where
  pub outer_frame_bytes : ℕ
  pub provider_request_bytes : ℕ
  pub provider_result_bytes : ℕ
  pub provider_event_bytes : ℕ
  pub approval_frame_bytes : ℕ
  pub approval_lifetime_ms : ℕ

unfoldable pub is_exact_v2 : NegotiatedWalletServiceLimits → Bool
is_exact_v2 l =
    l.outer_frame_bytes == 1_048_576
    && l.provider_request_bytes == 65_536
    && l.provider_result_bytes == 262_144
    && l.provider_event_bytes == 65_536
    && l.approval_frame_bytes == 16_384
    && l.approval_lifetime_ms == 90_000

pub record WalletServiceHello : Type 0 where
  pub protocol_version : ℕ
  pub platform : List ℕ
  pub host_session_id : List ℕ
  pub service_session_id : List ℕ
  pub restart_generation : ℕ
  pub capabilities : List NegotiatedWalletServiceCapability
  pub limits : NegotiatedWalletServiceLimits

-- What serde_json and base64 do here, and the calls that make the pipes nonblocking.
pub record HelloFormat (W : Type 0) : Type 0 where
  -- the frame of the hello, by its host session and restart generation
  pub encode_hello : List ℕ → ℕ → Option (List ℕ)
  pub decode_hello : List ℕ → Option WalletServiceHello
  pub decode_base64url : List ℕ → Option (List ℕ)
  pub encode_base64url : List ℕ → List ℕ
  pub set_nonblocking_reader : W → Result ServiceError (Unit {0}) × W
  pub set_nonblocking_writer : W → Result ServiceError (Unit {0}) × W

abbrev pub max_negotiated_service_capabilities : ℕ
max_negotiated_service_capabilities = 64

-- The test on the capabilities that were named; `set` is the `BTreeSet` of them.
unfoldable pub capabilities_invalid :
    List NegotiatedWalletServiceCapability
    → List NegotiatedWalletServiceCapability
    → List NegotiatedWalletServiceCapability
    → Bool
capabilities_invalid admitted named set =
    length set == 0
    || ltb max_negotiated_service_capabilities (length set)
    || not (length set == length named)
    || not (is_subset set admitted)
    || not (holds_required set)
    || (has set value_movement && not (has set provider_dispatch))

module _ {W : Type 0} (t : Transport W) (f : HelloFormat W) where
  abbrev pub decodes_to : ℕ → List ℕ → Option (List ℕ) → Bool
  decodes_to size value none = false
  decodes_to size value (some decoded) =
      length decoded == size && any_nonzero decoded && bytes_eq (f.encode_base64url decoded) value

  unfoldable pub valid_wallet_wire_id : List ℕ → ℕ → Bool
  valid_wallet_wire_id value size = decodes_to size value (f.decode_base64url value)

  unfoldable pub hello_mismatch : ℕ → WalletServiceController → WalletServiceHello → Bool
  hello_mismatch restart_generation c h =
      not (h.protocol_version == wallet_service_protocol_version)
      || not (bytes_eq h.platform (ascii "chromiumNativeHost"))
      || not (bytes_eq h.host_session_id c.host_session_id)
      || not (h.restart_generation == restart_generation)
      || not (valid_wallet_wire_id h.service_session_id 32)
      || not (is_exact_v2 h.limits)
      || length h.capabilities == 0
      || ltb max_negotiated_service_capabilities (length h.capabilities)

  abbrev pub new_controller : Option WalletServiceProcess → List ℕ → ℕ → WalletServiceController
  new_controller process host_session_id restart_generation = record {
    process = process;
    host_session_id = host_session_id;
    service_session_id = [];
    restart_generation = restart_generation;
    next_host_sequence = 1;
    next_service_sequence = 1;
    capabilities = [];
    selected_active_wallet = none;
    selected_hns_account = none;
    poisoned = false;
  }

  -- `negotiate` from the moment that the controller is there.
  unfoldable pub negotiate_over :
      List NegotiatedWalletServiceCapability → ℕ → Run W WalletServiceController
  negotiate_over admitted restart_generation = do
    host_session_id ← reading (λ c. c.host_session_id)
    payload ← required (f.encode_hello host_session_id restart_generation) invalid_data
    bytes ← exchange t payload
    hello ← parsed (f.decode_hello bytes)
    mismatch ← reading (λ c. hello_mismatch restart_generation c hello)
    violates mismatch
    violates (capabilities_invalid admitted hello.capabilities (collect_set hello.capabilities))
    update (λ c. record c {
      service_session_id = hello.service_session_id;
      capabilities = collect_set hello.capabilities;
    })
    reading (λ c. c)

  -- A controller that is not returned is dropped, which ends its process.
  abbrev pub in_world : {A : Type 0} → Run W A → WalletServiceController → Exec W ServiceError A
  in_world run c w = let (r, s) = run (record { controller = c; world = w }) in (r, s.world)

  unfoldable pub negotiate :
      Option WalletServiceProcess
      → List NegotiatedWalletServiceCapability
      → ℕ
      → Bool
      → Exec W ServiceError WalletServiceController
  negotiate process admitted restart_generation timeout_is_zero = do
    reject (restart_generation == 0 || timeout_is_zero) invalid_input
    f.set_nonblocking_reader
    f.set_nonblocking_writer
    host_session_id ← t.random_wallet_wire_id 32
    in_world (negotiate_over admitted restart_generation)
        (new_controller process host_session_id restart_generation)
