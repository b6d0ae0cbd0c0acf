-- ===== src/Wallet/Capability.antt =====
-- `NegotiatedWalletServiceCapability` of wallet_abi.rs and the sets of them.
pub mod Ceiling
use hns_dane_browser_extensi.Prelude.{
  ℕ, Bool, true, false, ◌&&◌, ◌||◌, not, Option, none, some, List, [], ◌∷◌, ◌++◌, all, any, ◌==◌,
  bytes_eq, if◌then◌else◌,
}
use hns_dane_browser_extensi.PoolStats.Literals.{ascii}

pub data NegotiatedWalletServiceCapability : Type 0 where
  canonical_framing restart_isolation opaque_authority_registry persistent_permissions :
      NegotiatedWalletServiceCapability
  structured_approvals typed_events wallet_operations hns_read_operations_v1 :
      NegotiatedWalletServiceCapability
  hns_wallet_authority_context_v1 provider_dispatch value_movement browser_integration :
      NegotiatedWalletServiceCapability

-- The place in the declaration, for the derived `==`.
abbrev pub place : NegotiatedWalletServiceCapability → ℕ
place canonical_framing = 0
place restart_isolation = 1
place opaque_authority_registry = 2
place persistent_permissions = 3
place structured_approvals = 4
place typed_events = 5
place wallet_operations = 6
place hns_read_operations_v1 = 7
place hns_wallet_authority_context_v1 = 8
place provider_dispatch = 9
place value_movement = 10
place browser_integration = 11

-- A `BTreeSet` is a list without repetitions; nothing reads its order.
unfoldable pub has :
    List NegotiatedWalletServiceCapability → NegotiatedWalletServiceCapability → Bool
has set c = any (λ d. place d == place c) set

unfoldable pub collect_set :
    List NegotiatedWalletServiceCapability → List NegotiatedWalletServiceCapability
collect_set [] = []
collect_set (c ∷ cs) = let rest = collect_set cs in if has rest c then rest else c ∷ rest

unfoldable pub is_subset :
    List NegotiatedWalletServiceCapability → List NegotiatedWalletServiceCapability → Bool
is_subset set other = all (has other) set

unfoldable pub intersection :
    List NegotiatedWalletServiceCapability
    → List NegotiatedWalletServiceCapability
    → List NegotiatedWalletServiceCapability
intersection [] other = []
intersection (c ∷ cs) other =
    let rest = intersection cs other in if has other c then c ∷ rest else rest

abbrev pub wallet_read_session_required_capabilities : List NegotiatedWalletServiceCapability
wallet_read_session_required_capabilities =
    canonical_framing ∷ restart_isolation ∷ opaque_authority_registry ∷ structured_approvals
    ∷ typed_events ∷ wallet_operations ∷ hns_read_operations_v1 ∷ []

abbrev pub wallet_read_session_allowed_capabilities : List NegotiatedWalletServiceCapability
wallet_read_session_allowed_capabilities =
    canonical_framing ∷ restart_isolation ∷ opaque_authority_registry ∷ persistent_permissions
    ∷ structured_approvals ∷ typed_events ∷ wallet_operations ∷ hns_read_operations_v1
    ∷ hns_wallet_authority_context_v1 ∷ provider_dispatch ∷ []

unfoldable pub from_wire_name : List ℕ → Option NegotiatedWalletServiceCapability
from_wire_name value =
    if bytes_eq value (ascii "canonicalFraming")
    then some canonical_framing
    else if bytes_eq value (ascii "restartIsolation")
    then some restart_isolation
    else if bytes_eq value (ascii "opaqueAuthorityRegistry")
    then some opaque_authority_registry
    else if bytes_eq value (ascii "persistentPermissions")
    then some persistent_permissions
    else if bytes_eq value (ascii "structuredApprovals")
    then some structured_approvals
    else if bytes_eq value (ascii "typedEvents")
    then some typed_events
    else if bytes_eq value (ascii "walletOperations")
    then some wallet_operations
    else if bytes_eq value (ascii "hnsReadOperationsV1")
    then some hns_read_operations_v1
    else if bytes_eq value (ascii "hnsWalletAuthorityContextV1")
    then some hns_wallet_authority_context_v1
    else if bytes_eq value (ascii "providerDispatch")
    then some provider_dispatch
    else if bytes_eq value (ascii "valueMovement")
    then some value_movement
    else if bytes_eq value (ascii "browserIntegration")
    then some browser_integration
    else none

abbrev pub holds_required : List NegotiatedWalletServiceCapability → Bool
holds_required set = all (has set) wallet_read_session_required_capabilities

-- `none` is `io::ErrorKind::PermissionDenied`.
unfoldable pub wallet_read_session_capability_ceiling :
    List NegotiatedWalletServiceCapability → Option (List NegotiatedWalletServiceCapability)
wallet_read_session_capability_ceiling admitted =
    let ceiling = intersection admitted (collect_set wallet_read_session_allowed_capabilities) in
    if not (holds_required admitted)
    then none
    else if not (holds_required ceiling)
        || has ceiling value_movement
        || has ceiling browser_integration
    then none
    else some ceiling
