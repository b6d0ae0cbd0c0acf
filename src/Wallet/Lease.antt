-- ===== src/Wallet/Lease.antt =====
-- The namespace lease of wallet_abi.rs, its guard, and the service's authority context.
pub mod Once
use hns_dane_browser_extensi.Prelude.{
  ℕ, ◌+◌, Bool, true, false, ◌&&◌, ◌||◌, not, Option, none, some, List, min, ◌==◌, bytes_eq,
  if◌then◌else◌,
}
use hns_dane_browser_extensi.Prelude.Result.{Result, ok, err}
use hns_dane_browser_extensi.Wallet.Responses.{WalletReadOnlyModule, is_handshake, any_nonzero}

-- `WalletHandshakeNetwork`, and the engine's `NetworkKind`, which has the same three constructors.
pub data WalletHandshakeNetwork : Type 0 where
  mainnet testnet regtest : WalletHandshakeNetwork

abbrev network_eq : WalletHandshakeNetwork → WalletHandshakeNetwork → Bool
network_eq mainnet b = elim b [ mainnet ↦ true | _ ↦ false ]
network_eq testnet b = elim b [ testnet ↦ true | _ ↦ false ]
network_eq regtest b = elim b [ regtest ↦ true | _ ↦ false ]

-- `magic` is `network.network().magic` of the engine.
unfoldable pub matches_kind_and_magic :
    (WalletHandshakeNetwork → ℕ) → WalletHandshakeNetwork → WalletHandshakeNetwork → ℕ → Bool
matches_kind_and_magic magic own network network_magic =
    network_eq own network && magic network == network_magic

pub record WalletNamespaceLeaseClaim : Type 0 where
  pub network : WalletHandshakeNetwork
  pub network_magic : ℕ
  pub namespace_id : List ℕ
  pub generation : ℕ

-- `WalletNamespaceLeaseClaim::new`; `none` is `io::ErrorKind::InvalidInput`.
unfoldable pub new_claim :
    (WalletHandshakeNetwork → ℕ)
    → WalletHandshakeNetwork
    → List ℕ
    → ℕ
    → Option WalletNamespaceLeaseClaim
new_claim magic network namespace_id generation =
    if not (any_nonzero namespace_id) || generation == 0
    then none
    else some (record {
      network = network;
      network_magic = magic network;
      namespace_id = namespace_id;
      generation = generation;
    })

-- The test of `read_hns_authority_context` on the claim.
unfoldable pub claim_malformed : (WalletHandshakeNetwork → ℕ) → WalletNamespaceLeaseClaim → Bool
claim_malformed magic claim =
    not (matches_kind_and_magic magic claim.network claim.network claim.network_magic)
    || not (any_nonzero claim.namespace_id)
    || claim.generation == 0

pub record WalletServiceHnsAuthorityContext : Type 0 where
  pub network : WalletHandshakeNetwork
  pub network_magic : ℕ
  pub namespace_id : List ℕ
  pub namespace_lease_generation : ℕ
  pub active_wallet : List ℕ
  pub account : List ℕ
  pub wallet_authority_revision : ℕ
  pub account_authority_revision : ℕ
  pub locked : Bool
  pub context_module : WalletReadOnlyModule
  pub persistent_wallet_confirmed : Bool
  pub recovery_pending : Bool
  pub retirement_pending : Bool
  pub hns_reads_ready : Bool

unfoldable pub validates_against :
    (WalletHandshakeNetwork → ℕ)
    → WalletServiceHnsAuthorityContext
    → WalletNamespaceLeaseClaim
    → List ℕ
    → List ℕ
    → Bool
validates_against magic c claim active_wallet account =
    matches_kind_and_magic magic c.network claim.network c.network_magic
    && c.network_magic == claim.network_magic
    && bytes_eq c.namespace_id claim.namespace_id
    && c.namespace_lease_generation == claim.generation
    && any_nonzero c.active_wallet
    && bytes_eq c.active_wallet active_wallet
    && any_nonzero c.account
    && bytes_eq c.account account
    && not (c.wallet_authority_revision == 0)
    && not (c.account_authority_revision == 0)
    && not c.locked
    && is_handshake c.context_module
    && c.persistent_wallet_confirmed
    && not c.recovery_pending
    && not c.retirement_pending
    && c.hns_reads_ready

-- What a `WalletNamespaceLeaseGuard` may do: call the operation as often as it likes, each time from
-- a state of its choice and going on from the state the call left, and answer at the end.
pub data GuardRun (W : Type 0) : Type 0 where
  answer : Bool → W → GuardRun W
  calls : W → (W → GuardRun W) → GuardRun W

pub data WalletNamespaceLeaseUseError (E : Type 0) : Type 0 where
  guard_denied : WalletNamespaceLeaseUseError E
  operation : E → WalletNamespaceLeaseUseError E

-- The variables that the closure `guarded_operation` captures. The operation is there until it is
-- taken.
pub record Captured (E T : Type 0) : Type 0 where
  pub taken : Bool
  pub operation_result : Option (Result E T)
  pub callback_count : ℕ

module _ {W E T : Type 0} (act : W → Result E T × W) where
  -- `callback_count.saturating_add(1)` on a `u8`
  abbrev pub counted : Captured E T → Captured E T
  counted v = record v { callback_count = min 255 (v.callback_count + 1) }

  abbrev pub guarded_operation : Captured E T → W → Captured E T × W
  guarded_operation v w =
      if v.taken
      then (counted v, w)
      else (record (counted v) { taken = true; operation_result = some (act w).0 }, (act w).1)

  unfoldable pub run_guard : Captured E T → GuardRun W → Captured E T × Bool × W
  run_guard v (answer succeeded w) = (v, succeeded, w)
  run_guard v (calls w next) = run_guard (guarded_operation v w).0 (next (guarded_operation v w).1)

  abbrev settled : Option (Result E T) → Result (WalletNamespaceLeaseUseError E) T
  settled none = err guard_denied
  settled (some (ok value)) = ok value
  settled (some (err error)) = err (operation error)

  abbrev pub concluded : Captured E T × Bool × W → Result (WalletNamespaceLeaseUseError E) T × W
  concluded (v, succeeded, w) = (
    if not (v.callback_count == 1) || not succeeded
        then err guard_denied
        else settled v.operation_result,
    w,
  )

  abbrev pub untouched : Captured E T
  untouched = record { taken = false; operation_result = none; callback_count = 0 }

  unfoldable pub use_if_current : GuardRun W → Result (WalletNamespaceLeaseUseError E) T × W
  use_if_current guard = concluded (run_guard untouched guard)
