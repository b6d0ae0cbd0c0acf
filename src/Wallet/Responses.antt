-- ===== src/Wallet/Responses.antt =====
-- What the wallet service answers, and the tests on it, in
-- rust/crates/hns-chromium-native-host/src/wallet_abi.rs.
use hns_dane_browser_extensi.Prelude.{
  ℕ, ◌+◌, ◌-◌, ◌*◌, ◌^◌, Bool, true, false, ◌&&◌, ◌||◌, not, Option, none, some, List, [], ◌∷◌,
  length, all, any, leb, ltb, ◌==◌, bytes_eq, if◌then◌else◌,
}
use hns_dane_browser_extensi.PoolStats.Literals.{ascii}
use hns_dane_browser_extensi.Wallet.Text.{
  is_ascii_digit, valid_wallet_public_string, valid_wallet_display_string,
}
use hns_dane_browser_extensi.Wallet.Manifest.{is_none_or}
use hns_dane_browser_extensi.Wallet.Capability.{NegotiatedWalletServiceCapability}
use hns_dane_browser_extensi.Wallet.AntiRollback.{is_some}

pub data WalletReadOnlyModule : Type 0 where
  handshake bitcoin ethereum : WalletReadOnlyModule

abbrev pub is_handshake : WalletReadOnlyModule → Bool
is_handshake handshake = true
is_handshake bitcoin = false
is_handshake ethereum = false

-- `enabled_modules() == [WalletReadOnlyModule::Handshake]`
abbrev pub only_handshake : List WalletReadOnlyModule → Bool
only_handshake (handshake ∷ []) = true
only_handshake modules = false

-- `bytes.iter().any(|byte| *byte != 0)`
abbrev pub any_nonzero : List ℕ → Bool
any_nonzero bytes = any (λ b. not (b == 0)) bytes

pub record WalletReadOnlyStatus : Type 0 where
  pub locked : Bool
  pub active_wallet : Option (List ℕ)
  pub enabled_modules : List WalletReadOnlyModule
  pub mainnet_settlement_enabled : Bool

abbrev same : Bool → Bool → Bool
same true b = b
same false b = not b

-- At most one module is enabled, so that the set of them is as large as the list.
unfoldable pub status_valid : WalletReadOnlyStatus → Bool
status_valid s =
    not s.mainnet_settlement_enabled
    && same s.locked (not (is_some s.active_wallet))
    && is_none_or s.active_wallet any_nonzero
    && leb (length s.enabled_modules) 1
    && all is_handshake s.enabled_modules

pub record WalletReadOnlyAccountSummary : Type 0 where
  pub account_id : List ℕ
  pub wallet_module : WalletReadOnlyModule
  pub label : List ℕ
  pub receive_display : Option (List ℕ)

unfoldable pub account_valid : WalletReadOnlyAccountSummary → Bool
account_valid a =
    any_nonzero a.account_id
    && is_handshake a.wallet_module
    && valid_wallet_public_string a.label 4_096
    && is_none_or a.receive_display (λ display. valid_wallet_public_string display 4_096)

pub data WalletReadOnlyAsset : Type 0 where
  hns btc eth : WalletReadOnlyAsset

abbrev pub is_canonical_decimal : List ℕ → Bool
is_canonical_decimal [] = false
is_canonical_decimal (b ∷ bs) =
    bytes_eq (b ∷ bs) (ascii "0")
    || (leb (length (b ∷ bs)) 39 && is_ascii_digit b && not (b == b'0') && all is_ascii_digit bs)

unfoldable pub decimal_value : ℕ → List ℕ → ℕ
decimal_value n [] = n
decimal_value n (b ∷ bs) = decimal_value (n * 10 + (b - b'0')) bs

-- `Deserialize` of `WalletReadOnlyBaseUnits`: a canonical decimal, by `parse::<u128>`.
unfoldable pub parse_base_units : List ℕ → Option ℕ
parse_base_units encoded =
    if not (is_canonical_decimal encoded)
    then none
    else if ltb (decimal_value 0 encoded) (2 ^ 128)
    then some (decimal_value 0 encoded)
    else none

pub record WalletReadOnlyAmount : Type 0 where
  pub asset : WalletReadOnlyAsset
  pub base_units : ℕ

unfoldable pub amount_valid : WalletReadOnlyAmount → Bool
amount_valid a = elim a.asset [ hns ↦ true | btc ↦ false | eth ↦ false ]

pub record WalletReadOnlyReceiveTarget : Type 0 where
  pub target_module : WalletReadOnlyModule
  pub account : List ℕ
  pub display : List ℕ
  pub derivation_index : ℕ

unfoldable pub target_valid : WalletReadOnlyReceiveTarget → List ℕ → Bool
target_valid t selected_account =
    is_handshake t.target_module
    && bytes_eq t.account selected_account
    && valid_wallet_display_string t.display 512

pub data WalletReadOnlyTransactionStatus : Type 0 where
  prepared authorized broadcast mempool confirmed : WalletReadOnlyTransactionStatus
  replaced conflicted reorged dropped failed : WalletReadOnlyTransactionStatus

pub record WalletReadOnlySignedBaseUnits : Type 0 where
  pub negative : Bool
  pub magnitude : ℕ

unfoldable pub signed_valid : WalletReadOnlySignedBaseUnits → Bool
signed_valid u = not u.negative || not (u.magnitude == 0)

pub record WalletReadOnlyTransactionSummary : Type 0 where
  pub transaction_module : WalletReadOnlyModule
  pub txid : List ℕ
  pub status : WalletReadOnlyTransactionStatus
  pub net_amount : WalletReadOnlySignedBaseUnits
  pub fee : Option ℕ
  pub block_height : Option ℕ
  pub first_seen_unix : Option ℕ
  pub confirmation_count : ℕ

unfoldable pub transaction_valid : WalletReadOnlyTransactionSummary → Bool
transaction_valid t =
    is_handshake t.transaction_module && any_nonzero t.txid && signed_valid t.net_amount

-- The `BTreeSet` of the transactions' identifiers, as a list without repetitions.
unfoldable pub unique_txids : List WalletReadOnlyTransactionSummary → List (List ℕ)
unique_txids [] = []
unique_txids (t ∷ ts) =
    let rest = unique_txids ts in if any (bytes_eq t.txid) rest then rest else t.txid ∷ rest

unfoldable pub validate_wallet_transaction_history : List WalletReadOnlyTransactionSummary → Bool
validate_wallet_transaction_history transactions =
    leb (length transactions) 128
    && length (unique_txids transactions) == length transactions
    && all transaction_valid transactions

pub data WalletReadOnlySyncPhase : Type 0 where
  disabled starting headers filters wallet_scan ready degraded : WalletReadOnlySyncPhase

pub record WalletReadOnlySyncStatus : Type 0 where
  pub phase : WalletReadOnlySyncPhase
  pub validated_height : ℕ
  pub scanned_height : ℕ
  pub target_height : Option ℕ
  pub last_error : Option (List ℕ)

abbrev is_height : Option ℕ → ℕ → Bool
is_height none height = false
is_height (some target) height = target == height

unfoldable pub sync_valid : WalletReadOnlySyncStatus → Bool
sync_valid s =
    elim s.phase [ ready ↦ true | _ ↦ false ]
    && s.validated_height == s.scanned_height
    && is_height s.target_height s.validated_height
    && not (is_some s.last_error)

pub data WalletReadOnlyResponse : Type 0 where
  status_response : WalletReadOnlyStatus → WalletReadOnlyResponse
  accounts_response : List WalletReadOnlyAccountSummary → WalletReadOnlyResponse
  balance_response : WalletReadOnlyAmount → WalletReadOnlyResponse
  target_response : WalletReadOnlyReceiveTarget → WalletReadOnlyResponse
  history_response : List WalletReadOnlyTransactionSummary → WalletReadOnlyResponse
  sync_response : WalletReadOnlySyncStatus → WalletReadOnlyResponse

pub data WalletReadOnlyResponseKind : Type 0 where
  status_kind accounts_kind balance_kind target_kind history_kind sync_kind :
      WalletReadOnlyResponseKind

unfoldable pub response_kind : WalletReadOnlyResponse → WalletReadOnlyResponseKind
response_kind (status_response status) = status_kind
response_kind (accounts_response accounts) = accounts_kind
response_kind (balance_response amount) = balance_kind
response_kind (target_response target) = target_kind
response_kind (history_response transactions) = history_kind
response_kind (sync_response status) = sync_kind

pub data WalletServiceErrorCode : Type 0 where
  invalid_frame version_mismatch session_mismatch sequence_mismatch : WalletServiceErrorCode
  authority_unknown authority_stale permission_refused approval_stale : WalletServiceErrorCode
  wallet_locked rate_limited replay unsupported_capability : WalletServiceErrorCode
  invalid_request persistence_failure runtime_failure : WalletServiceErrorCode

unfoldable pub is_protocol_failure : WalletServiceErrorCode → Bool
is_protocol_failure code = elim code [
  | invalid_frame ↦ true
  | version_mismatch ↦ true
  | session_mismatch ↦ true
  | sequence_mismatch ↦ true
  | replay ↦ true
  | unsupported_capability ↦ true
  | _ ↦ false
]

pub record WalletServiceFailure : Type 0 where
  pub code : WalletServiceErrorCode
  pub message : List ℕ
  pub unsupported : Option NegotiatedWalletServiceCapability

unfoldable pub failure_valid : WalletServiceFailure → Bool
failure_valid f =
    leb 1 (length f.message)
    && leb (length f.message) 1_024
    && all (λ b. ltb b 128) f.message
    && same (elim f.code [ unsupported_capability ↦ true | _ ↦ false ]) (is_some f.unsupported)
