-- ===== src/Wallet/Controller/Reads.antt =====
-- The read operations of `WalletServiceController`, and its authority context.
use hns_dane_browser_extensi.Prelude.{
  ℕ, Bool, false, ◌||◌, not, Option, none, some, List, [], ◌∷◌, any, bytes_eq, if◌then◌else◌,
}
use hns_dane_browser_extensi.Prelude.Exec.{pure, reject, ◌>>=◌, ◌>>◌}
use hns_dane_browser_extensi.Wallet.Capability.{
  wallet_operations, hns_read_operations_v1, hns_wallet_authority_context_v1, has,
}
use hns_dane_browser_extensi.Wallet.Lease.{
  WalletHandshakeNetwork, WalletNamespaceLeaseClaim, WalletServiceHnsAuthorityContext,
  claim_malformed, validates_against,
}
use hns_dane_browser_extensi.Wallet.AntiRollback.{is_some}
use hns_dane_browser_extensi.Wallet.Responses.{
  handshake, is_handshake, only_handshake, WalletReadOnlyStatus, status_valid,
  WalletReadOnlyAccountSummary, account_valid, WalletReadOnlyAmount, amount_valid,
  WalletReadOnlyReceiveTarget, target_valid, WalletReadOnlyTransactionSummary,
  validate_wallet_transaction_history, WalletReadOnlySyncStatus, sync_valid, WalletReadOnlyResponse,
  WalletReadOnlyResponseKind, status_response, accounts_response, balance_response, target_response,
  history_response, sync_response, status_kind, accounts_kind, balance_kind, target_kind,
  history_kind, sync_kind,
}
use hns_dane_browser_extensi.Wallet.Controller.{
  permission_denied, WalletServiceController, WalletReadOnlyServiceRequest, status_request,
  list_accounts_request, balance_request, receive_target_request, history_request,
  module_status_request, current_hns_context, WalletReadOnlyServiceResponse, wallet,
  wallet_authority, wallet_of, authority_kind, Transport, Run, violates, parsed, required, reading,
  update, require_healthy, service_request,
}

-- `let Variant { .. } = response else { return Err(self.protocol_error(..)) }`
abbrev pub as_wallet : WalletReadOnlyServiceResponse → Option WalletReadOnlyResponse
as_wallet response = elim response [ wallet r ↦ some r | _ ↦ none ]

abbrev pub as_authority : WalletReadOnlyServiceResponse → Option WalletServiceHnsAuthorityContext
as_authority response = elim response [ wallet_authority c ↦ some c | _ ↦ none ]

abbrev pub as_status : WalletReadOnlyResponse → Option WalletReadOnlyStatus
as_status response = elim response [ status_response status ↦ some status | _ ↦ none ]

abbrev pub as_accounts : WalletReadOnlyResponse → Option (List WalletReadOnlyAccountSummary)
as_accounts response = elim response [ accounts_response accounts ↦ some accounts | _ ↦ none ]

abbrev pub as_amount : WalletReadOnlyResponse → Option WalletReadOnlyAmount
as_amount response = elim response [ balance_response amount ↦ some amount | _ ↦ none ]

abbrev pub as_target : WalletReadOnlyResponse → Option WalletReadOnlyReceiveTarget
as_target response = elim response [ target_response target ↦ some target | _ ↦ none ]

abbrev pub as_history : WalletReadOnlyResponse → Option (List WalletReadOnlyTransactionSummary)
as_history response = elim response [ history_response transactions ↦ some transactions | _ ↦ none ]

abbrev pub as_sync : WalletReadOnlyResponse → Option WalletReadOnlySyncStatus
as_sync response = elim response [ sync_response status ↦ some status | _ ↦ none ]

-- `selected.is_some_and(|selected| selected != found)`
abbrev pub differs : Option (List ℕ) → List ℕ → Bool
differs none found = false
differs (some selected) found = not (bytes_eq selected found)

abbrev pub wallet_differs : Option (List ℕ) → Option (List ℕ) → Bool
wallet_differs selected none = false
wallet_differs selected (some active_wallet) = differs selected active_wallet

abbrev pub select_active : Option (List ℕ) → WalletServiceController → WalletServiceController
select_active none c = c
select_active (some active_wallet) c = record c { selected_active_wallet = some active_wallet }

-- What `read_status` writes to the selections.
unfoldable pub select_wallet :
    WalletReadOnlyStatus → WalletServiceController → WalletServiceController
select_wallet status c =
    let selected = select_active status.active_wallet c in
    if status.locked || not (any is_handshake status.enabled_modules)
    then record selected { selected_active_wallet = none; selected_hns_account = none }
    else selected

-- `accounts.len() != 1 || !accounts[0].validate()`, and the account popped where that is false
abbrev pub one_account : List WalletReadOnlyAccountSummary → Option WalletReadOnlyAccountSummary
one_account (account ∷ []) = if account_valid account then some account else none
one_account accounts = none

pub record WalletReadOnlyView : Type 0 where
  pub status : WalletReadOnlyStatus
  pub account : WalletReadOnlyAccountSummary
  pub balance : WalletReadOnlyAmount
  pub receive_target : WalletReadOnlyReceiveTarget
  pub transactions : List WalletReadOnlyTransactionSummary
  pub module_status : WalletReadOnlySyncStatus

module _ {W : Type 0} (t : Transport W) where
  unfoldable pub require_selected_hns_account : Run W (List ℕ)
  require_selected_hns_account = do
    require_healthy
    selected ← reading (λ c. c.selected_hns_account)
    required selected permission_denied

  unfoldable pub wallet_request :
      WalletReadOnlyServiceRequest → WalletReadOnlyResponseKind → Run W WalletReadOnlyResponse
  wallet_request request expected = do
    require_healthy
    capabilities ← reading (λ c. c.capabilities)
    reject
        (not (has capabilities wallet_operations) || not (has capabilities hns_read_operations_v1))
        permission_denied
    response ← service_request t request (wallet_of expected)
    parsed (as_wallet response)

  unfoldable pub read_status : Run W WalletReadOnlyStatus
  read_status = do
    response ← wallet_request status_request status_kind
    status ← parsed (as_status response)
    violates (not (status_valid status))
    selected ← reading (λ c. c.selected_active_wallet)
    violates (wallet_differs selected status.active_wallet)
    update (select_wallet status)
    pure status

  unfoldable pub list_accounts : Run W WalletReadOnlyAccountSummary
  list_accounts = do
    response ← wallet_request list_accounts_request accounts_kind
    accounts ← parsed (as_accounts response)
    account ← parsed (one_account accounts)
    selected ← reading (λ c. c.selected_hns_account)
    violates (differs selected account.account_id)
    update (λ c. record c { selected_hns_account = some account.account_id })
    pure account

  unfoldable pub read_balance : Run W WalletReadOnlyAmount
  read_balance = do
    account ← require_selected_hns_account
    response ← wallet_request (balance_request handshake account) balance_kind
    amount ← parsed (as_amount response)
    violates (not (amount_valid amount))
    pure amount

  unfoldable pub read_receive_target : Run W WalletReadOnlyReceiveTarget
  read_receive_target = do
    account ← require_selected_hns_account
    response ← wallet_request (receive_target_request handshake account) target_kind
    target ← parsed (as_target response)
    violates (not (target_valid target account))
    pure target

  unfoldable pub read_transaction_history : Run W (List WalletReadOnlyTransactionSummary)
  read_transaction_history = do
    account ← require_selected_hns_account
    response ← wallet_request (history_request handshake account) history_kind
    transactions ← parsed (as_history response)
    violates (not (validate_wallet_transaction_history transactions))
    pure transactions

  unfoldable pub read_module_status : Run W WalletReadOnlySyncStatus
  read_module_status = do
    require_selected_hns_account
    response ← wallet_request (module_status_request handshake) sync_kind
    status ← parsed (as_sync response)
    violates (not (sync_valid status))
    pure status

  -- The test of `read_all` on the status.
  abbrev pub not_ready : WalletReadOnlyStatus → Bool
  not_ready status =
      status.locked
      || not (is_some status.active_wallet)
      || not (only_handshake status.enabled_modules)

  unfoldable pub read_all : Run W WalletReadOnlyView
  read_all = do
    status ← read_status
    reject (not_ready status) permission_denied
    account ← list_accounts
    balance ← read_balance
    receive_target ← read_receive_target
    transactions ← read_transaction_history
    module_status ← read_module_status
    pure (record {
      status = status;
      account = account;
      balance = balance;
      receive_target = receive_target;
      transactions = transactions;
      module_status = module_status;
    })

  -- `magic` is the network magic of the engine.
  unfoldable pub read_hns_authority_context :
      (WalletHandshakeNetwork → ℕ)
      → WalletNamespaceLeaseClaim
      → Run W WalletServiceHnsAuthorityContext
  read_hns_authority_context magic claim = do
    require_healthy
    capabilities ← reading (λ c. c.capabilities)
    reject (not (has capabilities hns_wallet_authority_context_v1)) permission_denied
    selected ← reading (λ c. c.selected_active_wallet)
    active_wallet ← required selected permission_denied
    account ← require_selected_hns_account
    violates (claim_malformed magic claim)
    response ←
        service_request t
          (current_hns_context claim.network claim.network_magic claim.namespace_id claim.generation
            handshake)
          authority_kind
    context ← parsed (as_authority response)
    violates (not (validates_against magic context claim active_wallet account))
    pure context
