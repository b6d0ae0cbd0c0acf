-- ===== src/Wallet/Controller/Refusal.antt =====
-- A poisoned controller answers nothing and sends nothing.
use hns_dane_browser_extensi.Prelude.{ℕ, ◌≡◌, true, List}
use hns_dane_browser_extensi.Prelude.Result.{err}
use hns_dane_browser_extensi.Prelude.Exec.{reject, bind-run_err, ◌>>=◌}
use hns_dane_browser_extensi.Wallet.Lease.{WalletHandshakeNetwork, WalletNamespaceLeaseClaim}
use hns_dane_browser_extensi.Wallet.Responses.{WalletReadOnlyResponseKind}
use hns_dane_browser_extensi.Wallet.Controller.{
  broken_pipe, Transport, Service, WalletReadOnlyServiceRequest, Run, reading, require_healthy,
  exchange,
}
use hns_dane_browser_extensi.Wallet.Controller.Reads.{
  require_selected_hns_account, wallet_request, read_status, list_accounts, read_balance,
  read_receive_target, read_transaction_history, read_module_status, read_all,
  read_hns_authority_context,
}

module _ {W : Type 0} (t : Transport W) (s : Service W) where
  -- The run ends in `BrokenPipe` and changes nothing.
  abbrev pub Refuses : {A : Type 0} → Run W A → Type 0
  Refuses m = m s ≡ (err broken_pipe, s)

module _ {W : Type 0} (t : Transport W) (s : Service W) (h : s.controller.poisoned ≡ true) where
  healthy-Refuses : Refuses t s require_healthy
  unfolding require_healthy reading reject ◌>>=◌
  healthy-Refuses = rw h

  account-Refuses : Refuses t s (require_selected_hns_account t)
  unfolding require_selected_hns_account
  account-Refuses = bind-run_err _ _ s healthy-Refuses

  request-Refuses :
      (request : WalletReadOnlyServiceRequest) (kind : WalletReadOnlyResponseKind)
      → Refuses t s (wallet_request t request kind)
  unfolding wallet_request
  request-Refuses request kind = bind-run_err _ _ s healthy-Refuses

  status-Refuses : Refuses t s (read_status t)
  unfolding read_status
  status-Refuses = bind-run_err _ _ s (request-Refuses _ _)

  accounts-Refuses : Refuses t s (list_accounts t)
  unfolding list_accounts
  accounts-Refuses = bind-run_err _ _ s (request-Refuses _ _)

  balance-Refuses : Refuses t s (read_balance t)
  unfolding read_balance
  balance-Refuses = bind-run_err _ _ s account-Refuses

  target-Refuses : Refuses t s (read_receive_target t)
  unfolding read_receive_target
  target-Refuses = bind-run_err _ _ s account-Refuses

  history-Refuses : Refuses t s (read_transaction_history t)
  unfolding read_transaction_history
  history-Refuses = bind-run_err _ _ s account-Refuses

  module-Refuses : Refuses t s (read_module_status t)
  unfolding read_module_status
  module-Refuses = bind-run_err _ _ s account-Refuses

  all-Refuses : Refuses t s (read_all t)
  unfolding read_all
  all-Refuses = bind-run_err _ _ s status-Refuses

  authority-Refuses :
      (magic : WalletHandshakeNetwork → ℕ) (claim : WalletNamespaceLeaseClaim)
      → Refuses t s (read_hns_authority_context t magic claim)
  unfolding read_hns_authority_context
  authority-Refuses magic claim = bind-run_err _ _ s healthy-Refuses

-- On a poisoned controller every operation is an error, and neither the controller nor the world
-- changes: nothing is written to the service, read from it, or drawn from the system.
pub poisoned-Refuses :
    {W : Type 0} (t : Transport W) (s : Service W)
    → s.controller.poisoned ≡ true
    → (magic : WalletHandshakeNetwork → ℕ) (claim : WalletNamespaceLeaseClaim)
    → Refuses t s (read_status t)
      × Refuses t s (list_accounts t)
      × Refuses t s (read_balance t)
      × Refuses t s (read_receive_target t)
      × Refuses t s (read_transaction_history t)
      × Refuses t s (read_module_status t)
      × Refuses t s (read_all t)
      × Refuses t s (read_hns_authority_context t magic claim)
      × ((payload : List ℕ) → Refuses t s (exchange t payload))
unfolding exchange
poisoned-Refuses t s h magic claim = (
  status-Refuses t s h,
  accounts-Refuses t s h,
  balance-Refuses t s h,
  target-Refuses t s h,
  history-Refuses t s h,
  module-Refuses t s h,
  all-Refuses t s h,
  authority-Refuses t s h magic claim,
  λ payload. bind-run_err _ _ s (healthy-Refuses t s h),
)
