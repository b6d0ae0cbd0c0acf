-- ===== src/Wallet/Controller/Invariant.antt =====
-- A condition that is stable is kept by every operation of the controller.
use hns_dane_browser_extensi.Prelude.{ℕ, Bool, some, List}
use hns_dane_browser_extensi.Prelude.Exec.{pure, ◌>>=◌}
use hns_dane_browser_extensi.Wallet.Lease.{WalletHandshakeNetwork, WalletNamespaceLeaseClaim}
use hns_dane_browser_extensi.Wallet.Responses.{WalletReadOnlyResponseKind}
use hns_dane_browser_extensi.Wallet.Controller.{
  WalletServiceController, WalletReadOnlyServiceRequest, WalletReadOnlyServiceResponse, wallet,
  wallet_authority, failure, WalletServiceResponseKind, Transport, service_failed, violates,
  advance_sequences, exchange, accept_body, service_request,
}
use hns_dane_browser_extensi.Wallet.Controller.Reads.{
  select_wallet, require_selected_hns_account, wallet_request, read_status, list_accounts,
  read_balance, read_receive_target, read_transaction_history, read_module_status, read_all,
  read_hns_authority_context,
}
use hns_dane_browser_extensi.Wallet.Controller.Keeps.{
  IsStable, Keeps, bind-Keeps, pure-Keeps, raise-Keeps, reject-Keeps, violates-Keeps, parsed-Keeps,
  required-Keeps, reading-Keeps, calling-Keeps, calling_or_poison-Keeps, advance_sequences-Keeps,
  require_healthy-Keeps, select_wallet-Keeps, update-Keeps,
}

module _ {P X : WalletServiceController → Type 0} (stable : IsStable P X) {W : Type 0}
    (t : Transport W) where
  exchange-Keeps : (payload : List ℕ) → Keeps stable (exchange t payload)
  unfolding exchange
  exchange-Keeps payload = bind-Keeps stable _ _ (require_healthy-Keeps stable) (λ _.
      bind-Keeps stable _ _ (calling_or_poison-Keeps stable _) (λ _.
        bind-Keeps stable _ _ (calling_or_poison-Keeps stable _)
          (λ _. calling_or_poison-Keeps stable _)))

  accepted :
      (response : WalletReadOnlyServiceResponse) (bad : Bool)
      → Keeps stable {W = W} (violates bad >>= λ _. advance_sequences >>= λ _. pure response)
  accepted response bad = bind-Keeps stable _ _ (violates-Keeps stable bad) (λ _.
      bind-Keeps stable _ _ (advance_sequences-Keeps stable) (λ _. pure-Keeps stable response))

  accept_body-Keeps :
      (response : WalletReadOnlyServiceResponse) (expected : WalletServiceResponseKind)
      → Keeps stable (accept_body t response expected)
  unfolding accept_body
  accept_body-Keeps (failure f) expected = bind-Keeps stable _ _ (violates-Keeps stable _) (λ _.
      bind-Keeps stable _ _ (violates-Keeps stable _) (λ _.
        bind-Keeps stable _ _ (advance_sequences-Keeps stable)
          (λ _. raise-Keeps stable _ (service_failed f.code))))
  accept_body-Keeps (wallet r) expected = accepted (wallet r) _
  accept_body-Keeps (wallet_authority c) expected = accepted (wallet_authority c) _

  pub service_request-Keeps :
      (body : WalletReadOnlyServiceRequest) (expected : WalletServiceResponseKind)
      → Keeps stable (service_request t body expected)
  unfolding service_request
  service_request-Keeps body expected =
      bind-Keeps stable _ _ (calling-Keeps stable _) (λ request_id.
        bind-Keeps stable _ _ (reading-Keeps stable _) (λ envelope.
          bind-Keeps stable _ _ (required-Keeps stable _ _) (λ payload.
            bind-Keeps stable _ _ (exchange-Keeps payload) (λ bytes.
              bind-Keeps stable _ _ (parsed-Keeps stable _) (λ response.
                bind-Keeps stable _ _ (reading-Keeps stable _) (λ mismatch.
                  bind-Keeps stable _ _ (violates-Keeps stable mismatch)
                    (λ _. accept_body-Keeps response.body expected)))))))

  require_account-Keeps : Keeps stable (require_selected_hns_account t)
  unfolding require_selected_hns_account
  require_account-Keeps = bind-Keeps stable _ _ (require_healthy-Keeps stable) (λ _.
      bind-Keeps stable _ _ (reading-Keeps stable _) (λ selected. required-Keeps stable selected _))

  wallet_request-Keeps :
      (request : WalletReadOnlyServiceRequest) (expected : WalletReadOnlyResponseKind)
      → Keeps stable (wallet_request t request expected)
  unfolding wallet_request
  wallet_request-Keeps request expected = bind-Keeps stable _ _ (require_healthy-Keeps stable) (λ _.
      bind-Keeps stable _ _ (reading-Keeps stable _) (λ capabilities.
        bind-Keeps stable _ _ (reject-Keeps stable _ _) (λ _.
          bind-Keeps stable _ _ (service_request-Keeps request _)
            (λ response. parsed-Keeps stable _))))

  pub read_status-Keeps : Keeps stable (read_status t)
  unfolding read_status
  read_status-Keeps = bind-Keeps stable _ _ (wallet_request-Keeps _ _) (λ response.
      bind-Keeps stable _ _ (parsed-Keeps stable _) (λ status.
        bind-Keeps stable _ _ (violates-Keeps stable _) (λ _.
          bind-Keeps stable _ _ (reading-Keeps stable _) (λ selected.
            bind-Keeps stable _ _ (violates-Keeps stable _) (λ _.
              bind-Keeps stable _ _
                (update-Keeps stable (select_wallet status) (select_wallet-Keeps stable status))
                (λ _. pure-Keeps stable status))))))

  pub list_accounts-Keeps : Keeps stable (list_accounts t)
  unfolding list_accounts
  list_accounts-Keeps = bind-Keeps stable _ _ (wallet_request-Keeps _ _) (λ response.
      bind-Keeps stable _ _ (parsed-Keeps stable _) (λ accounts.
        bind-Keeps stable _ _ (parsed-Keeps stable _) (λ account.
          bind-Keeps stable _ _ (reading-Keeps stable _) (λ selected.
            bind-Keeps stable _ _ (violates-Keeps stable _) (λ _.
              bind-Keeps stable _ _
                (update-Keeps stable _
                  (λ c p. stable.selects c c.selected_active_wallet (some account.account_id) p))
                (λ _. pure-Keeps stable account))))))

  -- The four reads of the selected account: a request, its class, a test on it.
  pub read_balance-Keeps : Keeps stable (read_balance t)
  unfolding read_balance
  read_balance-Keeps = bind-Keeps stable _ _ require_account-Keeps (λ account.
      bind-Keeps stable _ _ (wallet_request-Keeps _ _) (λ response.
        bind-Keeps stable _ _ (parsed-Keeps stable _) (λ amount.
          bind-Keeps stable _ _ (violates-Keeps stable _) (λ _. pure-Keeps stable amount))))

  pub read_receive_target-Keeps : Keeps stable (read_receive_target t)
  unfolding read_receive_target
  read_receive_target-Keeps = bind-Keeps stable _ _ require_account-Keeps (λ account.
      bind-Keeps stable _ _ (wallet_request-Keeps _ _) (λ response.
        bind-Keeps stable _ _ (parsed-Keeps stable _) (λ target.
          bind-Keeps stable _ _ (violates-Keeps stable _) (λ _. pure-Keeps stable target))))

  pub read_history-Keeps : Keeps stable (read_transaction_history t)
  unfolding read_transaction_history
  read_history-Keeps = bind-Keeps stable _ _ require_account-Keeps (λ account.
      bind-Keeps stable _ _ (wallet_request-Keeps _ _) (λ response.
        bind-Keeps stable _ _ (parsed-Keeps stable _) (λ transactions.
          bind-Keeps stable _ _ (violates-Keeps stable _) (λ _. pure-Keeps stable transactions))))

  pub read_module_status-Keeps : Keeps stable (read_module_status t)
  unfolding read_module_status
  read_module_status-Keeps = bind-Keeps stable _ _ require_account-Keeps (λ account.
      bind-Keeps stable _ _ (wallet_request-Keeps _ _) (λ response.
        bind-Keeps stable _ _ (parsed-Keeps stable _) (λ status.
          bind-Keeps stable _ _ (violates-Keeps stable _) (λ _. pure-Keeps stable status))))

  pub read_all-Keeps : Keeps stable (read_all t)
  unfolding read_all
  read_all-Keeps = bind-Keeps stable _ _ read_status-Keeps (λ status.
      bind-Keeps stable _ _ (reject-Keeps stable _ _) (λ _.
        bind-Keeps stable _ _ list_accounts-Keeps (λ account.
          bind-Keeps stable _ _ read_balance-Keeps (λ balance.
            bind-Keeps stable _ _ read_receive_target-Keeps (λ target.
              bind-Keeps stable _ _ read_history-Keeps (λ transactions.
                bind-Keeps stable _ _ read_module_status-Keeps
                  (λ module_status. pure-Keeps stable _)))))))

  pub read_authority-Keeps :
      (magic : WalletHandshakeNetwork → ℕ) (claim : WalletNamespaceLeaseClaim)
      → Keeps stable (read_hns_authority_context t magic claim)
  unfolding read_hns_authority_context
  read_authority-Keeps magic claim = bind-Keeps stable _ _ (require_healthy-Keeps stable) (λ _.
      bind-Keeps stable _ _ (reading-Keeps stable _) (λ capabilities.
        bind-Keeps stable _ _ (reject-Keeps stable _ _) (λ _.
          bind-Keeps stable _ _ (reading-Keeps stable _) (λ selected.
            bind-Keeps stable _ _ (required-Keeps stable _ _) (λ active_wallet.
              bind-Keeps stable _ _ require_account-Keeps (λ account.
                bind-Keeps stable _ _ (violates-Keeps stable _) (λ _.
                  bind-Keeps stable _ _ (service_request-Keeps _ _) (λ response.
                    bind-Keeps stable _ _ (parsed-Keeps stable _) (λ context.
                      bind-Keeps stable _ _ (violates-Keeps stable _)
                        (λ _. pure-Keeps stable context))))))))))
