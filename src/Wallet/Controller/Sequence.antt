-- ===== src/Wallet/Controller/Sequence.antt =====
-- The channel of a controller over any sequence of operations, failed ones included.
use hns_dane_browser_extensi.Prelude.{
  ℕ, ◌+◌, ◌≡◌, ◌≤◌, refl, true, Option, none, some, checked_add, arith,
}
use hns_dane_browser_extensi.Prelude.Result.{Result, ok, err}
use hns_dane_browser_extensi.Prelude.Exec.Triple.{After}
use hns_dane_browser_extensi.Wallet.Lease.{WalletHandshakeNetwork, WalletNamespaceLeaseClaim}
use hns_dane_browser_extensi.Wallet.Controller.{
  ServiceError, WalletServiceController, WalletServiceProcess, Transport, Service, poison, killed,
}
use hns_dane_browser_extensi.Wallet.Controller.Reads.{
  read_status, list_accounts, read_balance, read_receive_target, read_transaction_history,
  read_module_status, read_all, read_hns_authority_context,
}
use hns_dane_browser_extensi.Wallet.Controller.Keeps.{IsStable}
use hns_dane_browser_extensi.Wallet.Controller.Invariant.{
  read_status-Keeps, list_accounts-Keeps, read_balance-Keeps, read_receive_target-Keeps,
  read_history-Keeps, read_module_status-Keeps, read_all-Keeps, read_authority-Keeps,
}

-- One operation of the controller, whatever it returns.
pub data Step {W : Type 0} (t : Transport W) (s : Service W) : Service W → Type 0 where
  reads_status : Step t s (read_status t s).1
  lists_accounts : Step t s (list_accounts t s).1
  reads_balance : Step t s (read_balance t s).1
  reads_target : Step t s (read_receive_target t s).1
  reads_history : Step t s (read_transaction_history t s).1
  reads_module : Step t s (read_module_status t s).1
  reads_all : Step t s (read_all t s).1
  reads_authority :
      (magic : WalletHandshakeNetwork → ℕ) (claim : WalletNamespaceLeaseClaim)
      → Step t s (read_hns_authority_context t magic claim s).1

pub data Steps {W : Type 0} (t : Transport W) (s : Service W) : Service W → Type 0 where
  start : Steps t s s
  more : (u v : Service W) → Steps t s u → Step t u v → Steps t s v

module _ {P : WalletServiceController → Type 0} (stable : IsStable P P) {W : Type 0}
    (t : Transport W) where
  either_way :
      {A : Type 0} (r : Result ServiceError A) (s : Service W)
      → After (λ _ u. P u.controller) (λ u. P u.controller) r s
      → P s.controller
  either_way (ok a) s p = p
  either_way (err e) s p = p

  Step-stable : (s u : Service W) → Step t s u → P s.controller → P u.controller
  Step-stable s u reads_status p = either_way _ _ (read_status-Keeps stable t s p)
  Step-stable s u lists_accounts p = either_way _ _ (list_accounts-Keeps stable t s p)
  Step-stable s u reads_balance p = either_way _ _ (read_balance-Keeps stable t s p)
  Step-stable s u reads_target p = either_way _ _ (read_receive_target-Keeps stable t s p)
  Step-stable s u reads_history p = either_way _ _ (read_history-Keeps stable t s p)
  Step-stable s u reads_module p = either_way _ _ (read_module_status-Keeps stable t s p)
  Step-stable s u reads_all p = either_way _ _ (read_all-Keeps stable t s p)
  Step-stable s u (reads_authority magic claim) p =
      either_way _ _ (read_authority-Keeps stable t magic claim s p)

  pub Steps-stable : (s u : Service W) → Steps t s u → P s.controller → P u.controller
  Steps-stable s u start p = p
  Steps-stable s u (more v w steps step) p = Step-stable v u step (Steps-stable s v steps p)

-- What the later controller has in common with the earlier one.
pub record Continues (c d : WalletServiceController) : Type 0 where
  pub same_host : d.host_session_id ≡ c.host_session_id
  pub same_service : d.service_session_id ≡ c.service_session_id
  pub same_generation : d.restart_generation ≡ c.restart_generation
  pub same_capabilities : d.capabilities ≡ c.capabilities
  pub in_step :
      d.next_host_sequence + c.next_service_sequence
      ≡ d.next_service_sequence + c.next_host_sequence
  pub no_reuse : c.next_host_sequence ≤ d.next_host_sequence
  pub stays_poisoned : c.poisoned ≡ true → d.poisoned ≡ true

checked_add-some : (n m : ℕ) → checked_add n 1 ≡ some m → m ≡ n + 1
checked_add-some n m h = ground arith

Continues-IsStable : (c : WalletServiceController) → IsStable (Continues c) (Continues c)
unfolding poison
Continues-IsStable c = record {
  weaken = λ d p. p;
  poisons = λ d p. record {
    same_host = p.same_host;
    same_service = p.same_service;
    same_generation = p.same_generation;
    same_capabilities = p.same_capabilities;
    in_step = p.in_step;
    no_reuse = p.no_reuse;
    stays_poisoned = λ h. refl;
  };
  advances = λ d host service h k p. record {
    same_host = p.same_host;
    same_service = p.same_service;
    same_generation = p.same_generation;
    same_capabilities = p.same_capabilities;
    in_step = omega (
      arith,
      p.in_step,
      checked_add-some d.next_host_sequence host h,
      checked_add-some d.next_service_sequence service k,
    );
    no_reuse = omega (arith, p.no_reuse, checked_add-some d.next_host_sequence host h);
    stays_poisoned = p.stays_poisoned;
  };
  selects = λ d active account p. record {
    same_host = p.same_host;
    same_service = p.same_service;
    same_generation = p.same_generation;
    same_capabilities = p.same_capabilities;
    in_step = p.in_step;
    no_reuse = p.no_reuse;
    stays_poisoned = p.stays_poisoned;
  };
}

Continues-refl : (c : WalletServiceController) → Continues c c
Continues-refl c = record {
  same_host = refl;
  same_service = refl;
  same_generation = refl;
  same_capabilities = refl;
  in_step = omega arith;
  no_reuse = omega arith;
  stays_poisoned = λ h. h;
}

-- Over any operations, failed ones included: the two session identifiers, the restart generation and
-- the capabilities stay what was negotiated, the two sequences move by the same amount and never
-- back, and a poisoned controller stays poisoned.
pub Steps-Continues :
    {W : Type 0} (t : Transport W) (s u : Service W)
    → Steps t s u
    → Continues s.controller u.controller
Steps-Continues t s u steps =
    Steps-stable (Continues-IsStable s.controller) t s u steps (Continues-refl s.controller)

-- A poisoned controller has no running process.
abbrev pub IsStopped : WalletServiceController → Type 0
IsStopped c = c.poisoned ≡ true → c.process ≡ killed c.process

killed-killed : (p : Option WalletServiceProcess) → killed p ≡ killed (killed p)
killed-killed none = refl
killed-killed (some p) = refl

IsStopped-IsStable : IsStable IsStopped IsStopped
unfolding poison
IsStopped-IsStable = record {
  weaken = λ c p. p;
  poisons = λ c p h. killed-killed c.process;
  advances = λ c host service h k p. p;
  selects = λ c active account p. p;
}

-- Where no poisoned controller has a running process, none has one after any operations.
pub Steps-IsStopped :
    {W : Type 0} (t : Transport W) (s u : Service W)
    → Steps t s u
    → IsStopped s.controller
    → IsStopped u.controller
Steps-IsStopped t s u steps p = Steps-stable IsStopped-IsStable t s u steps p
