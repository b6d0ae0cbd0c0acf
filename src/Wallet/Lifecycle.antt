-- ===== src/Wallet/Lifecycle.antt =====
-- `WalletReadSessionLifecycle` of wallet_abi.rs: the slot of the one active read session.
pub mod Generations
use hns_dane_browser_extensi.Prelude.{
  ℕ, Bool, true, false, ◌&&◌, ◌||◌, not, Option, none, some, ◌==◌, checked_add, if◌then◌else◌,
}
use hns_dane_browser_extensi.Prelude.Result.{Result, ok, err}
use hns_dane_browser_extensi.Wallet.Capability.{
  hns_wallet_authority_context_v1, has, holds_required, is_subset, collect_set,
  wallet_read_session_allowed_capabilities,
}
use hns_dane_browser_extensi.Wallet.Controller.{WalletServiceController, poison}

-- `AdmittedWalletReadSession`, by its generation and its controller.
pub record AdmittedWalletReadSession : Type 0 where
  pub controller : WalletServiceController
  pub restart_generation : ℕ

pub record WalletReadSessionLifecycle : Type 0 where
  pub next_restart_generation : ℕ
  pub active : Option AdmittedWalletReadSession

-- `io::Error` by its kind here; what the start of a session failed with is `startup`.
pub data LifecycleError : Type 0 where
  generation_exhausted stale not_active not_connected not_admitted : LifecycleError
  startup : ℕ → LifecycleError
  operation_failed : ℕ → LifecycleError

unfoldable pub new_lifecycle : WalletReadSessionLifecycle
new_lifecycle = record { next_restart_generation = 1; active = none }

-- `AdmittedWalletReadSession::new`; `attested` says that the database was revalidated and the process
-- attested to hold it open. On `none` the controller is poisoned and dropped.
unfoldable pub new_session : WalletServiceController → ℕ → Bool → Option AdmittedWalletReadSession
new_session controller generation attested =
    if not (controller.restart_generation == generation)
      || not (holds_required controller.capabilities)
      || not
          (is_subset controller.capabilities (collect_set wallet_read_session_allowed_capabilities))
      || not attested
    then none
    else some (record { controller = controller; restart_generation = generation })

-- What `take_lease` and `compose_admitted_read_session` come to up to `AdmittedWalletReadSession::new`.
pub data Startup : Type 0 where
  no_lease : Startup
  startup_failed : ℕ → Startup
  negotiated : WalletServiceController → Bool → Startup

abbrev admitted :
    ℕ
    → Option AdmittedWalletReadSession
    → WalletReadSessionLifecycle
    → Result LifecycleError ℕ × WalletReadSessionLifecycle
admitted generation none l = (err not_admitted, l)
admitted generation (some session) l = (ok generation, record l { active = some session })

abbrev started :
    ℕ → WalletReadSessionLifecycle → Startup → Result LifecycleError ℕ × WalletReadSessionLifecycle
started generation l no_lease = (err not_connected, l)
started generation l (startup_failed e) = (err (startup e), l)
started generation l (negotiated controller attested) =
    admitted generation (new_session controller generation attested) l

abbrev start_at :
    Option ℕ
    → (ℕ → Startup)
    → WalletReadSessionLifecycle
    → Result LifecycleError ℕ × WalletReadSessionLifecycle
start_at none compose l = (err generation_exhausted, l)
start_at (some next) compose l =
    started l.next_restart_generation (record { next_restart_generation = next; active = none })
      (compose l.next_restart_generation)

unfoldable pub start :
    (ℕ → Startup)
    → WalletReadSessionLifecycle
    → Result LifecycleError ℕ × WalletReadSessionLifecycle
start compose l = start_at (checked_add l.next_restart_generation 1) compose l

abbrev pub is_generation : Option AdmittedWalletReadSession → ℕ → Bool
is_generation none generation = false
is_generation (some session) generation = session.restart_generation == generation

unfoldable pub invalidate : ℕ → WalletReadSessionLifecycle → Bool × WalletReadSessionLifecycle
invalidate generation l =
    if is_generation l.active generation then (true, record l { active = none }) else (false, l)

-- What an operation on a session does: it returns with the controller it leaves, or it unwinds, after which the slot is emptied.
pub data Operated (A : Type 0) : Type 0 where
  returned : Result ℕ A → WalletServiceController → Operated A
  unwound : Operated A

pub data Outcome (A : Type 0) : Type 0 where
  result : Result LifecycleError A → Outcome A
  panic : Outcome A

-- `if active.is_some_and(is_poisoned) { active = None }`
abbrev pub kept_healthy : AdmittedWalletReadSession → Option AdmittedWalletReadSession
kept_healthy session = if session.controller.poisoned then none else some session

module _ {A : Type 0} where
  abbrev pub result_of : Result ℕ A → Result LifecycleError A
  result_of (ok a) = ok a
  result_of (err e) = err (operation_failed e)

  abbrev pub operated :
      AdmittedWalletReadSession
      → WalletReadSessionLifecycle
      → Operated A
      → Outcome A × WalletReadSessionLifecycle
  operated session l (returned r controller) = (
    result (result_of r),
    record l { active = kept_healthy (record session { controller = controller }) },
  )
  operated session l unwound = (panic, record l { active = none })

  abbrev pub execute_on :
      ℕ
      → Option AdmittedWalletReadSession
      → (AdmittedWalletReadSession → Operated A)
      → WalletReadSessionLifecycle
      → Outcome A × WalletReadSessionLifecycle
  execute_on generation none operation l = (result (err not_active), l)
  execute_on generation (some session) operation l =
      if session.restart_generation == generation
      then operated session l (operation session)
      else (result (err stale), record l { active = kept_healthy session })

  unfoldable pub execute_active :
      ℕ
      → (AdmittedWalletReadSession → Operated A)
      → WalletReadSessionLifecycle
      → Outcome A × WalletReadSessionLifecycle
  execute_active generation operation l = execute_on generation l.active operation l

abbrev offers_authority : Option AdmittedWalletReadSession → Bool
offers_authority none = false
offers_authority (some session) =
    not session.controller.poisoned
    && has session.controller.capabilities hns_wallet_authority_context_v1

unfoldable pub authority_context_available_with_release_qualification :
    Bool → WalletReadSessionLifecycle → Bool
authority_context_available_with_release_qualification release_qualified l =
    release_qualified && offers_authority l.active

abbrev pub hrm_hnsa_wallet_consumer_release_qualified : Bool
hrm_hnsa_wallet_consumer_release_qualified = false

unfoldable pub authority_context_available : WalletReadSessionLifecycle → Bool
authority_context_available l =
    authority_context_available_with_release_qualification
      hrm_hnsa_wallet_consumer_release_qualified l
