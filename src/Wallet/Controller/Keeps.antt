-- ===== src/Wallet/Controller/Keeps.antt =====
-- What every operation of the controller keeps, from what the few places keep that write to it.
use hns_dane_browser_extensi.Prelude.{
  ℕ, ◌≡◌, refl, Bool, true, false, Option, none, some, List, checked_add, if◌then◌else◌,
}
use hns_dane_browser_extensi.Prelude.Result.{Result, ok, err}
use hns_dane_browser_extensi.Prelude.Exec.{pure, raise, reject, ◌>>=◌}
use hns_dane_browser_extensi.Prelude.Exec.Triple.{After, Triple, bind-Triple}
use hns_dane_browser_extensi.Wallet.Responses.{WalletReadOnlyStatus}
use hns_dane_browser_extensi.Wallet.Controller.{
  ServiceError, WalletServiceController, Service, Run, poison, protocol_error, violates, parsed,
  required, reading, update, calling, calling_or_poison, after_failure, advance_sequences,
  require_healthy,
}
use hns_dane_browser_extensi.Wallet.Controller.Reads.{select_wallet, select_active}

-- `P` holds while an operation goes well, and `X` when it ends in an error.
pub record IsStable (P X : WalletServiceController → Type 0) : Type 0 where
  pub weaken : (c : WalletServiceController) → P c → X c
  pub poisons : (c : WalletServiceController) → P c → X (poison c)
  pub advances :
      (c : WalletServiceController) (host service : ℕ)
      → checked_add c.next_host_sequence 1 ≡ some host
      → checked_add c.next_service_sequence 1 ≡ some service
      → P c
      → P (record c { next_host_sequence = host; next_service_sequence = service })
  pub selects :
      (c : WalletServiceController) (active account : Option (List ℕ))
      → P c
      → P (record c { selected_active_wallet = active; selected_hns_account = account })

module _ {P X : WalletServiceController → Type 0} (stable : IsStable P X) where
  chosen : (b : Bool) (x y : WalletServiceController) → P x → P y → P (if b then x else y)
  chosen true x y p q = p
  chosen false x y p q = q

  pub select_active-Keeps :
      (o : Option (List ℕ)) (c : WalletServiceController) → P c → P (select_active o c)
  select_active-Keeps none c p = p
  select_active-Keeps (some active) c p = stable.selects c (some active) c.selected_hns_account p

  pub select_wallet-Keeps :
      (status : WalletReadOnlyStatus) (c : WalletServiceController)
      → P c
      → P (select_wallet status c)
  unfolding select_wallet
  select_wallet-Keeps status c p =
      let q = select_active-Keeps status.active_wallet c p in
      chosen _ _ _ (stable.selects (select_active status.active_wallet c) none none q) q

module _ {P X : WalletServiceController → Type 0} (stable : IsStable P X) {W : Type 0} where
  abbrev pub At : (WalletServiceController → Type 0) → Service W → Type 0
  At Q s = Q s.controller

  abbrev pub Keeps : {A : Type 0} → Run W A → Type 0
  Keeps m = Triple (At P) m (λ _. At P) (At X)

  pub bind-Keeps :
      {A B : Type 0} (m : Run W A) (k : A → Run W B)
      → Keeps m
      → ((a : A) → Keeps (k a))
      → Keeps (m >>= k)
  bind-Keeps m k h t = bind-Triple (At X) (At P) (λ _. At P) (λ _. At P) m k h t

  pub pure-Keeps : {A : Type 0} (a : A) → Keeps (pure a)
  unfolding pure
  pure-Keeps a s p = p

  pub raise-Keeps : (A : Type 0) (e : ServiceError) → Keeps (raise {A = A} e)
  unfolding raise
  raise-Keeps A e s p = stable.weaken s.controller p

  pub reject-Keeps : (bad : Bool) (e : ServiceError) → Keeps (reject bad e)
  unfolding reject
  reject-Keeps true e s p = stable.weaken s.controller p
  reject-Keeps false e s p = p

  pub violates-Keeps : (bad : Bool) → Keeps (violates bad)
  unfolding violates protocol_error
  violates-Keeps true s p = stable.poisons s.controller p
  violates-Keeps false s p = p

  pub parsed-Keeps : {A : Type 0} (o : Option A) → Keeps (parsed o)
  unfolding parsed protocol_error
  parsed-Keeps none s p = stable.poisons s.controller p
  parsed-Keeps (some a) s p = p

  pub required-Keeps : {A : Type 0} (o : Option A) (e : ServiceError) → Keeps (required o e)
  unfolding required
  required-Keeps none e s p = stable.weaken s.controller p
  required-Keeps (some a) e s p = p

  pub reading-Keeps : {A : Type 0} (f : WalletServiceController → A) → Keeps (reading f)
  unfolding reading
  reading-Keeps f s p = p

  ended :
      {A : Type 0} (r : Result ServiceError A) (s : Service W)
      → At P s
      → After (λ _. At P) (At X) r s
  ended (ok a) s p = p
  ended (err e) s p = stable.weaken s.controller p

  ended_or_poisoned :
      {A : Type 0} (r : Result ServiceError A) (s : Service W)
      → At P s
      → After (λ _. At P) (At X) (after_failure (r, s)).0 (after_failure (r, s)).1
  ended_or_poisoned (ok a) s p = p
  ended_or_poisoned (err e) s p = stable.poisons s.controller p

  pub calling-Keeps : {A : Type 0} (call : W → Result ServiceError A × W) → Keeps (calling call)
  unfolding calling
  calling-Keeps call s p = ended (call s.world).0 (record s { world = (call s.world).1 }) p

  pub calling_or_poison-Keeps :
      {A : Type 0} (call : W → Result ServiceError A × W) → Keeps (calling_or_poison call)
  unfolding calling_or_poison calling
  calling_or_poison-Keeps call s p =
      ended_or_poisoned (call s.world).0 (record s { world = (call s.world).1 }) p

  -- A parsed value, with the equation that says where it comes from.
  parsed_then :
      {A B : Type 0} (o : Option A) (k : A → Run W B) (s : Service W)
      → At P s
      → ((a : A) → o ≡ some a → After (λ _. At P) (At X) (k a s).0 (k a s).1)
      → After (λ _. At P) (At X) ((parsed o >>= k) s).0 ((parsed o >>= k) s).1
  unfolding ◌>>=◌ parsed protocol_error
  parsed_then none k s p t = stable.poisons s.controller p
  parsed_then (some a) k s p t = t a refl

  pub advance_sequences-Keeps : Keeps advance_sequences
  unfolding advance_sequences reading update ◌>>=◌
  advance_sequences-Keeps s p =
      parsed_then (checked_add s.controller.next_host_sequence 1) _ s p (λ host e.
        parsed_then (checked_add s.controller.next_service_sequence 1) _ s p
          (λ service f. stable.advances s.controller host service e f p))

  pub require_healthy-Keeps : Keeps require_healthy
  unfolding require_healthy
  require_healthy-Keeps =
      bind-Keeps (reading (λ c. c.poisoned)) _ (reading-Keeps (λ c. c.poisoned))
        (λ poisoned. reject-Keeps poisoned _)

  pub update-Keeps :
      (f : WalletServiceController → WalletServiceController)
      → ((c : WalletServiceController) → P c → P (f c))
      → Keeps (update f)
  unfolding update
  update-Keeps f keeps s p = keeps s.controller p
