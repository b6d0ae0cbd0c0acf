-- ===== src/PoolStats/Engine/Lease.antt =====
-- The lease around an admission under the engine's guard.
use hns_dane_browser_extensi.Prelude.{ℕ, ◌≡◌, refl, sym, ap, ◌∙◌, Option, none, some, List}
use hns_dane_browser_extensi.Prelude.Result.{Result, ok, err}
use hns_dane_browser_extensi.PoolStats.Error.{HrmPoolStatsError}
use hns_dane_browser_extensi.PoolStats.Crypto.{Crypto}
use hns_dane_browser_extensi.PoolStats.Authority.{HrmPoolStatsRequest, validate}
use hns_dane_browser_extensi.PoolStats.Document.{Formats}
use hns_dane_browser_extensi.PoolStats.State.{HrmPoolStatsState}
use hns_dane_browser_extensi.PoolStats.Admission.{VerifiedHrmPoolStatsSnapshot}
use hns_dane_browser_extensi.PoolStats.Commit.{Commit, Outcome, verify_hrm_and_commit}
use hns_dane_browser_extensi.PoolStats.Engine.{
  ActiveService, EngineGuard, mapped, when_valid, mapped_active, current_hrm_named_service,
  withhold_unless, recheck, admit_under, admit_when_held, verify_engine_current_hrm_and_commit,
}

module _ {W E : Type 0} (c : Crypto) (f : Formats) (g : EngineGuard W) (r : HrmPoolStatsRequest)
    (document : List ℕ) (commit : Commit W E) (s : HrmPoolStatsState) (w : W) where
  -- The lease was held before and after, and in between the mapped authority admitted `v`.
  pub record HeldThroughout (v : VerifiedHrmPoolStatsSnapshot) (t : HrmPoolStatsState)
      : Type 0 where
    pub service : ActiveService
    pub service_eq : g.active ≡ some service
    pub authority_valid : validate c (mapped g service) ≡ ok tt
    pub held_before : (g.ensure_lease_held w).0 ≡ some tt
    pub inner : Outcome W E
    pub inner_eq :
        inner
        ≡ verify_hrm_and_commit c f (mapped g service) r document commit s (g.ensure_lease_held w).1
    pub inner_released : inner.result ≡ ok v
    pub inner_state : inner.state ≡ t
    pub held_after : (g.ensure_lease_held inner.world).0 ≡ some tt

  -- The guard's answer at the second look.
  recheck-ok :
      (o : Outcome W E) (v : VerifiedHrmPoolStatsSnapshot)
      → (recheck g o).result ≡ ok v
      → (o.result ≡ ok v)
        × ((recheck g o).state ≡ o.state)
        × ((g.ensure_lease_held o.world).0 ≡ some tt)
  recheck-ok o v h = go (g.ensure_lease_held o.world).0 refl h
    where
      go :
          (held : Option (Unit {0}))
          → (g.ensure_lease_held o.world).0 ≡ held
          → (withhold_unless held o (g.ensure_lease_held o.world).1).result ≡ ok v
          → (o.result ≡ ok v)
            × ((recheck g o).state ≡ o.state)
            × ((g.ensure_lease_held o.world).0 ≡ some tt)
      go none e k = cc
      go (some tt) e k = (k, rw (e, recheck), e)

  abbrev w1 : W
  w1 = (g.ensure_lease_held w).1

  valid-Held :
      (v : VerifiedHrmPoolStatsSnapshot) (service : ActiveService)
      (m : Result HrmPoolStatsError (Unit {0}))
      → validate c (mapped g service) ≡ m
      → g.active ≡ some service
      → (g.ensure_lease_held w).0 ≡ some tt
      → (o : Outcome W E)
      → o ≡ admit_under c f g r document commit s (when_valid (mapped g service) m) w1
      → o.result ≡ ok v
      → HeldThroughout v o.state
  valid-Held v service (err e) valid active held o eq h = cc (ap (λ (x : Outcome W E). x.result) eq)
  valid-Held v service (ok tt) valid active held o eq h =
      let inner = verify_hrm_and_commit c f (mapped g service) r document commit s w1 in
      let (released, same, held_after) =
        recheck-ok inner v (sym (ap (λ (x : Outcome W E). x.result) eq) ∙ h) in
      record {
        service = service;
        service_eq = active;
        authority_valid = valid;
        held_before = held;
        inner = inner;
        inner_eq = refl;
        inner_released = released;
        inner_state = sym (ap (λ (x : Outcome W E). x.state) eq ∙ same);
        held_after = held_after;
      }

  active-Held :
      (v : VerifiedHrmPoolStatsSnapshot) (active : Option ActiveService)
      → g.active ≡ active
      → (g.ensure_lease_held w).0 ≡ some tt
      → (o : Outcome W E) → o ≡ admit_under c f g r document commit s (mapped_active c g active) w1
      → o.result ≡ ok v
      → HeldThroughout v o.state
  active-Held v none e held o eq h = cc (ap (λ (x : Outcome W E). x.result) eq)
  active-Held v (some service) e held o eq h = valid-Held v service _ refl e held o eq h

  lease-Held :
      (v : VerifiedHrmPoolStatsSnapshot) (held : Option (Unit {0}))
      → (g.ensure_lease_held w).0 ≡ held
      → (o : Outcome W E) → o ≡ admit_when_held c f g r document commit s held w1
      → o.result ≡ ok v
      → HeldThroughout v o.state
  unfolding current_hrm_named_service
  lease-Held v none e o eq h = cc (ap (λ (x : Outcome W E). x.result) eq)
  lease-Held v (some tt) e o eq h = active-Held v g.active refl e o eq h

  -- A snapshot is released under the engine's guard only where the lease was held both before the
  -- admission and after its commit, by an admission under the authority that the guard's active
  -- service stands for, which is valid; the caller's state is the one that this admission left.
  pub release_holds_lease :
      (v : VerifiedHrmPoolStatsSnapshot)
      → (verify_engine_current_hrm_and_commit c f g r document commit s w).result ≡ ok v
      → HeldThroughout v (verify_engine_current_hrm_and_commit c f g r document commit s w).state
  unfolding verify_engine_current_hrm_and_commit
  release_holds_lease v h = lease-Held v _ refl _ refl h
