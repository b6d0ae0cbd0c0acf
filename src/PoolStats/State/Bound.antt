-- ===== src/PoolStats/State/Bound.antt =====
-- An authority that `observe_authority` accepts is the one that the state is bound to.
use hns_dane_browser_extensi.Prelude.{
  ℕ, ◌≡◌, sym, Bool, true, false, Bool-cases, inl, inr, ltb, ◌==◌, ==_iff, bytes_eq→eq,
  bytes_eq_refl, arith,
}
use hns_dane_browser_extensi.Prelude.Result.{ok}
use hns_dane_browser_extensi.Prelude.Exec.{>>=-eq-ok, gets-bind_ok, reject-bind_ok, ◌>>=◌}
use hns_dane_browser_extensi.PoolStats.Authority.{HrmPoolStatsRequest, CurrentHrmNamedService}
use hns_dane_browser_extensi.PoolStats.State.{
  active, HrmPoolStatsState, bump_generation, mark_conflicted, require_active, matches_current,
}
use hns_dane_browser_extensi.PoolStats.State.Observe.{
  observe_first, observe_next, observe_rest, observe_authority, advance_time, conflict_when,
  check_equal_revision, adopt_authority, scope_differs, authority_moved_back, lineage_conflicts,
  authority_advances, observation_differs,
}

-- The state names the authority that was observed last.
pub record IsBound (a : CurrentHrmNamedService) (r : HrmPoolStatsRequest) (s : HrmPoolStatsState)
    : Type 0 where
  pub status_eq : s.status ≡ active
  pub time_eq : s.trusted_time_high_water ≡ r.trusted_now
  pub network_eq : s.network_magic ≡ a.network_magic
  pub name_eq : s.name_hash ≡ a.name_hash
  pub revision_eq : s.authority_revision ≡ a.authority_revision
  pub sequence_eq : s.hrm_sequence ≡ a.hrm_sequence
  pub envelope_eq : s.hrm_envelope_hash ≡ a.hrm_envelope_hash
  pub resource_eq : s.service_resource_id ≡ a.service_resource_id
  pub delegation_eq : s.service_delegation_id ≡ a.service_delegation_id
  pub generation_eq : s.service_generation ≡ a.service_generation

pub IsBound-matches_current :
    (a : CurrentHrmNamedService) (r : HrmPoolStatsRequest) (s : HrmPoolStatsState)
    → IsBound a r s
    → matches_current a r s ≡ true
unfolding matches_current
IsBound-matches_current a r s b =
    rw
      (
        b.status_eq, b.time_eq, b.network_eq, b.name_eq, b.revision_eq, b.sequence_eq,
        b.envelope_eq, b.resource_eq, b.delegation_eq, b.generation_eq,
      )
      (ground (
        arith,
        bytes_eq_refl a.name_hash,
        bytes_eq_refl a.hrm_envelope_hash,
        bytes_eq_refl a.service_resource_id,
        bytes_eq_refl a.service_delegation_id,
      ))

conflict_when-ok :
    (b : Bool) (s : HrmPoolStatsState) {t : HrmPoolStatsState}
    → conflict_when b s ≡ (ok tt, t)
    → (b ≡ false) × (t ≡ s)
unfolding conflict_when mark_conflicted ◌>>=◌
conflict_when-ok true s h = ground arith
conflict_when-ok false s h = ground arith

check_equal_revision-ok :
    (a : CurrentHrmNamedService) (r : HrmPoolStatsRequest) (p : ℕ) (s : HrmPoolStatsState)
    {t : HrmPoolStatsState}
    → check_equal_revision a r p s ≡ (ok tt, t)
    → (t ≡ s)
      × ((a.authority_revision == s.authority_revision) ≡ true → observation_differs a s ≡ false)
unfolding check_equal_revision ◌>>=◌ conflict_when mark_conflicted
check_equal_revision-ok a r p s h = ground arith

pub require_active-ok :
    (s : HrmPoolStatsState) {t : HrmPoolStatsState}
    → require_active s ≡ (ok tt, t)
    → (t ≡ s) × (s.status ≡ active)
unfolding require_active
require_active-ok s h = ground arith

-- What a successful `observe_rest` has tested, and the state that it adopted.
record Accepted (a : CurrentHrmNamedService) (s t : HrmPoolStatsState) : Type 0 where
  not_back : authority_moved_back a s ≡ false
  same_observation :
      (a.authority_revision == s.authority_revision) ≡ true → observation_differs a s ≡ false
  same_lineage : lineage_conflicts a s ≡ false
  adopts : adopt_authority a s ≡ (ok tt, t)
  is_active : t.status ≡ active

observe_rest-Accepted :
    (a : CurrentHrmNamedService) (r : HrmPoolStatsRequest) (p : ℕ) (s : HrmPoolStatsState)
    {t : HrmPoolStatsState}
    → observe_rest a r p s ≡ (ok tt, t)
    → Accepted a s t
unfolding observe_rest
observe_rest-Accepted a r p s {t} h =
    let h1 = gets-bind_ok _ _ s h in
    let (not_back, h2) = reject-bind_ok _ _ _ s h1 in
    let checked = >>=-eq-ok _ _ s h2 in
    let (same, observed) = check_equal_revision-ok a r p s checked.first in
    let h3 = gets-bind_ok _ _ checked.between checked.second in
    let lineage = >>=-eq-ok _ _ checked.between h3 in
    let (no_conflict, same') = conflict_when-ok _ checked.between lineage.first in
    let adopting = >>=-eq-ok _ _ lineage.between lineage.second in
    let (same'', is_active) = require_active-ok adopting.between adopting.second in
    record {
      not_back = not_back;
      same_observation = observed;
      same_lineage = rw same at no_conflict;
      adopts = cc (adopting.first, same, same', same'');
      is_active = rw same'' is_active;
    }

-- The fields that `observe_rest` leaves alone, and the time that was set before it.
record IsTimed (a : CurrentHrmNamedService) (r : HrmPoolStatsRequest) (s : HrmPoolStatsState)
    : Type 0 where
  time_eq : s.trusted_time_high_water ≡ r.trusted_now
  network_eq : s.network_magic ≡ a.network_magic
  name_eq : s.name_hash ≡ a.name_hash

module _ (a : CurrentHrmNamedService) (r : HrmPoolStatsRequest) (s : HrmPoolStatsState) where
  -- Where nothing advances, the counters are equal, and so are the hashes behind them.
  module _ (t : HrmPoolStatsState) (ok_ : Accepted a s t) (timed : IsTimed a r s) where
    steady-IsBound : authority_advances a s ≡ false → IsBound a r t
    unfolding authority_advances authority_moved_back observation_differs adopt_authority ◌>>=◌
    steady-IsBound still =
        let revision : s.authority_revision ≡ a.authority_revision = ground (arith, ok_.not_back) in
        let sequence : s.hrm_sequence ≡ a.hrm_sequence = ground (arith, ok_.not_back) in
        let generation : s.service_generation ≡ a.service_generation =
          ground (arith, ok_.not_back) in
        let agreed = ok_.same_observation ((==_iff _ _).1 (sym revision)) in
        ground (
          arith,
          ok_.adopts,
          ok_.is_active,
          timed.time_eq,
          timed.network_eq,
          timed.name_eq,
          agreed,
          bytes_eq→eq a.service_resource_id s.service_resource_id,
          bytes_eq→eq a.hrm_envelope_hash s.hrm_envelope_hash,
          bytes_eq→eq a.service_delegation_id s.service_delegation_id,
        )

    moving-IsBound : authority_advances a s ≡ true → IsBound a r t
    unfolding adopt_authority bump_generation lineage_conflicts ◌>>=◌
    moving-IsBound moves = ground (
      arith,
      ok_.adopts,
      ok_.is_active,
      ok_.same_lineage,
      timed.time_eq,
      timed.network_eq,
      timed.name_eq,
      bytes_eq→eq a.service_resource_id s.service_resource_id,
    )

  observe_first-IsBound :
      {t : HrmPoolStatsState} → observe_first a r s ≡ (ok tt, t) → t.status ≡ active → IsBound a r t
  unfolding observe_first bump_generation ◌>>=◌
  observe_first-IsBound h is_active = ground arith

  -- `advance_time` sets the time to that of the request and leaves the scope alone.
  advance_time-IsTimed :
      {t : HrmPoolStatsState}
      → scope_differs a s ≡ false
      → ltb r.trusted_now s.trusted_time_high_water ≡ false
      → advance_time r s.trusted_time_high_water s ≡ (ok tt, t)
      → IsTimed a r t
  unfolding advance_time bump_generation scope_differs ◌>>=◌
  advance_time-IsTimed same not_before h = ground (arith, bytes_eq→eq s.name_hash a.name_hash)

observe_next-IsBound :
    (a : CurrentHrmNamedService) (r : HrmPoolStatsRequest) (s : HrmPoolStatsState)
    {t : HrmPoolStatsState}
    → observe_next a r s ≡ (ok tt, t)
    → IsBound a r t
unfolding observe_next
observe_next-IsBound a r s {t} h = elim (Bool-cases (scope_differs a s)) [
  | inl differs ↦ cc (rw (differs, observe_next) at h)
  | inr same ↦ elim (Bool-cases (ltb r.trusted_now s.trusted_time_high_water)) [
    | inl before ↦ cc (rw (same, before, observe_next) at h)
    | inr not_before ↦
        let run = >>=-eq-ok _ _ s (rw (same, not_before, observe_next) at h) in
        let timed = advance_time-IsTimed a r s same not_before run.first in
        let accepted = observe_rest-Accepted a r _ run.between run.second in
        elim (Bool-cases (authority_advances a run.between)) [
          | inl moves ↦ moving-IsBound a r run.between t accepted timed moves
          | inr still ↦ steady-IsBound a r run.between t accepted timed still
        ]
  ]
]

-- After an observation that succeeds on a scope that is active, the state is bound to exactly this
-- authority at the request's time.
pub observe_authority-IsBound :
    (a : CurrentHrmNamedService) (r : HrmPoolStatsRequest) (s t : HrmPoolStatsState)
    → observe_authority a r s ≡ (ok tt, t)
    → t.status ≡ active
    → IsBound a r t
unfolding observe_authority
observe_authority-IsBound a r s t h is_active = elim (Bool-cases (s.generation == 0)) [
  | inl fresh ↦ observe_first-IsBound a r s (rw (fresh, observe_authority) at h) is_active
  | inr later ↦ observe_next-IsBound a r s (rw (later, observe_authority) at h)
]
