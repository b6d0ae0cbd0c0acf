-- ===== src/PoolStats/State/Observe.antt =====
-- `HrmPoolStatsState::observe_authority`, one definition for each block of the method.
use hns_dane_browser_extensi.Prelude.{
  ℕ, Bool, true, false, ◌&&◌, ◌||◌, not, [], ltb, ◌==◌, bytes_eq, if◌then◌else◌,
}
use hns_dane_browser_extensi.Prelude.Result.{err}
use hns_dane_browser_extensi.Prelude.Exec.{pure, raise, gets, modify, reject, ◌>>=◌, ◌>>◌}
use hns_dane_browser_extensi.PoolStats.Error.{
  state_scope_mismatch, trusted_clock_rollback, authority_rollback, conflicting_authority,
  authority_not_current,
}
use hns_dane_browser_extensi.PoolStats.Authority.{HrmPoolStatsRequest, CurrentHrmNamedService}
use hns_dane_browser_extensi.PoolStats.State.{
  HrmPoolStatsState, Update, bump_generation, mark_conflicted, require_active,
}

-- The assignments of the first observation.
abbrev pub bound_to :
    CurrentHrmNamedService → HrmPoolStatsRequest → HrmPoolStatsState → HrmPoolStatsState
bound_to a r s = record s {
  trusted_time_high_water = r.trusted_now;
  network_magic = a.network_magic;
  name_hash = a.name_hash;
  authority_revision = a.authority_revision;
  hrm_sequence = a.hrm_sequence;
  hrm_envelope_hash = a.hrm_envelope_hash;
  service_resource_id = a.service_resource_id;
  service_delegation_id = a.service_delegation_id;
  service_generation = a.service_generation;
}

unfoldable pub observe_first : CurrentHrmNamedService → HrmPoolStatsRequest → Update (Unit {0})
observe_first a r = do bump_generation; modify (bound_to a r)

unfoldable pub scope_differs : CurrentHrmNamedService → HrmPoolStatsState → Bool
scope_differs a s =
    not (s.network_magic == a.network_magic) || not (bytes_eq s.name_hash a.name_hash)

unfoldable pub advance_time : HrmPoolStatsRequest → ℕ → Update (Unit {0})
advance_time r previous_time s =
    if ltb previous_time r.trusted_now
    then (do bump_generation; modify (λ t. record t { trusted_time_high_water = r.trusted_now })) s
    else (pure tt) s

unfoldable pub authority_moved_back : CurrentHrmNamedService → HrmPoolStatsState → Bool
authority_moved_back a s =
    ltb a.authority_revision s.authority_revision
    || ltb a.hrm_sequence s.hrm_sequence
    || ltb a.service_generation s.service_generation

-- What must not differ at an equal authority revision.
unfoldable pub observation_differs : CurrentHrmNamedService → HrmPoolStatsState → Bool
observation_differs a s =
    not (a.hrm_sequence == s.hrm_sequence)
    || not (bytes_eq a.hrm_envelope_hash s.hrm_envelope_hash)
    || not (bytes_eq a.service_resource_id s.service_resource_id)
    || not (bytes_eq a.service_delegation_id s.service_delegation_id)
    || not (a.service_generation == s.service_generation)

unfoldable pub lineage_conflicts : CurrentHrmNamedService → HrmPoolStatsState → Bool
lineage_conflicts a s =
    (a.hrm_sequence == s.hrm_sequence && not (bytes_eq a.hrm_envelope_hash s.hrm_envelope_hash))
    || not (bytes_eq a.service_resource_id s.service_resource_id)
    || (a.service_generation == s.service_generation
        && not (bytes_eq a.service_delegation_id s.service_delegation_id))
    || (ltb s.service_generation a.service_generation
        && bytes_eq a.service_delegation_id s.service_delegation_id)

-- `if bad { self.mark_conflicted()?; return Err(ConflictingAuthority) }`
unfoldable pub conflict_when : Bool → Update (Unit {0})
conflict_when true = do mark_conflicted; raise conflicting_authority
conflict_when false = pure tt

unfoldable pub check_equal_revision :
    CurrentHrmNamedService → HrmPoolStatsRequest → ℕ → Update (Unit {0})
check_equal_revision a r previous_time s =
    if a.authority_revision == s.authority_revision
    then (do
      conflict_when (observation_differs a s)
      reject (ltb previous_time r.trusted_now) authority_not_current)
        s
    else (pure tt) s

unfoldable pub authority_advances : CurrentHrmNamedService → HrmPoolStatsState → Bool
authority_advances a s =
    ltb s.authority_revision a.authority_revision
    || ltb s.hrm_sequence a.hrm_sequence
    || ltb s.service_generation a.service_generation

abbrev pub adopted : CurrentHrmNamedService → HrmPoolStatsState → HrmPoolStatsState
adopted a s =
    let replaced = ltb s.service_generation a.service_generation in
    record s {
      authority_revision = a.authority_revision;
      hrm_sequence = a.hrm_sequence;
      hrm_envelope_hash = a.hrm_envelope_hash;
      service_delegation_id = a.service_delegation_id;
      service_generation = a.service_generation;
      endpoints = if replaced then [] else s.endpoints;
      operators = if replaced then [] else s.operators;
    }

unfoldable pub adopt_authority : CurrentHrmNamedService → Update (Unit {0})
adopt_authority a s =
    if authority_advances a s then (do bump_generation; modify (adopted a)) s else (pure tt) s

-- The method from the rollback test on.
unfoldable pub observe_rest : CurrentHrmNamedService → HrmPoolStatsRequest → ℕ → Update (Unit {0})
observe_rest a r previous_time = do
  back ← gets (authority_moved_back a)
  reject back authority_rollback
  check_equal_revision a r previous_time
  conflicts ← gets (lineage_conflicts a)
  conflict_when conflicts
  adopt_authority a
  require_active

unfoldable pub observe_next : CurrentHrmNamedService → HrmPoolStatsRequest → Update (Unit {0})
observe_next a r s =
    let previous_time = s.trusted_time_high_water in
    if scope_differs a s
    then (err state_scope_mismatch, s)
    else if ltb r.trusted_now previous_time
    then (err trusted_clock_rollback, s)
    else (do advance_time r previous_time; observe_rest a r previous_time) s

unfoldable pub observe_authority : CurrentHrmNamedService → HrmPoolStatsRequest → Update (Unit {0})
observe_authority a r s = if s.generation == 0 then observe_first a r s else observe_next a r s
