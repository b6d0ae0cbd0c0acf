-- ===== src/PoolStats/State.antt =====
-- `HrmPoolStatsState` of hrm.rs: the replay state beneath an authority broker, and the small
-- methods. The larger methods are in the modules below.
pub mod Observe
pub mod Advance
pub mod Keeps
pub mod Bound
mod Marks
pub mod Scope
pub mod Replacement
use hns_dane_browser_extensi.Prelude.{
  ℕ, zero, suc, ◌+◌, Bool, true, false, ◌&&◌, ◌||◌, not, Option, none, some, List, [], length, set,
  all, ltb, leb, ◌==◌, bytes_eq, if◌then◌else◌, checked_add,
}
use hns_dane_browser_extensi.Prelude.Result.{Result, ok, err}
use hns_dane_browser_extensi.Prelude.Exec.{Exec, pure, raise, gets, modify, reject, ◌>>=◌, ◌>>◌}
use hns_dane_browser_extensi.PoolStats.Error.{
  HrmPoolStatsError, state_scope_mismatch, trusted_clock_rollback, authority_rollback,
  conflicting_authority, authority_not_current, sequence_rollback, conflicting_sequence,
  state_conflicted, state_exhausted, state_generation_exhausted, max_endpoint_histories,
  max_operator_histories,
}
use hns_dane_browser_extensi.PoolStats.Crypto.{Crypto, valid_key}
use hns_dane_browser_extensi.PoolStats.Authority.{
  HrmPoolStatsRequest, CurrentHrmNamedService, zero_hash,
}
use hns_dane_browser_extensi.PoolStats.History.{
  Search, found, absent, insert_at, strictly_sorted_by, binary_search_by_key,
}

pub data StateStatus : Type 0 where
  active conflicted exhausted : StateStatus

pub record EndpointState : Type 0 where
  pub endpoint_key : List ℕ
  pub sequence : ℕ
  pub delegation_id : List ℕ

pub record OperatorState : Type 0 where
  pub operator_id : List ℕ
  pub sequence : ℕ
  pub digest : List ℕ

pub record HrmPoolStatsState : Type 0 where
  pub generation : ℕ
  pub trusted_time_high_water : ℕ
  pub status : StateStatus
  pub network_magic : ℕ
  pub name_hash : List ℕ
  pub authority_revision : ℕ
  pub hrm_sequence : ℕ
  pub hrm_envelope_hash : List ℕ
  pub service_resource_id : List ℕ
  pub service_delegation_id : List ℕ
  pub service_generation : ℕ
  pub endpoints : List EndpointState
  pub operators : List OperatorState

-- `HrmPoolStatsState::new`
abbrev pub new_state : HrmPoolStatsState
new_state = record {
  generation = 0;
  trusted_time_high_water = 0;
  status = active;
  network_magic = 0;
  name_hash = zero_hash;
  authority_revision = 0;
  hrm_sequence = 0;
  hrm_envelope_hash = zero_hash;
  service_resource_id = zero_hash;
  service_delegation_id = zero_hash;
  service_generation = 0;
  endpoints = [];
  operators = [];
}

abbrev pub is_active : HrmPoolStatsState → Bool
is_active s = elim s.status [ active ↦ true | conflicted ↦ false | exhausted ↦ false ]

abbrev pub is_conflicted : HrmPoolStatsState → Bool
is_conflicted s = elim s.status [ active ↦ false | conflicted ↦ true | exhausted ↦ false ]

abbrev pub is_exhausted : HrmPoolStatsState → Bool
is_exhausted s = elim s.status [ active ↦ false | conflicted ↦ false | exhausted ↦ true ]

-- A method on `&mut HrmPoolStatsState`.
abbrev pub Update : Type 0 → Type 0
Update A = Exec HrmPoolStatsState HrmPoolStatsError A

unfoldable pub bump_generation : Update (Unit {0})
bump_generation s = elim (checked_add s.generation 1) [
  | none ↦ (err state_generation_exhausted, s)
  | some next ↦ (ok tt, record s { generation = next })
]

unfoldable pub mark_conflicted : Update (Unit {0})
unfolding bump_generation
mark_conflicted s =
    if is_conflicted s
    then (ok tt, s)
    else (do bump_generation; modify (λ t. record t { status = conflicted })) s

unfoldable pub mark_exhausted : Update (Unit {0})
unfolding bump_generation
mark_exhausted s =
    if is_exhausted s
    then (ok tt, s)
    else (do bump_generation; modify (λ t. record t { status = exhausted })) s

unfoldable pub require_active : Update (Unit {0})
require_active s = elim s.status [
  | active ↦ (ok tt, s)
  | conflicted ↦ (err state_conflicted, s)
  | exhausted ↦ (err state_exhausted, s)
]

-- `valid_shape`
module _ (c : Crypto) where
  abbrev pub endpoint_valid : EndpointState → Bool
  endpoint_valid e = not (e.sequence == 0) && valid_key c e.endpoint_key

  abbrev pub operator_valid : OperatorState → Bool
  operator_valid o = not (bytes_eq o.operator_id zero_hash) && not (o.sequence == 0)

  unfoldable pub valid_shape : HrmPoolStatsState → Bool
  valid_shape s =
      not (s.generation == 0)
      && not (s.authority_revision == 0)
      && not (s.service_generation == 0)
      && leb (length s.endpoints) max_endpoint_histories
      && strictly_sorted_by (λ e. e.endpoint_key) s.endpoints
      && all endpoint_valid s.endpoints
      && leb (length s.operators) max_operator_histories
      && strictly_sorted_by (λ o. o.operator_id) s.operators
      && all operator_valid s.operators

-- `matches_current`
unfoldable pub matches_current :
    CurrentHrmNamedService → HrmPoolStatsRequest → HrmPoolStatsState → Bool
matches_current a r s =
    is_active s
    && s.trusted_time_high_water == r.trusted_now
    && s.network_magic == a.network_magic
    && bytes_eq s.name_hash a.name_hash
    && s.authority_revision == a.authority_revision
    && s.hrm_sequence == a.hrm_sequence
    && bytes_eq s.hrm_envelope_hash a.hrm_envelope_hash
    && bytes_eq s.service_resource_id a.service_resource_id
    && bytes_eq s.service_delegation_id a.service_delegation_id
    && s.service_generation == a.service_generation
