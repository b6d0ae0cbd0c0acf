-- ===== src/PoolStats/Engine.antt =====
-- `verify_engine_current_hrm_and_commit` and `current_hrm_named_service` of hrm.rs. The guard is a
-- value of the crate hns-dane-engine: the record `EngineGuard` has its accessors.
pub mod Lease
use hns_dane_browser_extensi.Prelude.{ℕ, Option, none, some, List}
use hns_dane_browser_extensi.Prelude.Result.{Result, ok, err}
use hns_dane_browser_extensi.PoolStats.Error.{
  HrmPoolStatsError, historical_admission, invalid_current_authority,
}
use hns_dane_browser_extensi.PoolStats.Crypto.{Crypto}
use hns_dane_browser_extensi.PoolStats.Authority.{
  HrmPoolStatsRequest, CurrentHrmNamedService, validate,
}
use hns_dane_browser_extensi.PoolStats.Document.{Formats}
use hns_dane_browser_extensi.PoolStats.State.{HrmPoolStatsState}
use hns_dane_browser_extensi.PoolStats.Admission.{VerifiedHrmPoolStatsSnapshot}
use hns_dane_browser_extensi.PoolStats.Commit.{
  Commit, Outcome, HrmPoolStatsAdmissionError, verification, verify_hrm_and_commit,
}

-- The accessors of an active named service, with those of its identity.
pub record ActiveService : Type 0 where
  pub network_magic : ℕ
  pub name_hash : List ℕ
  pub service_name : List ℕ
  pub application_profile_id : ℕ
  pub hrm_sequence : ℕ
  pub hrm_envelope_hash : List ℕ
  pub resource_id : List ℕ
  pub delegation_id : List ℕ
  pub service_generation : ℕ
  pub service_controller_key : List ℕ
  pub resource_not_before : ℕ
  pub resource_expires_at : ℕ
  pub delegation_not_before : ℕ
  pub delegation_expires_at : ℕ
  pub max_endpoint_lifetime : ℕ
  pub allowed_endpoint_capabilities : ℕ
  pub endpoint_constraints_hash : List ℕ

-- `ensure_lease_held` looks at the world outside, which it may move on.
pub record EngineGuard (W : Type 0) : Type 0 where
  pub ensure_lease_held : W → Option (Unit {0}) × W
  pub active : Option ActiveService
  pub authority_revision : ℕ
  pub fencing_token : ℕ
  pub trusted_time_high_water : ℕ

abbrev pub mapped : {W : Type 0} → EngineGuard W → ActiveService → CurrentHrmNamedService
mapped g s = record {
  network_magic = s.network_magic;
  name_hash = s.name_hash;
  service = s.service_name;
  application_profile_id = s.application_profile_id;
  hrm_sequence = s.hrm_sequence;
  hrm_envelope_hash = s.hrm_envelope_hash;
  authority_revision = g.authority_revision;
  operation_lease_generation = g.fencing_token;
  trusted_operation_time = g.trusted_time_high_water;
  service_resource_id = s.resource_id;
  service_delegation_id = s.delegation_id;
  service_generation = s.service_generation;
  service_controller_key = s.service_controller_key;
  resource_not_before = s.resource_not_before;
  resource_expires_at = s.resource_expires_at;
  delegation_not_before = s.delegation_not_before;
  delegation_expires_at = s.delegation_expires_at;
  max_endpoint_lifetime = s.max_endpoint_lifetime;
  allowed_endpoint_capabilities = s.allowed_endpoint_capabilities;
  endpoint_constraints_hash = s.endpoint_constraints_hash;
}

-- `authority.validate()?; Ok(authority)`
abbrev pub when_valid :
    CurrentHrmNamedService
    → Result HrmPoolStatsError (Unit {0})
    → Result HrmPoolStatsError CurrentHrmNamedService
when_valid a (ok valid) = ok a
when_valid a (err e) = err e

abbrev pub mapped_active :
    {W : Type 0}
    → Crypto
    → EngineGuard W
    → Option ActiveService
    → Result HrmPoolStatsError CurrentHrmNamedService
mapped_active c g none = err invalid_current_authority
mapped_active c g (some s) = when_valid (mapped g s) (validate c (mapped g s))

unfoldable pub current_hrm_named_service :
    {W : Type 0} → Crypto → EngineGuard W → Result HrmPoolStatsError CurrentHrmNamedService
current_hrm_named_service c g = mapped_active c g g.active

module _ {W E : Type 0} where
  -- The second look at the lease: without it the result is withheld, and the state stays.
  abbrev pub withhold_unless : Option (Unit {0}) → Outcome W E → W → Outcome W E
  withhold_unless (some held) o w = record o { world = w }
  withhold_unless none o w = record o {
    result = err (verification historical_admission);
    world = w;
  }

  abbrev pub recheck : EngineGuard W → Outcome W E → Outcome W E
  recheck g o = let (held, w) = g.ensure_lease_held o.world in withhold_unless held o w

  module _ (c : Crypto) (f : Formats) (g : EngineGuard W) (r : HrmPoolStatsRequest)
      (document : List ℕ) (commit : Commit W E) (s : HrmPoolStatsState) where
    abbrev pub admit_under : Result HrmPoolStatsError CurrentHrmNamedService → W → Outcome W E
    admit_under (err e) w = record { result = err (verification e); state = s; world = w }
    admit_under (ok a) w = recheck g (verify_hrm_and_commit c f a r document commit s w)

    abbrev pub admit_when_held : Option (Unit {0}) → W → Outcome W E
    admit_when_held none w = record {
      result = err (verification historical_admission);
      state = s;
      world = w;
    }
    admit_when_held (some held) w = admit_under (current_hrm_named_service c g) w

    unfoldable pub verify_engine_current_hrm_and_commit : W → Outcome W E
    verify_engine_current_hrm_and_commit w =
        let (held, w') = g.ensure_lease_held w in admit_when_held held w'
