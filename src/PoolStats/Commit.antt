-- ===== src/PoolStats/Commit.antt =====
-- Commit before release: `verify_hrm_and_commit` and `verify_engine_current_hrm_and_commit` of
-- hrm.rs. `W` is what the caller's `commit` closure mutates, the store and all else outside.
pub mod Release
use hns_dane_browser_extensi.Prelude.{
  ℕ, Bool, true, false, not, Option, none, some, List, ◌==◌, if◌then◌else◌,
}
use hns_dane_browser_extensi.Prelude.Result.{Result, ok, err}
use hns_dane_browser_extensi.Prelude.Exec.{Exec}
use hns_dane_browser_extensi.PoolStats.Error.{
  HrmPoolStatsError, historical_admission, invalid_current_authority,
}
use hns_dane_browser_extensi.PoolStats.Crypto.{Crypto}
use hns_dane_browser_extensi.PoolStats.Authority.{
  HrmPoolStatsRequest, CurrentHrmNamedService, validate,
}
use hns_dane_browser_extensi.PoolStats.Document.{Formats}
use hns_dane_browser_extensi.PoolStats.State.{HrmPoolStatsState}
use hns_dane_browser_extensi.PoolStats.Codec.{encode}
use hns_dane_browser_extensi.PoolStats.Admission.{VerifiedHrmPoolStatsSnapshot, verify_document}

pub data HrmPoolStatsAdmissionError (E : Type 0) : Type 0 where
  verification : HrmPoolStatsError → HrmPoolStatsAdmissionError E
  persistence : E → HrmPoolStatsAdmissionError E

-- The `commit` closure: the previous generation and the encoded state, on the world outside.
abbrev pub Commit : Type 0 → Type 0 → Type 0
Commit W E = ℕ → List ℕ → W → Result E (Unit {0}) × W

-- What an admission returns: the result, the caller's state and the world.
pub record Outcome (W E : Type 0) : Type 0 where
  pub result : Result (HrmPoolStatsAdmissionError E) VerifiedHrmPoolStatsSnapshot
  pub state : HrmPoolStatsState
  pub world : W

-- `result.map_err(HrmPoolStatsAdmissionError::Verification)`
abbrev pub map_verification :
    {E : Type 0}
    → Result HrmPoolStatsError VerifiedHrmPoolStatsSnapshot
    → Result (HrmPoolStatsAdmissionError E) VerifiedHrmPoolStatsSnapshot
map_verification (ok v) = ok v
map_verification (err e) = err (verification e)

module _ {W E : Type 0} where
  abbrev pub after_commit :
      HrmPoolStatsState
      → HrmPoolStatsState
      → Result HrmPoolStatsError VerifiedHrmPoolStatsSnapshot
      → Result E (Unit {0})
      → W
      → Outcome W E
  after_commit s candidate result (ok done) w = record {
    result = map_verification result;
    state = candidate;
    world = w;
  }
  after_commit s candidate result (err e) w = record {
    result = err (persistence e);
    state = s;
    world = w;
  }

  abbrev pub commit_encoded :
      Commit W E
      → HrmPoolStatsState
      → HrmPoolStatsState
      → Result HrmPoolStatsError VerifiedHrmPoolStatsSnapshot
      → Result HrmPoolStatsError (List ℕ)
      → W
      → Outcome W E
  commit_encoded commit s candidate result (err e) w = record {
    result = err (verification e);
    state = s;
    world = w;
  }
  commit_encoded commit s candidate result (ok encoded) w =
      let (reply, w') = commit s.generation encoded w in after_commit s candidate result reply w'

  unfoldable pub verify_hrm_and_commit :
      Crypto
      → Formats
      → CurrentHrmNamedService
      → HrmPoolStatsRequest
      → List ℕ
      → Commit W E
      → HrmPoolStatsState
      → W
      → Outcome W E
  verify_hrm_and_commit c f a r document commit s w =
      let (result, candidate) = verify_document c f a r document s in
      if not (candidate.generation == s.generation)
      then commit_encoded commit s candidate result (encode c candidate) w
      else record { result = map_verification result; state = s; world = w }
