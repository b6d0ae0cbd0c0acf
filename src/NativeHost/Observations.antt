-- ===== src/NativeHost/Observations.antt =====
-- `SecurityObservations` of lib.rs, behind its mutex: what the proxy observed of the active runtime.
pub mod WellFormed
pub mod Histories
use Prim.Native.String.{String}
use hns_dane_browser_extensi.Prelude.{
  ℕ, Bool, true, false, ◌&&◌, not, Option, none, some, List, [], ◌∷◌, length, any, ltb, leb, ◌==◌,
  bytes_eq, if◌then◌else◌,
}

abbrev pub max_recent_security_results : ℕ
max_recent_security_results = 32

pub record ActiveSecurityContext : Type 0 where
  pub runtime_session : List ℕ
  pub runtime_generation : ℕ
  pub policy_generation : ℕ
  pub proxy_generation : ℕ
  pub network : List ℕ

-- `CanonicalBrowserObservationTuple` of another crate, by its accessors. The session is as
-- `URL_SAFE_NO_PAD.encode` writes it.
pub record ObservationTuple : Type 0 where
  pub encoded_session : List ℕ
  pub runtime_generation : ℕ
  pub policy_generation : ℕ
  pub event_sequence : ℕ

-- `ChromiumSecurityResult` and `ChromiumConnectSecurityDecision`: `details` are the fields that
-- are shown to the user and that no code here reads.
pub record ChromiumSecurityResult (D : Type 0) : Type 0 where
  pub event_sequence : ℕ
  pub runtime_session : List ℕ
  pub runtime_generation : ℕ
  pub policy_generation : ℕ
  pub details : D

pub record ChromiumConnectSecurityDecision (D : Type 0) : Type 0 where
  pub maintenance_epoch : ℕ
  pub event_sequence : ℕ
  pub details : D

pub record MaintenanceBoundSecurityResult (D : Type 0) : Type 0 where
  pub maintenance_epoch : ℕ
  pub result : ChromiumSecurityResult D

pub record SecurityObservationState (D : Type 0) : Type 0 where
  pub active : Option ActiveSecurityContext
  pub highest_maintenance_epoch : Option ℕ
  pub latest_main_frame_maintenance_epoch : Option ℕ
  pub latest_main_frame : Option (ChromiumSecurityResult D)
  pub latest_main_frame_unavailable_reason : Option String
  pub latest_main_frame_event_floor : Option ℕ
  pub recent : List (MaintenanceBoundSecurityResult D)
  pub recent_connect_decisions : List (ChromiumConnectSecurityDecision D)

pub data CanonicalSecurityObservation (D : Type 0) : Type 0 where
  available : ObservationTuple → ChromiumSecurityResult D → CanonicalSecurityObservation D
  unavailable : ObservationTuple → String → CanonicalSecurityObservation D
  unordered : CanonicalSecurityObservation D

-- `maintenance_epoch.filter(|epoch| *epoch != 0)`
abbrev pub nonzero : Option ℕ → Option ℕ
nonzero none = none
nonzero (some e) = if e == 0 then none else some e

-- Equality of `Option<u64>`.
abbrev pub same_epoch : Option ℕ → Option ℕ → Bool
same_epoch none none = true
same_epoch (some a) (some b) = a == b
same_epoch a b = false

abbrev pub retain : {A : Type 0} → (A → Bool) → List A → List A
retain p [] = []
retain p (x ∷ xs) = let rest = retain p xs in if p x then x ∷ rest else rest

module _ {D : Type 0} where
  abbrev pub clear_latest_main_frame_security :
      SecurityObservationState D → SecurityObservationState D
  clear_latest_main_frame_security s = record s {
    latest_main_frame_maintenance_epoch = none;
    latest_main_frame = none;
    latest_main_frame_unavailable_reason = none;
    latest_main_frame_event_floor = none;
  }

  -- The state of a runtime that starts, or of none.
  abbrev pub restarted : Option ActiveSecurityContext → Option ℕ → SecurityObservationState D
  restarted context epoch = record {
    active = context;
    highest_maintenance_epoch = epoch;
    latest_main_frame_maintenance_epoch = none;
    latest_main_frame = none;
    latest_main_frame_unavailable_reason = none;
    latest_main_frame_event_floor = none;
    recent = [];
    recent_connect_decisions = [];
  }

  unfoldable pub activate :
      ActiveSecurityContext → Option ℕ → SecurityObservationState D → SecurityObservationState D
  activate context epoch s = restarted (some context) (nonzero epoch)

  unfoldable pub deactivate : SecurityObservationState D → SecurityObservationState D
  deactivate s = restarted none none

  -- The tests of the two calls of `retain`.
  abbrev pub result_at : Option ℕ → MaintenanceBoundSecurityResult D → Bool
  result_at epoch entry = same_epoch (some entry.maintenance_epoch) epoch

  abbrev pub decision_at : Option ℕ → ChromiumConnectSecurityDecision D → Bool
  decision_at epoch entry = same_epoch (some entry.maintenance_epoch) epoch

  unfoldable pub retain_maintenance_epoch :
      Option ℕ → SecurityObservationState D → SecurityObservationState D
  retain_maintenance_epoch given s =
      let epoch = nonzero given in
      let cleared =
        if same_epoch s.latest_main_frame_maintenance_epoch epoch
        then s
        else clear_latest_main_frame_security s in
      record cleared {
        highest_maintenance_epoch = epoch;
        recent = retain (result_at epoch) s.recent;
        recent_connect_decisions = retain (decision_at epoch) s.recent_connect_decisions;
      }

  -- What `admit_security_observation_epoch` makes of an epoch that the state has not seen.
  abbrev pub advanced_to : ℕ → SecurityObservationState D → SecurityObservationState D
  advanced_to epoch s = record (clear_latest_main_frame_security s) {
    highest_maintenance_epoch = some epoch;
    recent = [];
    recent_connect_decisions = [];
  }

  abbrev pub admit_next :
      Option ℕ → ℕ → SecurityObservationState D → Bool × SecurityObservationState D
  admit_next none epoch s = (true, advanced_to epoch s)
  admit_next (some current) epoch s =
      if ltb epoch current
      then (false, s)
      else if epoch == current
      then (true, s)
      else (true, advanced_to epoch s)

  unfoldable pub admit_security_observation_epoch :
      ℕ → SecurityObservationState D → Bool × SecurityObservationState D
  admit_security_observation_epoch epoch s =
      if epoch == 0 then (false, s) else admit_next s.highest_maintenance_epoch epoch s

  -- The comparison of `security_result_matches_observation`.
  unfoldable pub security_result_matches_observation :
      ChromiumSecurityResult D → ObservationTuple → Bool
  security_result_matches_observation result t =
      bytes_eq result.runtime_session t.encoded_session
      && result.runtime_generation == t.runtime_generation
      && result.policy_generation == t.policy_generation
      && result.event_sequence == t.event_sequence

-- `position` of the first later event, and `insert` there.
unfoldable pub insert_by_event : {A : Type 0} → (A → ℕ) → A → List A → List A
insert_by_event event v [] = v ∷ []
insert_by_event event v (x ∷ xs) =
    let rest = insert_by_event event v xs in
    if ltb (event v) (event x) then v ∷ x ∷ xs else x ∷ rest

-- `while len > MAX_RECENT_SECURITY_RESULTS { pop_front }`
unfoldable pub pop_excess : {A : Type 0} → List A → List A
pop_excess [] = []
pop_excess (x ∷ xs) =
    let rest = pop_excess xs in
    if ltb max_recent_security_results (length (x ∷ xs)) then rest else x ∷ xs

-- An event that is there already is not entered again.
unfoldable pub retain_recent : {A : Type 0} → (A → ℕ) → A → List A → List A
unfolding insert_by_event pop_excess
retain_recent event v xs =
    if any (λ x. event x == event v) xs then xs else pop_excess (insert_by_event event v xs)

-- `latest_main_frame_event_floor.is_none_or(|event| sequence > event)`
abbrev pub above_floor : Option ℕ → ℕ → Bool
above_floor none n = true
above_floor (some event) n = ltb event n

module _ {D : Type 0} where
  abbrev pub set_latest :
      Bool
      → ℕ
      → ℕ
      → Option (ChromiumSecurityResult D)
      → Option String
      → SecurityObservationState D
      → SecurityObservationState D
  set_latest main_frame epoch event result reason s =
      if main_frame && above_floor s.latest_main_frame_event_floor event
      then record s {
        latest_main_frame_maintenance_epoch = some epoch;
        latest_main_frame_event_floor = some event;
        latest_main_frame = result;
        latest_main_frame_unavailable_reason = reason;
      }
      else s

  abbrev pub add_recent :
      ℕ
      → Option (ChromiumSecurityResult D)
      → SecurityObservationState D
      → SecurityObservationState D
  add_recent epoch none s = s
  add_recent epoch (some result) s = record s {
    recent =
        retain_recent (λ entry. entry.result.event_sequence)
          (record { maintenance_epoch = epoch; result = result }) s.recent;
  }

  -- `retain_security_observation` behind the match on the observation.
  unfoldable pub retain_ordered :
      Bool
      → ℕ
      → ObservationTuple
      → Option (ChromiumSecurityResult D)
      → Option String
      → SecurityObservationState D
      → SecurityObservationState D
  retain_ordered main_frame epoch t result reason s =
      let (admitted, s') = admit_security_observation_epoch epoch s in
      if admitted
      then add_recent epoch result (set_latest main_frame epoch t.event_sequence result reason s')
      else s'

  unfoldable pub retain_security_observation :
      Bool
      → ℕ
      → CanonicalSecurityObservation D
      → SecurityObservationState D
      → SecurityObservationState D
  retain_security_observation main_frame epoch (available t result) s =
      if security_result_matches_observation result t
      then retain_ordered main_frame epoch t (some result) none s
      else s
  retain_security_observation main_frame epoch (unavailable t reason) s =
      retain_ordered main_frame epoch t none (some reason) s
  retain_security_observation main_frame epoch unordered s = s

  abbrev pub add_decision :
      ChromiumConnectSecurityDecision D → SecurityObservationState D → SecurityObservationState D
  add_decision decision s = record s {
    recent_connect_decisions =
        retain_recent (λ entry. entry.event_sequence) decision s.recent_connect_decisions;
  }

  unfoldable pub retain_connect_security_decision :
      ChromiumConnectSecurityDecision D → SecurityObservationState D → SecurityObservationState D
  retain_connect_security_decision decision s =
      let (admitted, s') = admit_security_observation_epoch decision.maintenance_epoch s in
      if admitted then add_decision decision s' else s'
