-- ===== src/NativeHost/Observations/WellFormed.antt =====
-- The invariant of the observations, and what late observations do.
use Prim.Native.String.{String}
use hns_dane_browser_extensi.Prelude.{
  ℕ, ◌<◌, ◌≡◌, refl, sym, ap, ◌∙◌, ◌⊎◌, inl, inr, Bool, true, false, ◌&&◌, Bool-cases, lt→ltb,
  Option, none, some, List, [], ◌∷◌, ltb, ◌==◌, arith,
}
use hns_dane_browser_extensi.NativeHost.Observations.{
  ActiveSecurityContext, ObservationTuple, ChromiumSecurityResult, ChromiumConnectSecurityDecision,
  MaintenanceBoundSecurityResult, SecurityObservationState, CanonicalSecurityObservation, available,
  unavailable, unordered, nonzero, same_epoch, activate, deactivate, retain_maintenance_epoch,
  restarted, admit_security_observation_epoch, retain_ordered, set_latest, add_recent, add_decision,
  advanced_to, above_floor, security_result_matches_observation, retain_security_observation,
  retain_connect_security_decision,
}
use hns_dane_browser_extensi.NativeHost.Observations.Histories.{
  Kept, Kept-nil, retain_recent-Kept, retain-Kept, same_epoch-eq,
}

-- The calls that change the state.
pub data Operation (D : Type 0) : Type 0 where
  activated : ActiveSecurityContext → Option ℕ → Operation D
  deactivated : Operation D
  epoch_retained : Option ℕ → Operation D
  observed : Bool → ℕ → CanonicalSecurityObservation D → Operation D
  decided : ChromiumConnectSecurityDecision D → Operation D

module _ {D : Type 0} where
  abbrev pub result_event : MaintenanceBoundSecurityResult D → ℕ
  result_event entry = entry.result.event_sequence

  abbrev pub result_epoch : MaintenanceBoundSecurityResult D → ℕ
  result_epoch entry = entry.maintenance_epoch

  abbrev pub decision_event : ChromiumConnectSecurityDecision D → ℕ
  decision_event entry = entry.event_sequence

  abbrev pub decision_epoch : ChromiumConnectSecurityDecision D → ℕ
  decision_epoch entry = entry.maintenance_epoch

  -- Both histories are kept at the highest epoch, and the latest main frame is of that epoch.
  pub record WellFormed (s : SecurityObservationState D) : Type 0 where
    pub recent_kept : Kept result_event result_epoch s.highest_maintenance_epoch s.recent
    pub decisions_kept :
        Kept decision_event decision_epoch s.highest_maintenance_epoch s.recent_connect_decisions
    pub latest_current :
        (s.latest_main_frame_maintenance_epoch ≡ none)
        ⊎ (s.latest_main_frame_maintenance_epoch ≡ s.highest_maintenance_epoch)
    -- without an epoch there is no main frame, no reason for its absence, and no event
    pub latest_labelled :
        s.latest_main_frame_maintenance_epoch ≡ none
        → (s.latest_main_frame ≡ none)
          × (s.latest_main_frame_unavailable_reason ≡ none)
          × (s.latest_main_frame_event_floor ≡ none)
    -- the main frame is the result of the event that the floor names
    pub latest_event :
        (result : ChromiumSecurityResult D)
        → s.latest_main_frame ≡ some result
        → s.latest_main_frame_event_floor ≡ some result.event_sequence

  restarted-WellFormed :
      (context : Option ActiveSecurityContext) (epoch : Option ℕ)
      → WellFormed (restarted context epoch)
  restarted-WellFormed context epoch = record {
    recent_kept = Kept-nil _ _ epoch;
    decisions_kept = Kept-nil _ _ epoch;
    latest_current = inl refl;
    latest_labelled = λ h. (refl, refl, refl);
    latest_event = λ r h. cc;
  }

  unfoldable pub apply : Operation D → SecurityObservationState D → SecurityObservationState D
  apply (activated context epoch) s = activate context epoch s
  apply deactivated s = deactivate s
  apply (epoch_retained epoch) s = retain_maintenance_epoch epoch s
  apply (observed main_frame epoch o) s = retain_security_observation main_frame epoch o s
  apply (decided decision) s = retain_connect_security_decision decision s

  -- From the empty state (`SecurityObservationState::default`).
  unfoldable pub run : List (Operation D) → SecurityObservationState D → SecurityObservationState D
  run [] s = s
  run (o ∷ os) s = run os (apply o s)

  retained-WellFormed :
      (given : Option ℕ) (s : SecurityObservationState D)
      → WellFormed s
      → WellFormed (retain_maintenance_epoch given s)
  unfolding retain_maintenance_epoch
  retained-WellFormed given s w =
      elim (Bool-cases (same_epoch s.latest_main_frame_maintenance_epoch (nonzero given))) [
        | inl kept ↦ rw kept (record {
          recent_kept = retain-Kept _ _ _ (nonzero given) s.recent w.recent_kept;
          decisions_kept =
              retain-Kept _ _ _ (nonzero given) s.recent_connect_decisions w.decisions_kept;
          latest_current = inr (same_epoch-eq _ _ kept);
          latest_labelled = w.latest_labelled;
          latest_event = w.latest_event;
        })
        | inr dropped ↦ rw dropped (record {
          recent_kept = retain-Kept _ _ _ (nonzero given) s.recent w.recent_kept;
          decisions_kept =
              retain-Kept _ _ _ (nonzero given) s.recent_connect_decisions w.decisions_kept;
          latest_current = inl refl;
          latest_labelled = λ h. (refl, refl, refl);
          latest_event = λ r h. cc;
        })
      ]

  -- What the admission of an epoch can do.
  data AdmittedEpoch (epoch : ℕ) (s : SecurityObservationState D) : Type 0 where
    refused : admit_security_observation_epoch epoch s ≡ (false, s) → AdmittedEpoch epoch s
    same :
        admit_security_observation_epoch epoch s ≡ (true, s)
        → s.highest_maintenance_epoch ≡ some epoch
        → AdmittedEpoch epoch s
    newer :
        admit_security_observation_epoch epoch s ≡ (true, advanced_to epoch s)
        → AdmittedEpoch epoch s

  admitted_epoch : (epoch : ℕ) (s : SecurityObservationState D) → AdmittedEpoch epoch s
  unfolding admit_security_observation_epoch
  admitted_epoch epoch s = elim (Bool-cases (epoch == 0)) [
    | inl zero_epoch ↦ refused (rw zero_epoch)
    | inr later ↦ go s.highest_maintenance_epoch refl later
  ]
    where
      go :
          (h : Option ℕ)
          → s.highest_maintenance_epoch ≡ h
          → (epoch == 0) ≡ false
          → AdmittedEpoch epoch s
      go none e later = newer (rw (later, e))
      go (some current) e later = elim (Bool-cases (ltb epoch current)) [
        | inl lt ↦ refused (rw (later, e, lt))
        | inr ge ↦ elim (Bool-cases (epoch == current)) [
          | inl eq ↦ same (rw (later, e, ge, eq)) (e ∙ ap some (ground (arith, eq)))
          | inr ne ↦ newer (rw (later, e, ge, ne))
        ]
      ]

  advanced_to-WellFormed :
      (epoch : ℕ) (s : SecurityObservationState D) → WellFormed (advanced_to epoch s)
  advanced_to-WellFormed epoch s = record {
    recent_kept = Kept-nil _ _ (some epoch);
    decisions_kept = Kept-nil _ _ (some epoch);
    latest_current = inl refl;
    latest_labelled = λ h. (refl, refl, refl);
    latest_event = λ r h. cc;
  }

  abbrev IsOfEvent : ℕ → Option (ChromiumSecurityResult D) → Type 0
  IsOfEvent event result =
      (r : ChromiumSecurityResult D) → result ≡ some r → r.event_sequence ≡ event

  matching :
      (result : ChromiumSecurityResult D) (t : ObservationTuple)
      → security_result_matches_observation result t ≡ true
      → IsOfEvent t.event_sequence (some result)
  unfolding security_result_matches_observation
  matching result t h r e =
      let same_event : result.event_sequence ≡ t.event_sequence = ground arith in cc

  -- The updates behind an epoch that was admitted.
  module _ (epoch : ℕ) where
    set_latest-WellFormed :
        (main_frame : Bool) (event : ℕ) (result : Option (ChromiumSecurityResult D))
        (reason : Option String) (s : SecurityObservationState D)
        → IsOfEvent event result
        → s.highest_maintenance_epoch ≡ some epoch
        → WellFormed s
        → WellFormed (set_latest main_frame epoch event result reason s)
          × ((set_latest main_frame epoch event result reason s).highest_maintenance_epoch
              ≡ some epoch)
    set_latest-WellFormed main_frame event result reason s same_event e w =
        elim (Bool-cases (main_frame && above_floor s.latest_main_frame_event_floor event)) [
          | inl later ↦ rw later (
            record {
              recent_kept = w.recent_kept;
              decisions_kept = w.decisions_kept;
              latest_current = inr (sym e);
              latest_labelled = λ h. cc;
              latest_event = λ r h. ap some (sym (same_event r h));
            },
            e,
          )
          | inr stale ↦ rw stale (w, e)
        ]

    add_recent-WellFormed :
        (result : Option (ChromiumSecurityResult D)) (s : SecurityObservationState D)
        → s.highest_maintenance_epoch ≡ some epoch
        → WellFormed s
        → WellFormed (add_recent epoch result s)
    add_recent-WellFormed none s e w = w
    add_recent-WellFormed (some result) s e w = record {
      recent_kept = retain_recent-Kept _ _ _ _ s.recent (sym e) w.recent_kept;
      decisions_kept = w.decisions_kept;
      latest_current = w.latest_current;
      latest_labelled = w.latest_labelled;
      latest_event = w.latest_event;
    }

  ordered-WellFormed :
      (main_frame : Bool) (epoch : ℕ) (t : ObservationTuple)
      (result : Option (ChromiumSecurityResult D)) (reason : Option String)
      (s : SecurityObservationState D)
      → IsOfEvent t.event_sequence result
      → WellFormed s
      → WellFormed (retain_ordered main_frame epoch t result reason s)
  unfolding retain_ordered
  ordered-WellFormed main_frame epoch t result reason s same_event w =
      elim (admitted_epoch epoch s) [
        | refused e ↦ rw e w
        | same e highest ↦ rw e (behind s highest w)
        | newer e ↦ rw e (behind (advanced_to epoch s) refl (advanced_to-WellFormed epoch s))
      ]
    where
      behind :
          (u : SecurityObservationState D)
          → u.highest_maintenance_epoch ≡ some epoch
          → WellFormed u
          → WellFormed (
              add_recent epoch result
                (set_latest main_frame epoch t.event_sequence result reason u))
      behind u e w =
          let (w', e') =
            set_latest-WellFormed epoch main_frame t.event_sequence result reason u same_event e
              w in
          add_recent-WellFormed epoch result _ e' w'

  observed-WellFormed :
      (main_frame : Bool) (epoch : ℕ) (o : CanonicalSecurityObservation D)
      (s : SecurityObservationState D)
      → WellFormed s
      → WellFormed (retain_security_observation main_frame epoch o s)
  unfolding retain_security_observation
  observed-WellFormed main_frame epoch (available t result) s w =
      elim (Bool-cases (security_result_matches_observation result t)) [
        | inl fits ↦
            rw fits (
              ordered-WellFormed main_frame epoch t (some result) none s (matching result t fits) w)
        | inr other ↦ rw other w
      ]
  observed-WellFormed main_frame epoch (unavailable t reason) s w =
      ordered-WellFormed main_frame epoch t none (some reason) s (λ r h. cc) w
  observed-WellFormed main_frame epoch unordered s w = w

  decided-WellFormed :
      (decision : ChromiumConnectSecurityDecision D) (s : SecurityObservationState D)
      → WellFormed s
      → WellFormed (retain_connect_security_decision decision s)
  unfolding retain_connect_security_decision
  decided-WellFormed decision s w = elim (admitted_epoch decision.maintenance_epoch s) [
    | refused e ↦ rw e w
    | same e highest ↦ rw e (behind s highest w)
    | newer e ↦ rw e (
        behind (advanced_to decision.maintenance_epoch s) refl
          (advanced_to-WellFormed decision.maintenance_epoch s))
  ]
    where
      behind :
          (u : SecurityObservationState D)
          → u.highest_maintenance_epoch ≡ some decision.maintenance_epoch
          → WellFormed u
          → WellFormed (add_decision decision u)
      behind u e w = record {
        recent_kept = w.recent_kept;
        decisions_kept =
            retain_recent-Kept _ _ _ _ u.recent_connect_decisions (sym e) w.decisions_kept;
        latest_current = w.latest_current;
        latest_labelled = w.latest_labelled;
        latest_event = w.latest_event;
      }

  apply-WellFormed :
      (o : Operation D) (s : SecurityObservationState D) → WellFormed s → WellFormed (apply o s)
  unfolding apply activate deactivate
  apply-WellFormed (activated context epoch) s w =
      restarted-WellFormed (some context) (nonzero epoch)
  apply-WellFormed deactivated s w = restarted-WellFormed none none
  apply-WellFormed (epoch_retained epoch) s w = retained-WellFormed epoch s w
  apply-WellFormed (observed main_frame epoch o) s w = observed-WellFormed main_frame epoch o s w
  apply-WellFormed (decided decision) s w = decided-WellFormed decision s w

  run-keeps :
      (os : List (Operation D)) (s : SecurityObservationState D)
      → WellFormed s
      → WellFormed (run os s)
  unfolding run
  run-keeps [] s w = w
  run-keeps (o ∷ os) s w = run-keeps os (apply o s) (apply-WellFormed o s w)

  -- Whatever calls are made from the empty state, in any order: the results and the decisions shown
  -- are at most 32 each, in the order of their events with no event twice, all of the highest
  -- maintenance epoch that was admitted. The latest main frame is labelled with that epoch and is the
  -- result of the event that the floor names; without a label there is no main frame, no reason for
  -- its absence and no floor.
  pub run-WellFormed : (os : List (Operation D)) → WellFormed (run os (restarted none none))
  run-WellFormed os = run-keeps os (restarted none none) (restarted-WellFormed none none)

  -- An observation or a decision of an epoch below the highest one changes nothing.
  pub late_observation :
      (current epoch : ℕ) (main_frame : Bool) (o : CanonicalSecurityObservation D)
      (decision : ChromiumConnectSecurityDecision D) (s : SecurityObservationState D)
      → s.highest_maintenance_epoch ≡ some current
      → epoch < current
      → decision.maintenance_epoch < current
      → (retain_security_observation main_frame epoch o s ≡ s)
        × (retain_connect_security_decision decision s ≡ s)
  unfolding retain_security_observation retain_connect_security_decision retain_ordered
  late_observation current epoch main_frame o decision s e lt lt' =
      let observed_late = late epoch lt in
      (ignored o observed_late, rw (late decision.maintenance_epoch lt'))
    where
      late : (n : ℕ) → n < current → admit_security_observation_epoch n s ≡ (false, s)
      late n h = elim (Bool-cases (n == 0)) [
        | inl zero_epoch ↦ unfold admit_security_observation_epoch in rw zero_epoch
        | inr later ↦
            let below : ltb n current ≡ true = lt→ltb n current h in
            unfold admit_security_observation_epoch in rw (later, e, below)
      ]

      ignored :
          (o : CanonicalSecurityObservation D)
          → admit_security_observation_epoch epoch s ≡ (false, s)
          → retain_security_observation main_frame epoch o s ≡ s
      ignored (available t result) r =
          elim (Bool-cases (security_result_matches_observation result t)) [
            | inl fits ↦ rw (fits, r)
            | inr other ↦ rw other
          ]
      ignored (unavailable t reason) r = rw r
      ignored unordered r = refl
