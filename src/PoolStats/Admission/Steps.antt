-- ===== src/PoolStats/Admission/Steps.antt =====
-- What an admission that succeeds has checked on its way.
use hns_dane_browser_extensi.Prelude.{ℕ, ◌≡◌, refl, ap, subst, Bool, true, false, List, arith, not}
use hns_dane_browser_extensi.Prelude.Result
use hns_dane_browser_extensi.Prelude.Result.{Result, ok, err}
use hns_dane_browser_extensi.Prelude.Exec.{
  gets-bind_ok, reject-bind_ok, lifted, lift-bind_ok, ran, bind-Ran, pure,
}
use hns_dane_browser_extensi.PoolStats.Error.{HrmPoolStatsError}
use hns_dane_browser_extensi.PoolStats.Crypto.{Crypto}
use hns_dane_browser_extensi.PoolStats.Authority.{
  HrmPoolStatsRequest, CurrentHrmNamedService, validate, matches_request,
}
use hns_dane_browser_extensi.PoolStats.Document.{Formats}
use hns_dane_browser_extensi.PoolStats.Endpoint.{EndpointDelegation, endpoint_id}
use hns_dane_browser_extensi.PoolStats.Snapshot.{PoolStatsSnapshot}
use hns_dane_browser_extensi.PoolStats.Verify.{
  verify_endpoint, verify_snapshot, snapshot_context_differs,
}
use hns_dane_browser_extensi.PoolStats.State.{HrmPoolStatsState}
use hns_dane_browser_extensi.PoolStats.State.Advance.{advance_snapshot}
use hns_dane_browser_extensi.PoolStats.State.Bound.{
  IsBound, observe_authority-IsBound, require_active-ok,
}
use hns_dane_browser_extensi.PoolStats.State.Scope.{
  SameScope, advance_endpoint-SameScope, advance_snapshot-SameScope,
}
use hns_dane_browser_extensi.PoolStats.Admission.{
  VerifiedHrmPoolStatsSnapshot, minimize, admit_snapshot, admit_document, verify_document,
}

IsBound-SameScope :
    (a : CurrentHrmNamedService) (r : HrmPoolStatsRequest) (s t : HrmPoolStatsState)
    → SameScope s t
    → IsBound a r s
    → IsBound a r t
IsBound-SameScope a r s t same b = rw same (
    ground (
      arith, b.status_eq, b.time_eq, b.network_eq, b.name_eq, b.revision_eq, b.sequence_eq,
      b.envelope_eq, b.resource_eq, b.delegation_eq, b.generation_eq,
    ))

module _ (c : Crypto) where
  pub verify_snapshot-context :
      (s : PoolStatsSnapshot) (a : CurrentHrmNamedService) (r : HrmPoolStatsRequest)
      (e : EndpointDelegation) (id : List ℕ)
      → verify_snapshot c s a r e id ≡ ok tt
      → snapshot_context_differs s a r e id ≡ false
  unfolding verify_snapshot
  verify_snapshot-context s a r e id h =
      Result.reject-eq-ok _ _ (ok_unit _ (Result.>>=-eq-ok _ _ h).1)
    where
      ok_unit : (x : Unit {0}) {m : Result HrmPoolStatsError (Unit {0})} → m ≡ ok x → m ≡ ok tt
      ok_unit x h = h

  module _ (f : Formats) (a : CurrentHrmNamedService) (r : HrmPoolStatsRequest) where
    -- The two signed objects behind an admitted snapshot, and how they fit the authority.
    pub record Admitted (v : VerifiedHrmPoolStatsSnapshot) (t : HrmPoolStatsState) : Type 0 where
      pub delegation : EndpointDelegation
      pub snapshot : PoolStatsSnapshot
      pub delegation_verified : verify_endpoint c delegation a r.trusted_now ≡ ok tt
      pub snapshot_verified :
          verify_snapshot c snapshot a r delegation (endpoint_id c delegation) ≡ ok tt
      pub authority_valid : validate c a ≡ ok tt
      pub request_matched : matches_request a r ≡ true
      pub state_bound : IsBound a r t
      pub result_eq :
          v
          ≡ minimize snapshot a r
              (endpoint_id c delegation)
              delegation.endpoint_sequence
              t.generation

    record SnapshotStep (e : EndpointDelegation) (v : VerifiedHrmPoolStatsSnapshot)
        (s t : HrmPoolStatsState) : Type 0 where
      snapshot : PoolStatsSnapshot
      verified : verify_snapshot c snapshot a r e (endpoint_id c e) ≡ ok tt
      same : SameScope s t
      result_eq : v ≡ minimize snapshot a r (endpoint_id c e) e.endpoint_sequence t.generation

    released :
        (e : EndpointDelegation) (snap : PoolStatsSnapshot) (s u : HrmPoolStatsState)
        (hash : List ℕ) {v : VerifiedHrmPoolStatsSnapshot} {t : HrmPoolStatsState}
        → verify_snapshot c snap a r e (endpoint_id c e) ≡ ok tt
        → advance_snapshot snap.operator_id snap.sequence hash s ≡ (ok tt, u)
        → pure {E = HrmPoolStatsError}
            (minimize snap a r (endpoint_id c e) e.endpoint_sequence u.generation)
            u
          ≡ (ok v, t)
        → SnapshotStep e v s t
    unfolding pure
    released e snap s u hash verified written h = record {
      snapshot = snap;
      verified = verified;
      same = subst (SameScope s) (ap (λ p. p.1) h) (advance_snapshot-SameScope s _ _ hash written);
      result_eq = cc;
    }

    admit_snapshot-step :
        (e : EndpointDelegation) (bytes : List ℕ) (s : HrmPoolStatsState)
        {v : VerifiedHrmPoolStatsSnapshot} {t : HrmPoolStatsState}
        → admit_snapshot c f a r e bytes s ≡ (ok v, t)
        → SnapshotStep e v s t
    unfolding admit_snapshot
    admit_snapshot-step e bytes s {v} {t} h = elim (lift-bind_ok _ _ s h) [
      | lifted snap decoded h1 ↦ elim (lift-bind_ok _ _ s h1) [
        | lifted done verified h2 ↦ elim (lift-bind_ok _ _ s h2) [
          | lifted hash hashed h3 ↦ elim (bind-Ran _ _ s h3) [
            | ran done' u written h4 ↦
                released e snap s u hash verified written (gets-bind_ok _ _ u h4)
          ]
        ]
      ]
    ]

    record DocumentStep (v : VerifiedHrmPoolStatsSnapshot) (s t : HrmPoolStatsState) : Type 0 where
      delegation : EndpointDelegation
      delegation_verified : verify_endpoint c delegation a r.trusted_now ≡ ok tt
      between : HrmPoolStatsState
      same : SameScope s between
      rest : SnapshotStep delegation v between t

    admit_document-step :
        (bytes : List ℕ) (s : HrmPoolStatsState) {v : VerifiedHrmPoolStatsSnapshot}
        {t : HrmPoolStatsState}
        → admit_document c f a r bytes s ≡ (ok v, t)
        → DocumentStep v s t
    unfolding admit_document
    admit_document-step bytes s {v} {t} h = elim (lift-bind_ok _ _ s h) [
      | lifted document parsed h1 ↦ elim (lift-bind_ok _ _ s h1) [
        | lifted endpoint_bytes e_hex h2 ↦ elim (lift-bind_ok _ _ s h2) [
          | lifted snapshot_bytes s_hex h3 ↦ elim (lift-bind_ok _ _ s h3) [
            | lifted e decoded h4 ↦ elim (lift-bind_ok _ _ s h4) [
              | lifted done verified h5 ↦ elim (bind-Ran _ _ s h5) [
                | ran done' u advanced h6 ↦ record {
                  delegation = e;
                  delegation_verified = verified;
                  between = u;
                  same = advance_endpoint-SameScope s _ _ _ advanced;
                  rest = admit_snapshot-step e snapshot_bytes u h6;
                }
              ]
            ]
          ]
        ]
      ]
    ]

    document-Admitted :
        (bytes : List ℕ) (s : HrmPoolStatsState) {v : VerifiedHrmPoolStatsSnapshot}
        {t : HrmPoolStatsState}
        → validate c a ≡ ok tt
        → matches_request a r ≡ true
        → IsBound a r s
        → admit_document c f a r bytes s ≡ (ok v, t)
        → Admitted v t
    document-Admitted bytes s {v} {t} valid matched bound h =
        let step = admit_document-step bytes s h in
        let bound' = IsBound-SameScope a r s step.between step.same bound in
        record {
          delegation = step.delegation;
          snapshot = step.rest.snapshot;
          delegation_verified = step.delegation_verified;
          snapshot_verified = step.rest.verified;
          authority_valid = valid;
          request_matched = matched;
          state_bound = IsBound-SameScope a r step.between t step.rest.same bound';
          result_eq = step.rest.result_eq;
        }

    matched_of : (b : Bool) → not b ≡ false → b ≡ true
    matched_of true h = refl
    matched_of false h = cc

    -- A document that is admitted carries a delegation and a snapshot that both verify against the
    -- authority and the request, the state is left bound to that authority, and the released value
    -- is the minimized snapshot at the state's generation.
    pub verify_document-Admitted :
        (bytes : List ℕ) (s : HrmPoolStatsState) (v : VerifiedHrmPoolStatsSnapshot)
        (t : HrmPoolStatsState)
        → verify_document c f a r bytes s ≡ (ok v, t)
        → Admitted v t
    unfolding verify_document
    verify_document-Admitted bytes s v t h = elim (lift-bind_ok _ _ s h) [
      | lifted done valid h1 ↦
          let (matched, h2) = reject-bind_ok _ _ _ s h1 in
          elim (bind-Ran _ _ s h2) [
            | ran done' u observed h3 ↦ elim (bind-Ran _ _ u h3) [
              | ran done'' u' required h4 ↦
                  let (same, is_active) = require_active-ok u required in
                  let bound = observe_authority-IsBound a r s u observed is_active in
                  document-Admitted bytes u' valid (matched_of _ matched) (rw same bound) h4
            ]
          ]
    ]
