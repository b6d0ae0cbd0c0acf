-- ===== src/PoolStats/Commit/Release.antt =====
-- What leaves `verify_hrm_and_commit`, and when.
use hns_dane_browser_extensi.Prelude.{
  ℕ, ◌≡◌, refl, sym, ap, ◌∙◌, ◌≢◌, ◌⊎◌, inl, inr, Bool-cases, List, ◌==◌, ==_iff, arith,
}
use hns_dane_browser_extensi.Prelude.Result.{Result, ok, err}
use hns_dane_browser_extensi.PoolStats.Error.{HrmPoolStatsError}
use hns_dane_browser_extensi.PoolStats.Crypto.{Crypto}
use hns_dane_browser_extensi.PoolStats.Authority.{HrmPoolStatsRequest, CurrentHrmNamedService}
use hns_dane_browser_extensi.PoolStats.Document.{Formats}
use hns_dane_browser_extensi.PoolStats.State.{HrmPoolStatsState}
use hns_dane_browser_extensi.PoolStats.Codec.{encode}
use hns_dane_browser_extensi.PoolStats.Admission.{VerifiedHrmPoolStatsSnapshot, verify_document}
use hns_dane_browser_extensi.PoolStats.Admission.Keeps.{verify_document-Follows}
use hns_dane_browser_extensi.PoolStats.Commit.{
  Commit, Outcome, HrmPoolStatsAdmissionError, verification, persistence, map_verification,
  verify_hrm_and_commit, commit_encoded, after_commit,
}

abbrev result_of :
    {W E : Type 0}
    → Outcome W E
    → Result (HrmPoolStatsAdmissionError E) VerifiedHrmPoolStatsSnapshot
result_of o = o.result

abbrev state_of : {W E : Type 0} → Outcome W E → HrmPoolStatsState
state_of o = o.state

abbrev world_of : {W E : Type 0} → Outcome W E → W
world_of o = o.world

module _ {W E : Type 0} (c : Crypto) (f : Formats) (a : CurrentHrmNamedService)
    (r : HrmPoolStatsRequest) (document : List ℕ) (commit : Commit W E) (s : HrmPoolStatsState)
    (w : W) where
  abbrev pub candidate : HrmPoolStatsState
  candidate = (verify_document c f a r document s).1

  abbrev pub outcome : Outcome W E
  outcome = verify_hrm_and_commit c f a r document commit s w

  -- The candidate was encoded and the store accepted it.
  pub record Committed (w' : W) : Type 0 where
    pub encoded : List ℕ
    pub is_encoding : encode c candidate ≡ ok encoded
    pub accepted : commit s.generation encoded w ≡ (ok tt, w')

  abbrev verdict : Result HrmPoolStatsError VerifiedHrmPoolStatsSnapshot
  verdict = (verify_document c f a r document s).0

  -- The four ways an admission can end.
  data Ending : Type 0 where
    nothing_to_write :
        candidate ≡ s
        → outcome ≡ record { result = map_verification verdict; state = s; world = w }
        → Ending
    not_encoded :
        (e : HrmPoolStatsError)
        → encode c candidate ≡ err e
        → outcome ≡ record { result = err (verification e); state = s; world = w }
        → Ending
    written :
        (w' : W)
        → Committed w'
        → outcome ≡ record { result = map_verification verdict; state = candidate; world = w' }
        → Ending
    not_stored :
        (x : E) (w' : W)
        → outcome ≡ record { result = err (persistence x); state = s; world = w' }
        → Ending

  after_commit-Ending :
      (encoded : List ℕ) (reply : Result E (Unit {0})) (w' : W)
      → encode c candidate ≡ ok encoded
      → commit s.generation encoded w ≡ (reply, w')
      → outcome ≡ after_commit s candidate verdict reply w'
      → Ending
  after_commit-Ending encoded (ok tt) w' e k o =
      written w' (record { encoded = encoded; is_encoding = e; accepted = k }) o
  after_commit-Ending encoded (err x) w' e k o = not_stored x w' o

  commit_encoded-Ending :
      (encoding : Result HrmPoolStatsError (List ℕ))
      → encode c candidate ≡ encoding
      → outcome ≡ commit_encoded commit s candidate verdict encoding w
      → Ending
  commit_encoded-Ending (err e) eq o = not_encoded e eq o
  commit_encoded-Ending (ok encoded) eq o = after_commit-Ending encoded _ _ eq refl o

  ending : Ending
  unfolding verify_hrm_and_commit
  ending = elim (Bool-cases (candidate.generation == s.generation)) [
    | inl same ↦
        nothing_to_write
          ((verify_document-Follows c f a r document s).unchanged (sym ((==_iff _ _).0 same)))
          (rw (same, verify_hrm_and_commit))
    | inr moved ↦
        commit_encoded-Ending (encode c candidate) refl (rw (moved, verify_hrm_and_commit))
  ]

  map_verification-ok :
      (v : VerifiedHrmPoolStatsSnapshot) (x : Result HrmPoolStatsError VerifiedHrmPoolStatsSnapshot)
      → map_verification {E = E} x ≡ ok v
      → x ≡ ok v
  map_verification-ok v (ok u) h = cc
  map_verification-ok v (err e) h = cc

  map_verification-ne-persistence :
      (x : Result HrmPoolStatsError VerifiedHrmPoolStatsSnapshot) (e : E)
      → map_verification x ≢ err (persistence e)
  map_verification-ne-persistence (ok u) e h = cc
  map_verification-ne-persistence (err x) e h = cc

  -- A snapshot leaves the admission only together with the state that its verification left: either
  -- that state is the one before, and the world outside was not touched, or its encoding was handed
  -- to `commit` under the generation before and `commit` accepted it.
  pub release_is_Committed :
      (v : VerifiedHrmPoolStatsSnapshot)
      → outcome.result ≡ ok v
      → (verify_document c f a r document s ≡ (ok v, outcome.state))
        × (((outcome.state ≡ s) × (outcome.world ≡ w)) ⊎ Committed outcome.world)
  release_is_Committed v h = elim ending [
    | nothing_to_write same o ↦ (
      ground (arith, map_verification-ok v verdict (sym (ap result_of o) ∙ h)),
      inl (ap state_of o, ap world_of o),
    )
    | not_encoded e n o ↦ cc (ap result_of o)
    | written w' k o ↦
        (ground (arith, map_verification-ok v verdict (sym (ap result_of o) ∙ h)), inr (rw o k))
    | not_stored x w' o ↦ cc (ap result_of o)
  ]

  -- Where the store refuses the candidate, the caller keeps the state from before.
  pub refused_commit_keeps_state :
      (x : E) → outcome.result ≡ err (persistence x) → outcome.state ≡ s
  refused_commit_keeps_state x h = elim ending [
    | nothing_to_write same o ↦
        absurd (map_verification-ne-persistence verdict x (sym (ap result_of o) ∙ h))
    | not_encoded e n o ↦ ap state_of o
    | written w' k o ↦ absurd (map_verification-ne-persistence verdict x (sym (ap result_of o) ∙ h))
    | not_stored y w' o ↦ ap state_of o
  ]

  -- Nothing that verification changed is lost: if the candidate can be encoded and the store did
  -- not refuse it, the caller's state is the candidate, also where the document is refused, and
  -- where it differs from the state before it is stored.
  pub mutations_are_kept :
      (encoded : List ℕ)
      → encode c candidate ≡ ok encoded
      → ((x : E) → outcome.result ≢ err (persistence x))
      → (outcome.state ≡ candidate) × ((candidate ≡ s) ⊎ Committed outcome.world)
  mutations_are_kept encoded k stored = elim ending [
    | nothing_to_write same o ↦ (ap state_of o ∙ sym same, inl same)
    | not_encoded e n o ↦ cc
    | written w' d o ↦ (ap state_of o, inr (rw o d))
    | not_stored x w' o ↦ absurd (stored x (ap result_of o))
  ]
