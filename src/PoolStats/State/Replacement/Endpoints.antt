-- ===== src/PoolStats/State/Replacement/Endpoints.antt =====
-- `advance_endpoint` as an update of the map from endpoint keys to their latest delegation.
use hns_dane_browser_extensi.Prelude.{
  ℕ, ◌+◌, ◌≤◌, ◌<◌, ◌≡◌, refl, sym, ap, subst, ◌∙◌, ◌≢◌, true, inl, inr, Option, none, some, List,
  length, set, ltb, leb, bytes_eq, bytes_eq→eq, ltb→lt, leb→le, arith, if◌then◌else◌, u64_limit,
}
use hns_dane_browser_extensi.Prelude.Result.{Result, ok, err}
use hns_dane_browser_extensi.PoolStats.Error.{
  HrmPoolStatsError, sequence_rollback, conflicting_sequence, state_exhausted,
  state_generation_exhausted, max_endpoint_histories,
}
use hns_dane_browser_extensi.PoolStats.History.{
  found, absent, insert_at, strictly_sorted_by, binary_search_by_key,
}
use hns_dane_browser_extensi.PoolStats.History.Sorted.{upsert}
use hns_dane_browser_extensi.PoolStats.History.Latest.{
  latest, latest-upsert, present, missing, looked,
}
use hns_dane_browser_extensi.PoolStats.State.{
  conflicted, exhausted, EndpointState, HrmPoolStatsState,
}
use hns_dane_browser_extensi.PoolStats.State.Marks.{replace_steps_cases, insert_steps_cases}
use hns_dane_browser_extensi.PoolStats.State.Replacement.Tests.{
  is_equivocation, same_sequence, other_object, equal_object, equal_sequence, newer_le, newer_ne,
}
use hns_dane_browser_extensi.PoolStats.State.Advance.{
  write_endpoint, advance_endpoint, set_endpoint, insert_endpoint,
}

abbrev pub key_of : EndpointState → List ℕ
key_of e = e.endpoint_key

-- The delegation that the state holds for a key.
abbrev pub delegation_of : List ℕ → HrmPoolStatsState → Option EndpointState
delegation_of k s = latest key_of k s.endpoints

abbrev pub IsSorted : HrmPoolStatsState → Type 0
IsSorted s = strictly_sorted_by key_of s.endpoints ≡ true

-- `t` is `s` with the delegation `e` for its key.
pub record Replaced (e : EndpointState) (s t : HrmPoolStatsState) : Type 0 where
  pub map_eq :
      (k : List ℕ)
      → delegation_of k t ≡ (if bytes_eq e.endpoint_key k then some e else delegation_of k s)
  pub others_eq : t ≡ record s { generation = t.generation; endpoints = t.endpoints }
  pub not_older :
      (old : EndpointState)
      → delegation_of e.endpoint_key s ≡ some old
      → (old.sequence ≤ e.sequence)
        × (old.sequence ≡ e.sequence → old.delegation_id ≡ e.delegation_id)

-- Why `e` was refused, and what the refusal leaves.
pub data Refused (e : EndpointState) (s : HrmPoolStatsState)
    : HrmPoolStatsError → HrmPoolStatsState → Type 0 where
  older :
      (old : EndpointState) {x : HrmPoolStatsError} {t : HrmPoolStatsState}
      → delegation_of e.endpoint_key s ≡ some old
      → e.sequence < old.sequence
      → x ≡ sequence_rollback
      → t ≡ s
      → Refused e s x t
  equivocation :
      (old : EndpointState) {x : HrmPoolStatsError} {t : HrmPoolStatsState}
      → delegation_of e.endpoint_key s ≡ some old
      → e.sequence ≡ old.sequence
      → e.delegation_id ≢ old.delegation_id
      → x ≡ conflicting_sequence
      → t ≡ record s { generation = t.generation; status = conflicted }
      → Refused e s x t
  full :
      {x : HrmPoolStatsError} {t : HrmPoolStatsState}
      → delegation_of e.endpoint_key s ≡ none
      → max_endpoint_histories ≤ length s.endpoints
      → x ≡ state_exhausted
      → t ≡ record s { generation = t.generation; status = exhausted }
      → Refused e s x t
  last_generation :
      {x : HrmPoolStatsError} {t : HrmPoolStatsState}
      → u64_limit ≤ s.generation + 1
      → x ≡ state_generation_exhausted
      → t ≡ s
      → Refused e s x t

-- A run on `e` either replaces or is refused.
abbrev pub Judged :
    EndpointState
    → HrmPoolStatsState
    → Result HrmPoolStatsError (Unit {0}) × HrmPoolStatsState
    → Type 0
Judged e s (ok done, t) = Replaced e s t
Judged e s (err x, t) = Refused e s x t

module _ (e : EndpointState) (s : HrmPoolStatsState) where
  -- Where the key has a delegation.
  module _ (i : ℕ) (old : EndpointState)
      (searched : binary_search_by_key key_of e.endpoint_key s.endpoints ≡ found i old)
      (current : delegation_of e.endpoint_key s ≡ some old) where
    set-upsert : set s.endpoints i e ≡ upsert key_of e s.endpoints
    set-upsert = rw searched

    -- A newer sequence, or the same delegation again.
    Replaced-set :
        old.sequence ≤ e.sequence
        → (old.sequence ≡ e.sequence → old.delegation_id ≡ e.delegation_id)
        → (n : ℕ) → Replaced e s (record s { generation = n; endpoints = set s.endpoints i e })
    Replaced-set le same n = record {
      map_eq = λ k. rw set-upsert (latest-upsert key_of k e s.endpoints);
      others_eq = refl;
      not_older = λ x p. ground (arith, current, p);
    }

    Replaced-same :
        old.sequence ≡ e.sequence
        → old.delegation_id ≡ e.delegation_id
        → old.endpoint_key ≡ e.endpoint_key
        → Replaced e s s
    Replaced-same q d k = record {
      map_eq = λ j. ground (arith, bytes_eq→eq e.endpoint_key j, current);
      others_eq = refl;
      not_older = λ x p. ground (arith, current, p);
    }

    found-Judged : old.endpoint_key ≡ e.endpoint_key → Judged e s (write_endpoint e (found i old) s)
    unfolding write_endpoint
    found-Judged k =
        elim (replace_steps_cases (ltb e.sequence old.sequence)
          (is_equivocation e.sequence old.sequence e.delegation_id old.delegation_id)
          (ltb old.sequence e.sequence) (set_endpoint i e) s) [
            | inl (lt, run) ↦
                subst (Judged e s) (sym run) (older old current (ltb→lt _ _ lt) refl refl)
            | inr (inl (ge, both, ends)) ↦ elim ends [
              | inl (left, run) ↦ subst (Judged e s) (sym run) (last_generation left refl refl)
              | inr (t, run, eq) ↦ subst (Judged e s) (sym run) (
                  equivocation old current
                    (same_sequence e.sequence old.sequence e.delegation_id old.delegation_id both)
                    (other_object e.sequence old.sequence e.delegation_id old.delegation_id both)
                    refl eq)
            ]
            | inr (inr (inl (ge, same, newer, ends))) ↦ elim ends [
              | inl (left, run) ↦ subst (Judged e s) (sym run) (last_generation left refl refl)
              | inr (t, run, eq) ↦ subst (Judged e s) (sym (run ∙ ap (λ u. (ok tt, u)) eq)) (
                  Replaced-set (newer_le e.sequence old.sequence newer)
                    (λ q. absurd (newer_ne e.sequence old.sequence newer q)) (s.generation + 1))
            ]
            | inr (inr (inr (ge, same, old_one, run))) ↦
                let q = equal_sequence e.sequence old.sequence ge old_one in
                subst (Judged e s) (sym run) (
                  Replaced-same q
                    (equal_object e.sequence old.sequence e.delegation_id old.delegation_id q same)
                    k)
          ]

  absent-Judged :
      (i : ℕ)
      → binary_search_by_key key_of e.endpoint_key s.endpoints ≡ absent i
      → delegation_of e.endpoint_key s ≡ none
      → Judged e s (write_endpoint e (absent i) s)
  unfolding write_endpoint
  absent-Judged i searched new =
      elim (insert_steps_cases (leb max_endpoint_histories (length s.endpoints))
        (insert_endpoint i e) s) [
          | inl (at_limit, ends) ↦ elim ends [
            | inl (left, run) ↦ subst (Judged e s) (sym run) (last_generation left refl refl)
            | inr (t, run, eq) ↦
                subst (Judged e s) (sym run) (full new (leb→le _ _ at_limit) refl eq)
          ]
          | inr (room, ends) ↦ elim ends [
            | inl (left, run) ↦ subst (Judged e s) (sym run) (last_generation left refl refl)
            | inr (t, run, eq) ↦ subst (Judged e s) (sym (run ∙ ap (λ u. (ok tt, u)) eq)) (record {
              map_eq = λ k.
                  let inserted : insert_at s.endpoints i e ≡ upsert key_of e s.endpoints =
                    rw searched in
                  rw inserted (latest-upsert key_of k e s.endpoints);
              others_eq = refl;
              not_older = λ old p. cc (new, p);
            })
          ]
        ]

-- A delegation is accepted exactly as the map from keys to delegations prescribes: it replaces the
-- entry of its key, which must not be newer, nor as new and another; nothing else changes. A refusal
-- names its reason, and changes at most the generation and the status.
pub advance_endpoint-Judged :
    (k : List ℕ) (q : ℕ) (d : List ℕ) (s : HrmPoolStatsState)
    → IsSorted s
    → Judged
        (record { endpoint_key = k; sequence = q; delegation_id = d })
        s
        (advance_endpoint k q d s)
unfolding advance_endpoint
advance_endpoint-Judged k q d s sorted = elim (looked key_of k s.endpoints sorted) [
  | present i old searched at current same ↦ rw searched (
      found-Judged (record { endpoint_key = k; sequence = q; delegation_id = d }) s i old searched
        current same)
  | missing i searched new ↦ rw searched (
      absent-Judged (record { endpoint_key = k; sequence = q; delegation_id = d }) s i searched new)
]
