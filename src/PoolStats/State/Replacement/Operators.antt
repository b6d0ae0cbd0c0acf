-- ===== src/PoolStats/State/Replacement/Operators.antt =====
-- `advance_snapshot` as an update of the map from operators to their latest snapshot.
use hns_dane_browser_extensi.Prelude.{
  ℕ, ◌+◌, ◌≤◌, ◌<◌, ◌≡◌, refl, sym, ap, subst, ◌∙◌, ◌≢◌, true, inl, inr, Option, none, some, List,
  length, set, ltb, leb, bytes_eq, bytes_eq→eq, ltb→lt, leb→le, arith, if◌then◌else◌, u64_limit,
}
use hns_dane_browser_extensi.Prelude.Result.{Result, ok, err}
use hns_dane_browser_extensi.PoolStats.Error.{
  HrmPoolStatsError, sequence_rollback, conflicting_sequence, state_exhausted,
  state_generation_exhausted, max_operator_histories,
}
use hns_dane_browser_extensi.PoolStats.History.{
  found, absent, insert_at, strictly_sorted_by, binary_search_by_key,
}
use hns_dane_browser_extensi.PoolStats.History.Sorted.{upsert}
use hns_dane_browser_extensi.PoolStats.History.Latest.{
  latest, latest-upsert, present, missing, looked,
}
use hns_dane_browser_extensi.PoolStats.State.{
  conflicted, exhausted, OperatorState, HrmPoolStatsState,
}
use hns_dane_browser_extensi.PoolStats.State.Marks.{replace_steps_cases, insert_steps_cases}
use hns_dane_browser_extensi.PoolStats.State.Replacement.Tests.{
  is_equivocation, same_sequence, other_object, equal_object, equal_sequence, newer_le, newer_ne,
}
use hns_dane_browser_extensi.PoolStats.State.Advance.{
  write_operator, advance_snapshot, set_operator, insert_operator,
}

abbrev pub key_of : OperatorState → List ℕ
key_of e = e.operator_id

-- The snapshot that the state holds for an operator.
abbrev pub snapshot_of : List ℕ → HrmPoolStatsState → Option OperatorState
snapshot_of k s = latest key_of k s.operators

abbrev pub IsSorted : HrmPoolStatsState → Type 0
IsSorted s = strictly_sorted_by key_of s.operators ≡ true

-- `t` is `s` with the snapshot `e` for its operator.
pub record Replaced (e : OperatorState) (s t : HrmPoolStatsState) : Type 0 where
  pub map_eq :
      (k : List ℕ)
      → snapshot_of k t ≡ (if bytes_eq e.operator_id k then some e else snapshot_of k s)
  pub others_eq : t ≡ record s { generation = t.generation; operators = t.operators }
  pub not_older :
      (old : OperatorState)
      → snapshot_of e.operator_id s ≡ some old
      → (old.sequence ≤ e.sequence) × (old.sequence ≡ e.sequence → old.digest ≡ e.digest)

-- Why `e` was refused, and what the refusal leaves.
pub data Refused (e : OperatorState) (s : HrmPoolStatsState)
    : HrmPoolStatsError → HrmPoolStatsState → Type 0 where
  older :
      (old : OperatorState) {x : HrmPoolStatsError} {t : HrmPoolStatsState}
      → snapshot_of e.operator_id s ≡ some old
      → e.sequence < old.sequence
      → x ≡ sequence_rollback
      → t ≡ s
      → Refused e s x t
  equivocation :
      (old : OperatorState) {x : HrmPoolStatsError} {t : HrmPoolStatsState}
      → snapshot_of e.operator_id s ≡ some old
      → e.sequence ≡ old.sequence
      → e.digest ≢ old.digest
      → x ≡ conflicting_sequence
      → t ≡ record s { generation = t.generation; status = conflicted }
      → Refused e s x t
  full :
      {x : HrmPoolStatsError} {t : HrmPoolStatsState}
      → snapshot_of e.operator_id s ≡ none
      → max_operator_histories ≤ length s.operators
      → x ≡ state_exhausted
      → t ≡ record s { generation = t.generation; status = exhausted }
      → Refused e s x t
  last_generation :
      {x : HrmPoolStatsError} {t : HrmPoolStatsState}
      → u64_limit ≤ s.generation + 1
      → x ≡ state_generation_exhausted
      → t ≡ s
      → Refused e s x t

-- A run on `e` either replaces or is refused.
abbrev pub Judged :
    OperatorState
    → HrmPoolStatsState
    → Result HrmPoolStatsError (Unit {0}) × HrmPoolStatsState
    → Type 0
Judged e s (ok done, t) = Replaced e s t
Judged e s (err x, t) = Refused e s x t

module _ (e : OperatorState) (s : HrmPoolStatsState) where
  -- Where the operator has a snapshot.
  module _ (i : ℕ) (old : OperatorState)
      (searched : binary_search_by_key key_of e.operator_id s.operators ≡ found i old)
      (current : snapshot_of e.operator_id s ≡ some old) where
    set-upsert : set s.operators i e ≡ upsert key_of e s.operators
    set-upsert = rw searched

    -- A newer sequence, or the same snapshot again.
    Replaced-set :
        old.sequence ≤ e.sequence
        → (old.sequence ≡ e.sequence → old.digest ≡ e.digest)
        → (n : ℕ) → Replaced e s (record s { generation = n; operators = set s.operators i e })
    Replaced-set le same n = record {
      map_eq = λ k. rw set-upsert (latest-upsert key_of k e s.operators);
      others_eq = refl;
      not_older = λ x p. ground (arith, current, p);
    }

    Replaced-same :
        old.sequence ≡ e.sequence
        → old.digest ≡ e.digest
        → old.operator_id ≡ e.operator_id
        → Replaced e s s
    Replaced-same q d k = record {
      map_eq = λ j. ground (arith, bytes_eq→eq e.operator_id j, current);
      others_eq = refl;
      not_older = λ x p. ground (arith, current, p);
    }

    found-Judged : old.operator_id ≡ e.operator_id → Judged e s (write_operator e (found i old) s)
    unfolding write_operator
    found-Judged k =
        elim (replace_steps_cases (ltb e.sequence old.sequence)
          (is_equivocation e.sequence old.sequence e.digest old.digest)
          (ltb old.sequence e.sequence) (set_operator i e) s) [
            | inl (lt, run) ↦
                subst (Judged e s) (sym run) (older old current (ltb→lt _ _ lt) refl refl)
            | inr (inl (ge, both, ends)) ↦ elim ends [
              | inl (left, run) ↦ subst (Judged e s) (sym run) (last_generation left refl refl)
              | inr (t, run, eq) ↦ subst (Judged e s) (sym run) (
                  equivocation old current
                    (same_sequence e.sequence old.sequence e.digest old.digest both)
                    (other_object e.sequence old.sequence e.digest old.digest both) refl eq)
            ]
            | inr (inr (inl (ge, same, newer, ends))) ↦ elim ends [
              | inl (left, run) ↦ subst (Judged e s) (sym run) (last_generation left refl refl)
              | inr (t, run, eq) ↦ subst (Judged e s) (sym (run ∙ ap (λ u. (ok tt, u)) eq)) (
                  Replaced-set (newer_le e.sequence old.sequence newer)
                    (λ q. absurd (newer_ne e.sequence old.sequence newer q)) (s.generation + 1))
            ]
            | inr (inr (inr (ge, same, old_one, run))) ↦
                let q = equal_sequence e.sequence old.sequence ge old_one in
                subst (Judged e s) (sym run) (
                  Replaced-same q (equal_object e.sequence old.sequence e.digest old.digest q same)
                    k)
          ]

  absent-Judged :
      (i : ℕ)
      → binary_search_by_key key_of e.operator_id s.operators ≡ absent i
      → snapshot_of e.operator_id s ≡ none
      → Judged e s (write_operator e (absent i) s)
  unfolding write_operator
  absent-Judged i searched new =
      elim (insert_steps_cases (leb max_operator_histories (length s.operators))
        (insert_operator i e) s) [
          | inl (at_limit, ends) ↦ elim ends [
            | inl (left, run) ↦ subst (Judged e s) (sym run) (last_generation left refl refl)
            | inr (t, run, eq) ↦
                subst (Judged e s) (sym run) (full new (leb→le _ _ at_limit) refl eq)
          ]
          | inr (room, ends) ↦ elim ends [
            | inl (left, run) ↦ subst (Judged e s) (sym run) (last_generation left refl refl)
            | inr (t, run, eq) ↦ subst (Judged e s) (sym (run ∙ ap (λ u. (ok tt, u)) eq)) (record {
              map_eq = λ k.
                  let inserted : insert_at s.operators i e ≡ upsert key_of e s.operators =
                    rw searched in
                  rw inserted (latest-upsert key_of k e s.operators);
              others_eq = refl;
              not_older = λ old p. cc (new, p);
            })
          ]
        ]

-- A snapshot is accepted exactly as the map from operators to snapshots prescribes: it replaces the
-- entry of its operator, which must not be newer, nor as new and another; nothing else changes. A refusal
-- names its reason, and changes at most the generation and the status.
pub advance_snapshot-Judged :
    (k : List ℕ) (q : ℕ) (d : List ℕ) (s : HrmPoolStatsState)
    → IsSorted s
    → Judged (record { operator_id = k; sequence = q; digest = d }) s (advance_snapshot k q d s)
unfolding advance_snapshot
advance_snapshot-Judged k q d s sorted = elim (looked key_of k s.operators sorted) [
  | present i old searched at current same ↦ rw searched (
      found-Judged (record { operator_id = k; sequence = q; digest = d }) s i old searched current
        same)
  | missing i searched new ↦
      rw searched
        (absent-Judged (record { operator_id = k; sequence = q; digest = d }) s i searched new)
]
