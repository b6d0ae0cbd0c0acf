-- ===== src/PoolStats/State/Scope.antt =====
-- A write to a history that succeeds changes the history and the generation, and nothing else.
use hns_dane_browser_extensi.Prelude.{ℕ, ◌+◌, ◌≡◌, inl, inr, Bool, List}
use hns_dane_browser_extensi.Prelude.Result.{ok}
use hns_dane_browser_extensi.PoolStats.History.{Search, found, absent}
use hns_dane_browser_extensi.PoolStats.State.{EndpointState, OperatorState, HrmPoolStatsState}
use hns_dane_browser_extensi.PoolStats.State.Marks.{replace_steps_cases, insert_steps_cases}
use hns_dane_browser_extensi.PoolStats.State.Advance.{
  replace_steps, insert_steps, write_endpoint, advance_endpoint, set_endpoint, insert_endpoint,
  write_operator, advance_snapshot, set_operator, insert_operator,
}

-- Where an arm succeeds, it left the state alone or has written to it.
module _ (write : HrmPoolStatsState → HrmPoolStatsState) (s t : HrmPoolStatsState) where
  data Wrote : Type 0 where
    nothing : t ≡ s → Wrote
    something : t ≡ write (record s { generation = s.generation + 1 }) → Wrote

  replace_steps-Wrote :
      (older equivocation newer : Bool)
      → replace_steps older equivocation newer write s ≡ (ok tt, t)
      → Wrote
  replace_steps-Wrote older equivocation newer h =
      elim (replace_steps_cases older equivocation newer write s) [
        | inl (lt, run) ↦ cc
        | inr (inl (ge, both, inl (left, run))) ↦ cc
        | inr (inl (ge, both, inr (u, run, eq))) ↦ cc
        | inr (inr (inl (ge, same, new, inl (left, run)))) ↦ cc
        | inr (inr (inl (ge, same, new, inr (u, run, eq)))) ↦ something (cc)
        | inr (inr (inr (ge, same, old, run))) ↦ nothing (cc)
      ]

  insert_steps-Wrote : (full : Bool) → insert_steps full write s ≡ (ok tt, t) → Wrote
  insert_steps-Wrote full h = elim (insert_steps_cases full write s) [
    | inl (at_limit, inl (left, run)) ↦ cc
    | inl (at_limit, inr (u, run, eq)) ↦ cc
    | inr (room, inl (left, run)) ↦ cc
    | inr (room, inr (u, run, eq)) ↦ something (cc)
  ]

-- `t` differs from `s` in the histories and the generation alone.
abbrev pub SameScope : HrmPoolStatsState → HrmPoolStatsState → Type 0
SameScope s t =
    t ≡ record s { generation = t.generation; endpoints = t.endpoints; operators = t.operators }

module _ (s : HrmPoolStatsState) {t : HrmPoolStatsState} where
  write_endpoint-SameScope :
      (e : EndpointState) (p : Search EndpointState)
      → write_endpoint e p s ≡ (ok tt, t)
      → SameScope s t
  unfolding write_endpoint
  write_endpoint-SameScope e (found i x) h =
      elim (replace_steps-Wrote (set_endpoint i e) s t _ _ _ h) [
        | nothing eq ↦ rw eq
        | something eq ↦ rw eq
      ]
  write_endpoint-SameScope e (absent i) h =
      elim (insert_steps-Wrote (insert_endpoint i e) s t _ h) [
        | nothing eq ↦ rw eq
        | something eq ↦ rw eq
      ]

  pub advance_endpoint-SameScope :
      (k : List ℕ) (q : ℕ) (d : List ℕ) → advance_endpoint k q d s ≡ (ok tt, t) → SameScope s t
  unfolding advance_endpoint
  advance_endpoint-SameScope k q d h = write_endpoint-SameScope _ _ h

  write_operator-SameScope :
      (o : OperatorState) (p : Search OperatorState)
      → write_operator o p s ≡ (ok tt, t)
      → SameScope s t
  unfolding write_operator
  write_operator-SameScope o (found i x) h =
      elim (replace_steps-Wrote (set_operator i o) s t _ _ _ h) [
        | nothing eq ↦ rw eq
        | something eq ↦ rw eq
      ]
  write_operator-SameScope o (absent i) h =
      elim (insert_steps-Wrote (insert_operator i o) s t _ h) [
        | nothing eq ↦ rw eq
        | something eq ↦ rw eq
      ]

  pub advance_snapshot-SameScope :
      (k : List ℕ) (q : ℕ) (d : List ℕ) → advance_snapshot k q d s ≡ (ok tt, t) → SameScope s t
  unfolding advance_snapshot
  advance_snapshot-SameScope k q d h = write_operator-SameScope _ _ h
