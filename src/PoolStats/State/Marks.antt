-- ===== src/PoolStats/State/Marks.antt =====
-- The two ways that `bump_generation` ends, and with it the methods that mark the scope.
use hns_dane_browser_extensi.Prelude.{
  ◌+◌, ◌≤◌, ◌≡◌, refl, ◌∙◌, ◌⊎◌, inl, inr, Bool, true, false, Bool-cases, ltb, arith, u64_limit,
}
use hns_dane_browser_extensi.Prelude.Result.{Result, ok, err}
use hns_dane_browser_extensi.Prelude.Exec.{◌>>=◌, pure, reject, bind-run_ok, bind-run_err}
use hns_dane_browser_extensi.PoolStats.Error.{
  HrmPoolStatsError, state_generation_exhausted, sequence_rollback, conflicting_sequence,
  state_exhausted,
}
use hns_dane_browser_extensi.PoolStats.State.{
  conflicted, exhausted, HrmPoolStatsState, Update, bump_generation, mark_conflicted,
  mark_exhausted, is_conflicted, is_exhausted,
}
use hns_dane_browser_extensi.PoolStats.State.Advance.{
  equivocation_when, exhausted_when, write_when, replace_steps, insert_steps,
}

-- `m` fails for want of a generation and changes nothing, or ends in `r` with the state `next`.
abbrev pub Ends :
    {A : Type 0}
    → Update A
    → HrmPoolStatsState
    → Result HrmPoolStatsError A
    → (HrmPoolStatsState → Type 0)
    → Type 0
Ends m s r Next =
    ((u64_limit ≤ s.generation + 1) × (m s ≡ (err state_generation_exhausted, s)))
    ⊎ ((t : HrmPoolStatsState) × (m s ≡ (r, t)) × Next t)

pub equivocation_when_cases :
    (s : HrmPoolStatsState)
    → Ends
        (equivocation_when true)
        s
        (err conflicting_sequence)
        (λ t. t ≡ record s { generation = t.generation; status = conflicted })
unfolding equivocation_when mark_conflicted ◌>>=◌
equivocation_when_cases s = elim (Bool-cases (is_conflicted s)) [
  | inl e ↦ inr (s, ground arith, ground arith)
  | inr e ↦ elim (Bool-cases (ltb (s.generation + 1) u64_limit)) [
    | inl room ↦
        inr (record s { generation = s.generation + 1; status = conflicted }, ground arith, refl)
    | inr none_left ↦ inl (ground arith, ground arith)
  ]
]

pub exhausted_when_cases :
    (s : HrmPoolStatsState)
    → Ends
        (exhausted_when true)
        s
        (err state_exhausted)
        (λ t. t ≡ record s { generation = t.generation; status = exhausted })
unfolding exhausted_when mark_exhausted ◌>>=◌
exhausted_when_cases s = elim (Bool-cases (is_exhausted s)) [
  | inl e ↦ inr (s, ground arith, ground arith)
  | inr e ↦ elim (Bool-cases (ltb (s.generation + 1) u64_limit)) [
    | inl room ↦
        inr (record s { generation = s.generation + 1; status = exhausted }, ground arith, refl)
    | inr none_left ↦ inl (ground arith, ground arith)
  ]
]

pub write_when_cases :
    (write : HrmPoolStatsState → HrmPoolStatsState) (s : HrmPoolStatsState)
    → Ends
        (write_when true write)
        s
        (ok tt)
        (λ t. t ≡ write (record s { generation = s.generation + 1 }))
unfolding write_when bump_generation ◌>>=◌
write_when_cases write s = elim (Bool-cases (ltb (s.generation + 1) u64_limit)) [
  | inl room ↦ inr (write (record s { generation = s.generation + 1 }), ground arith, refl)
  | inr none_left ↦ inl (ground arith, ground arith)
]

pub equivocation_when-false : (s : HrmPoolStatsState) → equivocation_when false s ≡ (ok tt, s)
unfolding equivocation_when pure
equivocation_when-false s = refl

pub exhausted_when-false : (s : HrmPoolStatsState) → exhausted_when false s ≡ (ok tt, s)
unfolding exhausted_when pure
exhausted_when-false s = refl

pub write_when-false :
    (write : HrmPoolStatsState → HrmPoolStatsState) (s : HrmPoolStatsState)
    → write_when false write s ≡ (ok tt, s)
unfolding write_when pure
write_when-false write s = refl

pub reject-true :
    (x : HrmPoolStatsError) (s : HrmPoolStatsState)
    → reject {E = HrmPoolStatsError} true x s ≡ (err x, s)
unfolding reject
reject-true x s = refl

pub reject-false :
    (x : HrmPoolStatsError) (s : HrmPoolStatsState)
    → reject {E = HrmPoolStatsError} false x s ≡ (ok tt, s)
unfolding reject
reject-false x s = refl

-- The ways that the two arms end.
pub replace_steps_cases :
    (older equivocation newer : Bool) (write : HrmPoolStatsState → HrmPoolStatsState)
    (s : HrmPoolStatsState)
    → ((older ≡ true)
        × (replace_steps older equivocation newer write s ≡ (err sequence_rollback, s)))
      ⊎ ((older ≡ false)
          × (equivocation ≡ true)
          × Ends
              (replace_steps older equivocation newer write)
              s
              (err conflicting_sequence)
              (λ t. t ≡ record s { generation = t.generation; status = conflicted }))
      ⊎ ((older ≡ false)
          × (equivocation ≡ false)
          × (newer ≡ true)
          × Ends
              (replace_steps older equivocation newer write)
              s
              (ok tt)
              (λ t. t ≡ write (record s { generation = s.generation + 1 })))
      ⊎ ((older ≡ false)
          × (equivocation ≡ false)
          × (newer ≡ false)
          × (replace_steps older equivocation newer write s ≡ (ok tt, s)))
unfolding replace_steps
replace_steps_cases true equivocation newer write s =
    inl (refl, bind-run_err _ _ s (reject-true _ s))
replace_steps_cases false true newer write s = elim (equivocation_when_cases s) [
  | inl (left, run) ↦
      inr (
        inl (refl, refl, inl (left, bind-run_ok _ _ s (reject-false _ s) ∙ bind-run_err _ _ s run)))
  | inr (t, run, e) ↦
      inr (
        inl (refl, refl, inr (t, bind-run_ok _ _ s (reject-false _ s) ∙ bind-run_err _ _ s run, e)))
]
replace_steps_cases false false true write s = elim (write_when_cases write s) [
  | inl (left, run) ↦ inr (inr (inl (refl, refl, refl, inl (left, admitted ∙ run))))
  | inr (t, run, e) ↦ inr (inr (inl (refl, refl, refl, inr (t, admitted ∙ run, e))))
]
  where
    admitted : replace_steps false false true write s ≡ write_when true write s
    admitted = bind-run_ok _ _ s (reject-false _ s) ∙ bind-run_ok _ _ s (equivocation_when-false s)
replace_steps_cases false false false write s = inr (
    inr (
      inr (
        refl,
        refl,
        refl,
        bind-run_ok _ _ s (reject-false _ s)
            ∙ bind-run_ok _ _ s (equivocation_when-false s)
            ∙ write_when-false write s,
      )))

pub insert_steps_cases :
    (full : Bool) (write : HrmPoolStatsState → HrmPoolStatsState) (s : HrmPoolStatsState)
    → ((full ≡ true)
        × Ends
            (insert_steps full write)
            s
            (err state_exhausted)
            (λ t. t ≡ record s { generation = t.generation; status = exhausted }))
      ⊎ ((full ≡ false)
          × Ends
              (insert_steps full write)
              s
              (ok tt)
              (λ t. t ≡ write (record s { generation = s.generation + 1 })))
unfolding insert_steps
insert_steps_cases true write s = elim (exhausted_when_cases s) [
  | inl (left, run) ↦ inl (refl, inl (left, bind-run_err _ _ s run))
  | inr (t, run, e) ↦ inl (refl, inr (t, bind-run_err _ _ s run, e))
]
insert_steps_cases false write s = elim (write_when_cases write s) [
  | inl (left, run) ↦ inr (refl, inl (left, bind-run_ok _ _ s (exhausted_when-false s) ∙ run))
  | inr (t, run, e) ↦ inr (refl, inr (t, bind-run_ok _ _ s (exhausted_when-false s) ∙ run, e))
]
