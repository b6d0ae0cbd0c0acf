-- ===== src/PoolStats/State/Advance.antt =====
-- `advance_endpoint` and `advance_snapshot`: the replacement histories of a service generation.
use hns_dane_browser_extensi.Prelude.{
  ℕ, Bool, true, false, ◌&&◌, not, List, length, set, ltb, leb, ◌==◌, bytes_eq,
}
use hns_dane_browser_extensi.Prelude.Exec.{pure, raise, modify, reject, ◌>>◌}
use hns_dane_browser_extensi.PoolStats.Error.{
  sequence_rollback, conflicting_sequence, state_exhausted, max_endpoint_histories,
  max_operator_histories,
}
use hns_dane_browser_extensi.PoolStats.History.{
  Search, found, absent, insert_at, binary_search_by_key,
}
use hns_dane_browser_extensi.PoolStats.State.{
  EndpointState, OperatorState, HrmPoolStatsState, Update, bump_generation, mark_conflicted,
  mark_exhausted,
}

-- `if equivocation { self.mark_conflicted()?; return Err(ConflictingSequence) }`
unfoldable pub equivocation_when : Bool → Update (Unit {0})
equivocation_when true = do mark_conflicted; raise conflicting_sequence
equivocation_when false = pure tt

-- `if full { self.mark_exhausted()?; return Err(StateExhausted) }`
unfoldable pub exhausted_when : Bool → Update (Unit {0})
exhausted_when true = do mark_exhausted; raise state_exhausted
exhausted_when false = pure tt

-- `if newer { self.bump_generation()?; write }`
unfoldable pub write_when : Bool → (HrmPoolStatsState → HrmPoolStatsState) → Update (Unit {0})
write_when true write = do bump_generation; modify write
write_when false write = pure tt

-- The arm of the match for an entry that is there.
unfoldable pub replace_steps :
    Bool → Bool → Bool → (HrmPoolStatsState → HrmPoolStatsState) → Update (Unit {0})
replace_steps older equivocation newer write = do
  reject older sequence_rollback
  equivocation_when equivocation
  write_when newer write

-- The arm of the match for a key that is new.
unfoldable pub insert_steps : Bool → (HrmPoolStatsState → HrmPoolStatsState) → Update (Unit {0})
insert_steps full write = do exhausted_when full; write_when true write

abbrev pub set_endpoint : ℕ → EndpointState → HrmPoolStatsState → HrmPoolStatsState
set_endpoint i e s = record s { endpoints = set s.endpoints i e }

abbrev pub insert_endpoint : ℕ → EndpointState → HrmPoolStatsState → HrmPoolStatsState
insert_endpoint i e s = record s { endpoints = insert_at s.endpoints i e }

unfoldable pub write_endpoint : EndpointState → Search EndpointState → Update (Unit {0})
write_endpoint e (found position current) =
    replace_steps (ltb e.sequence current.sequence)
      (e.sequence == current.sequence && not (bytes_eq e.delegation_id current.delegation_id))
      (ltb current.sequence e.sequence) (set_endpoint position e)
write_endpoint e (absent position) = λ s.
    insert_steps (leb max_endpoint_histories (length s.endpoints)) (insert_endpoint position e) s

unfoldable pub advance_endpoint : List ℕ → ℕ → List ℕ → Update (Unit {0})
advance_endpoint key seq delegation s =
    write_endpoint (record { endpoint_key = key; sequence = seq; delegation_id = delegation })
      (binary_search_by_key (λ e. e.endpoint_key) key s.endpoints) s

abbrev pub set_operator : ℕ → OperatorState → HrmPoolStatsState → HrmPoolStatsState
set_operator i o s = record s { operators = set s.operators i o }

abbrev pub insert_operator : ℕ → OperatorState → HrmPoolStatsState → HrmPoolStatsState
insert_operator i o s = record s { operators = insert_at s.operators i o }

unfoldable pub write_operator : OperatorState → Search OperatorState → Update (Unit {0})
write_operator o (found position current) =
    replace_steps (ltb o.sequence current.sequence)
      (o.sequence == current.sequence && not (bytes_eq o.digest current.digest))
      (ltb current.sequence o.sequence) (set_operator position o)
write_operator o (absent position) = λ s.
    insert_steps (leb max_operator_histories (length s.operators)) (insert_operator position o) s

unfoldable pub advance_snapshot : List ℕ → ℕ → List ℕ → Update (Unit {0})
advance_snapshot operator seq snapshot_digest s =
    write_operator (record { operator_id = operator; sequence = seq; digest = snapshot_digest })
      (binary_search_by_key (λ o. o.operator_id) operator s.operators) s
