-- ===== src/PoolStats/State/Keeps.antt =====
-- What every method of the state keeps, whether it succeeds or fails.
use hns_dane_browser_extensi.Prelude.{
  ℕ, ◌+◌, ◌≤◌, ◌<◌, ◌≡◌, ◌∙◌, Bool, Bool-cases, inl, inr, ==_iff, true, false, ltb, ◌==◌, arith,
  List,
}
use hns_dane_browser_extensi.Prelude.Result.{Result, ok, err}
use hns_dane_browser_extensi.Prelude.Exec.{
  pure, raise, lift, gets, modify, reject, continue, ◌>>=◌, ◌>>◌,
}
use hns_dane_browser_extensi.PoolStats.Error.{HrmPoolStatsError, authority_not_current}
use hns_dane_browser_extensi.PoolStats.Authority.{HrmPoolStatsRequest, CurrentHrmNamedService}
use hns_dane_browser_extensi.PoolStats.History.{Search, found, absent}
use hns_dane_browser_extensi.PoolStats.State.{
  HrmPoolStatsState, EndpointState, OperatorState, Update, is_active, bump_generation,
  mark_conflicted, mark_exhausted, require_active,
}
use hns_dane_browser_extensi.PoolStats.State.Observe.{
  observe_first, observe_next, observe_rest, observe_authority, advance_time, conflict_when,
  check_equal_revision, adopt_authority, observation_differs,
}
use hns_dane_browser_extensi.PoolStats.State.Advance.{
  equivocation_when, exhausted_when, write_when, replace_steps, insert_steps, write_endpoint,
  advance_endpoint, write_operator, advance_snapshot, set_endpoint, insert_endpoint, set_operator,
  insert_operator,
}

-- `t` follows `s`: the generation does not fall, every change raises it, time does not go back,
-- and a blocked scope stays blocked.
pub record Follows (s t : HrmPoolStatsState) : Type 0 where
  pub generation_le : s.generation ≤ t.generation
  pub unchanged : s.generation ≡ t.generation → t ≡ s
  pub time_le : 0 < s.generation → s.trusted_time_high_water ≤ t.trusted_time_high_water
  pub still_blocked : is_active s ≡ false → is_active t ≡ false

pub Follows-refl : (s : HrmPoolStatsState) → Follows s s
Follows-refl s = ground arith

pub Follows-trans : (s t u : HrmPoolStatsState) → Follows s t → Follows t u → Follows s u
Follows-trans s t u f g = record {
  generation_le = omega (arith, f.generation_le, g.generation_le);
  unchanged = λ e.
      g.unchanged (omega (arith, f.generation_le, g.generation_le, e))
      ∙ f.unchanged (omega (arith, f.generation_le, g.generation_le, e));
  time_le = λ p. omega (arith, f.time_le p, g.time_le (omega (arith, f.generation_le, p)));
  still_blocked = λ b. g.still_blocked (f.still_blocked b);
}

-- Every run of `m` is a step that follows.
pub record Keeps {A : Type 0} (m : Update A) : Type 0 where
  pub at : (s : HrmPoolStatsState) → Follows s (m s).1

module _ {A : Type 0} where
  pub Keeps-pure : (a : A) → Keeps {A = A} (pure a)
  unfolding pure
  Keeps-pure a = record { at = Follows-refl }

  pub Keeps-raise : (e : HrmPoolStatsError) → Keeps {A = A} (raise e)
  unfolding raise
  Keeps-raise e = record { at = Follows-refl }

  pub Keeps-lift : (r : Result HrmPoolStatsError A) → Keeps (lift r)
  unfolding lift
  Keeps-lift r = record { at = Follows-refl }

  pub Keeps-gets : (f : HrmPoolStatsState → A) → Keeps {A = A} (gets f)
  unfolding gets
  Keeps-gets f = record { at = Follows-refl }

pub Keeps-reject : (b : Bool) (e : HrmPoolStatsError) → Keeps (reject b e)
unfolding reject
Keeps-reject true e = record { at = Follows-refl }
Keeps-reject false e = record { at = Follows-refl }

module _ {A B : Type 0} where
  Follows-continue :
      (r : Result HrmPoolStatsError A) (f : A → Update B)
      → ((a : A) → Keeps (f a))
      → (s : HrmPoolStatsState) → Follows s (continue r f s).1
  Follows-continue (ok a) f k s = (k a).at s
  Follows-continue (err e) f k s = Follows-refl s

  pub Keeps-bind :
      (m : Update A) (f : A → Update B) → Keeps m → ((a : A) → Keeps (f a)) → Keeps (m >>= f)
  unfolding ◌>>=◌
  Keeps-bind m f km kf = record {
    at = λ s. Follows-trans s _ _ (km.at s) (Follows-continue (m s).0 f kf (m s).1);
  }

pub ruleset keeps_rules =
    (Keeps-pure, Keeps-raise, Keeps-lift, Keeps-gets, Keeps-reject, Keeps-bind)

mark_conflicted-Keeps : Keeps mark_conflicted
unfolding mark_conflicted ◌>>=◌
mark_conflicted-Keeps = record { at = λ s. ground arith }

mark_exhausted-Keeps : Keeps mark_exhausted
unfolding mark_exhausted ◌>>=◌
mark_exhausted-Keeps = record { at = λ s. ground arith }

pub require_active-Keeps : Keeps require_active
unfolding require_active
require_active-Keeps = record { at = λ s. ground arith }

advance_time-Keeps :
    (r : HrmPoolStatsRequest) (s : HrmPoolStatsState)
    → Follows s (advance_time r s.trusted_time_high_water s).1
unfolding advance_time bump_generation ◌>>=◌
advance_time-Keeps r s = ground arith

conflict_when-Keeps : (b : Bool) → Keeps (conflict_when b)
unfolding conflict_when
conflict_when-Keeps true = search (keeps_rules, mark_conflicted-Keeps)
conflict_when-Keeps false = search keeps_rules

equivocation_when-Keeps : (b : Bool) → Keeps (equivocation_when b)
unfolding equivocation_when
equivocation_when-Keeps true = search (keeps_rules, mark_conflicted-Keeps)
equivocation_when-Keeps false = search keeps_rules

exhausted_when-Keeps : (b : Bool) → Keeps (exhausted_when b)
unfolding exhausted_when
exhausted_when-Keeps true = search (keeps_rules, mark_exhausted-Keeps)
exhausted_when-Keeps false = search keeps_rules

-- A write behind `bump_generation` that leaves generation, time and status alone.
record IsHistoryWrite (write : HrmPoolStatsState → HrmPoolStatsState) : Type 0 where
  generation_eq : (s : HrmPoolStatsState) → (write s).generation ≡ s.generation
  time_eq : (s : HrmPoolStatsState) → (write s).trusted_time_high_water ≡ s.trusted_time_high_water
  status_eq : (s : HrmPoolStatsState) → (write s).status ≡ s.status

bump_then-Keeps :
    (write : HrmPoolStatsState → HrmPoolStatsState)
    → IsHistoryWrite write
    → Keeps (bump_generation >>= λ _. modify write)
unfolding bump_generation ◌>>=◌
bump_then-Keeps write w = record {
  at = λ s.
      let next = record s { generation = s.generation + 1 } in
      ground (arith, w.generation_eq next, w.time_eq next, w.status_eq next);
}

write_when-Keeps :
    (b : Bool) (write : HrmPoolStatsState → HrmPoolStatsState)
    → IsHistoryWrite write
    → Keeps (write_when b write)
unfolding write_when
write_when-Keeps true write w = bump_then-Keeps write w
write_when-Keeps false write w = search keeps_rules

adopt_authority-Keeps : (a : CurrentHrmNamedService) → Keeps (adopt_authority a)
unfolding adopt_authority bump_generation ◌>>=◌
adopt_authority-Keeps a = record { at = λ s. ground arith }

set_endpoint-IsHistoryWrite : (i : ℕ) (e : EndpointState) → IsHistoryWrite (set_endpoint i e)
set_endpoint-IsHistoryWrite i e = ground arith

insert_endpoint-IsHistoryWrite : (i : ℕ) (e : EndpointState) → IsHistoryWrite (insert_endpoint i e)
insert_endpoint-IsHistoryWrite i e = ground arith

set_operator-IsHistoryWrite : (i : ℕ) (o : OperatorState) → IsHistoryWrite (set_operator i o)
set_operator-IsHistoryWrite i o = ground arith

insert_operator-IsHistoryWrite : (i : ℕ) (o : OperatorState) → IsHistoryWrite (insert_operator i o)
insert_operator-IsHistoryWrite i o = ground arith

ruleset write_rules = (
  keeps_rules, equivocation_when-Keeps, exhausted_when-Keeps, write_when-Keeps,
  set_endpoint-IsHistoryWrite, insert_endpoint-IsHistoryWrite, set_operator-IsHistoryWrite,
  insert_operator-IsHistoryWrite,
)

replace_steps-Keeps :
    (older equivocation newer : Bool) (write : HrmPoolStatsState → HrmPoolStatsState)
    → IsHistoryWrite write
    → Keeps (replace_steps older equivocation newer write)
unfolding replace_steps
replace_steps-Keeps older equivocation newer write w = search write_rules depth 8

insert_steps-Keeps :
    (full : Bool) (write : HrmPoolStatsState → HrmPoolStatsState)
    → IsHistoryWrite write
    → Keeps (insert_steps full write)
unfolding insert_steps
insert_steps-Keeps full write w = search write_rules depth 8

write_endpoint-Keeps : (e : EndpointState) (p : Search EndpointState) → Keeps (write_endpoint e p)
unfolding write_endpoint
write_endpoint-Keeps e (found i x) = search (replace_steps-Keeps, set_endpoint-IsHistoryWrite)
write_endpoint-Keeps e (absent i) = record {
  at = λ s. (insert_steps-Keeps _ _ (insert_endpoint-IsHistoryWrite i e)).at s;
}

write_operator-Keeps : (o : OperatorState) (p : Search OperatorState) → Keeps (write_operator o p)
unfolding write_operator
write_operator-Keeps o (found i x) = search (replace_steps-Keeps, set_operator-IsHistoryWrite)
write_operator-Keeps o (absent i) = record {
  at = λ s. (insert_steps-Keeps _ _ (insert_operator-IsHistoryWrite i o)).at s;
}

pub advance_endpoint-Keeps :
    (key : List ℕ) (seq : ℕ) (delegation : List ℕ) → Keeps (advance_endpoint key seq delegation)
unfolding advance_endpoint
advance_endpoint-Keeps key seq delegation = record { at = λ s. (write_endpoint-Keeps _ _).at s }

pub advance_snapshot-Keeps :
    (operator : List ℕ) (seq : ℕ) (d : List ℕ) → Keeps (advance_snapshot operator seq d)
unfolding advance_snapshot
advance_snapshot-Keeps operator seq d = record { at = λ s. (write_operator-Keeps _ _).at s }

check_equal_revision-Keeps :
    (a : CurrentHrmNamedService) (r : HrmPoolStatsRequest) (previous : ℕ)
    → Keeps (check_equal_revision a r previous)
unfolding check_equal_revision
check_equal_revision-Keeps a r previous = record {
  at = λ s. elim (Bool-cases (a.authority_revision == s.authority_revision)) [
    | inl e ↦ rw e ((refuse (observation_differs a s)).at s)
    | inr e ↦ rw e ((Keeps-pure tt).at s)
  ];
}
  where
    refuse :
        (b : Bool)
        → Keeps (do conflict_when b; reject (ltb previous r.trusted_now) authority_not_current)
    refuse b = search (keeps_rules, conflict_when-Keeps)

observe_rest-Keeps :
    (a : CurrentHrmNamedService) (r : HrmPoolStatsRequest) (previous : ℕ)
    → Keeps (observe_rest a r previous)
unfolding observe_rest
observe_rest-Keeps a r previous =
    search
      (
        keeps_rules, check_equal_revision-Keeps, conflict_when-Keeps, adopt_authority-Keeps,
        require_active-Keeps,
      )
      depth 9

observe_first-Follows :
    (a : CurrentHrmNamedService) (r : HrmPoolStatsRequest) (s : HrmPoolStatsState)
    → s.generation ≡ 0
    → Follows s (observe_first a r s).1
unfolding observe_first bump_generation ◌>>=◌
observe_first-Follows a r s e = ground arith

observe_next-Follows :
    (a : CurrentHrmNamedService) (r : HrmPoolStatsRequest) (s : HrmPoolStatsState)
    → Follows s (observe_next a r s).1
unfolding observe_next ◌>>=◌
observe_next-Follows a r s =
    let timed = advance_time r s.trusted_time_high_water s in
    ground (
      arith,
      Follows-refl s,
      Follows-trans s timed.1 _ (advance_time-Keeps r s) (
          Follows-continue timed.0 _ (λ _. observe_rest-Keeps a r s.trusted_time_high_water)
            timed.1),
    )

pub observe_authority-Keeps :
    (a : CurrentHrmNamedService) (r : HrmPoolStatsRequest) → Keeps (observe_authority a r)
unfolding observe_authority
observe_authority-Keeps a r = record {
  at = λ s. elim (Bool-cases (s.generation == 0)) [
    | inl e ↦ rw e (observe_first-Follows a r s ((==_iff _ _).0 e))
    | inr e ↦ rw e (observe_next-Follows a r s)
  ];
}
