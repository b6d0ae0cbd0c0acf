-- ===== src/Wallet/Lifecycle/Generations.antt =====
-- The generations of read sessions.
use hns_dane_browser_extensi.Prelude.{
  ℕ, ◌+◌, ◌≡◌, ◌<◌, ◌≢◌, ◌⊎◌, refl, sym, ap, subst, ◌∙◌, List, [], ◌∷◌, Bool, true, false, Option,
  none, some, Bool-cases, inl, inr, ◌==◌, checked_add, arith, if◌then◌else◌,
}
use hns_dane_browser_extensi.Prelude.Result.{Result, ok, err}
use hns_dane_browser_extensi.Wallet.Controller.{WalletServiceController}
use hns_dane_browser_extensi.Wallet.Lifecycle.{
  AdmittedWalletReadSession, WalletReadSessionLifecycle, LifecycleError, stale,
  generation_exhausted, Startup, no_lease, startup_failed, negotiated, new_session, start, start_at,
  started, admitted, is_generation, invalidate, Operated, returned, unwound, Outcome, result,
  kept_healthy, operated, execute_on, execute_active,
}

-- The active session is of a generation that was handed out before, and works.
pub data IsCurrent : Option AdmittedWalletReadSession → ℕ → Type 0 where
  empty : (next : ℕ) → IsCurrent none next
  serving :
      (session : AdmittedWalletReadSession) (next : ℕ)
      → session.restart_generation < next
      → IsCurrent (some session) next

abbrev pub IsLifecycle : WalletReadSessionLifecycle → Type 0
IsLifecycle l = IsCurrent l.active l.next_restart_generation

checked_add-some : (n m : ℕ) → checked_add n 1 ≡ some m → m ≡ n + 1
checked_add-some n m h = ground arith

==_refl : (n : ℕ) → (n == n) ≡ true
==_refl n = ground arith

-- What a start leaves, and that its generation is the next one.
pub record Starts (l : WalletReadSessionLifecycle)
    (r : Result LifecycleError ℕ × WalletReadSessionLifecycle) : Type 0 where
  pub current : IsLifecycle r.1
  -- the next generation is taken, and what it replaces is gone, or none is left and nothing changes
  pub consumed :
      (r.1.next_restart_generation ≡ l.next_restart_generation + 1)
      ⊎ ((checked_add l.next_restart_generation 1 ≡ none) × (r ≡ (err generation_exhausted, l)))
  pub failed :
      (e : LifecycleError) → r.0 ≡ err e → (r.1.active ≡ none) ⊎ (r ≡ (err generation_exhausted, l))
  pub fresh :
      (g : ℕ)
      → r.0 ≡ ok g
      → (g ≡ l.next_restart_generation)
        × (is_generation r.1.active g ≡ true)
        × (r.1.next_restart_generation ≡ l.next_restart_generation + 1)

module _ (l : WalletReadSessionLifecycle) where
  abbrev emptied : ℕ → WalletReadSessionLifecycle
  emptied next = record { next_restart_generation = next; active = none }

  failed-Starts :
      (e : LifecycleError) (next : ℕ)
      → next ≡ l.next_restart_generation + 1
      → Starts l (err e, emptied next)
  failed-Starts e next q = record {
    current = empty next;
    consumed = inl q;
    failed = λ x h. inl refl;
    fresh = λ g h. cc;
  }

  ok_eq : (r : Result LifecycleError ℕ) (a b : ℕ) → r ≡ ok a → r ≡ ok b → b ≡ a
  ok_eq r a b h k = cc

  admitted-Starts :
      (c : WalletServiceController) (attested : Bool) (next : ℕ)
      → next ≡ l.next_restart_generation + 1
      → Starts l (
          admitted l.next_restart_generation
            (new_session c l.next_restart_generation attested)
            (emptied next))
  unfolding new_session
  admitted-Starts c attested next q = chosen _
    where
      chosen :
          (b : Bool)
          → Starts l (
              admitted l.next_restart_generation
                (if b
                  then none
                  else some
                      (record { controller = c; restart_generation = l.next_restart_generation }))
                (emptied next))
      chosen true = failed-Starts _ next q
      chosen false = record {
        current = serving _ next (omega arith);
        consumed = inl q;
        failed = λ x h. cc;
        fresh = λ g h. (
          ok_eq _ l.next_restart_generation g refl h,
          rw (ok_eq _ l.next_restart_generation g refl h) (==_refl l.next_restart_generation),
          q,
        );
      }

  started-Starts :
      (next : ℕ) (s : Startup)
      → next ≡ l.next_restart_generation + 1
      → Starts l (started l.next_restart_generation (emptied next) s)
  started-Starts next no_lease q = failed-Starts _ next q
  started-Starts next (startup_failed e) q = failed-Starts _ next q
  started-Starts next (negotiated c attested) q = admitted-Starts c attested next q

-- From a slot whose session, if any, is of an earlier generation, a start leaves such a slot. Unless
-- the generations are exhausted, where it changes nothing, it takes the next generation whether it
-- succeeds or fails, so no generation is used twice, and a start that fails leaves the slot empty.
-- When it succeeds, it returns the generation that was next, and the session in the slot has it.
pub start-Starts :
    (compose : ℕ → Startup) (l : WalletReadSessionLifecycle)
    → IsLifecycle l
    → Starts l (start compose l)
unfolding start
start-Starts compose l h = at _ refl
  where
    at :
        (o : Option ℕ)
        → checked_add l.next_restart_generation 1 ≡ o
        → Starts l (start_at o compose l)
    at none e = record {
      current = h;
      consumed = inr (e, refl);
      failed = λ x k. inr refl;
      fresh = λ g k. cc;
    }
    at (some next) e =
        started-Starts l next (compose l.next_restart_generation)
          (checked_add-some l.next_restart_generation next e)

-- The rest of the slot's operations.
kept_healthy-IsCurrent :
    (s : AdmittedWalletReadSession) (next : ℕ)
    → s.restart_generation < next
    → IsCurrent (kept_healthy s) next
kept_healthy-IsCurrent s next lt = chosen s.controller.poisoned
  where
    chosen : (b : Bool) → IsCurrent (if b then none else some s) next
    chosen true = empty next
    chosen false = serving s next lt

-- No session in the slot is poisoned.
abbrev pub IsHealthy : Option AdmittedWalletReadSession → Type 0
IsHealthy none = Unit
IsHealthy (some s) = s.controller.poisoned ≡ false

kept_healthy-IsHealthy : (s : AdmittedWalletReadSession) → IsHealthy (kept_healthy s)
kept_healthy-IsHealthy s = chosen s.controller.poisoned refl
  where
    chosen : (b : Bool) → s.controller.poisoned ≡ b → IsHealthy (if b then none else some s)
    chosen true e = tt
    chosen false e = e

module _ {A : Type 0} (generation : ℕ) (operation : AdmittedWalletReadSession → Operated A) where
  abbrev Guarded :
      Option AdmittedWalletReadSession → ℕ → Outcome A × WalletReadSessionLifecycle → Type 0
  Guarded o next r =
      IsCurrent r.1.active r.1.next_restart_generation
      × IsHealthy r.1.active
      × (r.1.next_restart_generation ≡ next)

  operated-Guarded :
      (s : AdmittedWalletReadSession) (l : WalletReadSessionLifecycle) (d : Operated A)
      → s.restart_generation < l.next_restart_generation
      → Guarded l.active l.next_restart_generation (operated s l d)
  operated-Guarded s l (returned r c) lt = (
    kept_healthy-IsCurrent (record s { controller = c }) _ lt,
    kept_healthy-IsHealthy (record s { controller = c }),
    refl,
  )
  operated-Guarded s l unwound lt = (empty _, tt, refl)

  executed :
      (o : Option AdmittedWalletReadSession) (l : WalletReadSessionLifecycle)
      → l.active ≡ o
      → IsCurrent o l.next_restart_generation
      → Guarded o l.next_restart_generation (execute_on generation o operation l)
  executed none l e (empty next) = (rw e (empty _), rw e tt, refl)
  executed (some s) l e (serving _ next lt) =
      elim (Bool-cases (s.restart_generation == generation)) [
        | inl y ↦ rw y (operated-Guarded s l (operation s) lt)
        | inr n ↦ rw n (kept_healthy-IsCurrent s _ lt, kept_healthy-IsHealthy s, refl)
      ]

  -- Whatever an operation on the slot does, errors, poisons its controller or unwinds, the slot is
  -- left with no poisoned session, its session is still of an earlier generation than the next one,
  -- and that one does not change.
  pub execute_active-IsHealthy :
      (l : WalletReadSessionLifecycle)
      → IsLifecycle l
      → let r = execute_active generation operation l in
        IsLifecycle r.1
        × IsHealthy r.1.active
        × (r.1.next_restart_generation ≡ l.next_restart_generation)
  unfolding execute_active
  execute_active-IsHealthy l h = executed l.active l refl h

module _ (session : AdmittedWalletReadSession) where
  abbrev pub IsOther : ℕ → Type 0
  IsOther generation = session.restart_generation ≢ generation

  not_equal :
      (generation : ℕ) → IsOther generation → (session.restart_generation == generation) ≡ false
  not_equal generation n = ground arith

  kept_session : session.controller.poisoned ≡ false → kept_healthy session ≡ some session
  kept_session healthy = ap (λ b. if b then none else some session) healthy

  invalidated_other :
      (generation : ℕ) (l : WalletReadSessionLifecycle)
      → l.active ≡ some session
      → IsOther generation
      → invalidate generation l ≡ (false, l)
  unfolding invalidate
  invalidated_other generation l there n =
      ap (λ b. if b then (true, record l { active = none }) else (false, l))
        (ap (λ o. is_generation o generation) there ∙ not_equal generation n)

-- A call of a client that holds some generation: it invalidates it, or runs an operation on it.
pub data Call (A : Type 0) : Type 0 where
  invalidates : ℕ → Call A
  executes : ℕ → (AdmittedWalletReadSession → Operated A) → Call A

module _ {A : Type 0} where
  abbrev pub generation_of : Call A → ℕ
  generation_of (invalidates generation) = generation
  generation_of (executes generation operation) = generation

  abbrev pub slot_after : Call A → WalletReadSessionLifecycle → WalletReadSessionLifecycle
  slot_after (invalidates generation) l = (invalidate generation l).1
  slot_after (executes generation operation) l = (execute_active generation operation l).1

  -- The client learns that it touched nothing.
  abbrev pub IsRefused : Call A → WalletReadSessionLifecycle → Type 0
  IsRefused (invalidates generation) l = (invalidate generation l).0 ≡ false
  IsRefused (executes generation operation) l =
      (execute_active generation operation l).0 ≡ result (err stale)

  abbrev pub slot_after_all :
      List (Call A) → WalletReadSessionLifecycle → WalletReadSessionLifecycle
  slot_after_all [] l = l
  slot_after_all (c ∷ cs) l = slot_after_all cs (slot_after c l)

  -- Every call's generation satisfies `P`.
  abbrev pub AreFor : (ℕ → Type 0) → List (Call A) → Type 0
  AreFor P [] = Unit
  AreFor P (c ∷ cs) = P (generation_of c) × AreFor P cs

  abbrev pub AllRefused : List (Call A) → WalletReadSessionLifecycle → Type 0
  AllRefused [] l = Unit
  AllRefused (c ∷ cs) l = IsRefused c l × AllRefused cs (slot_after c l)

  module _ (l : WalletReadSessionLifecycle) (session : AdmittedWalletReadSession)
      (there : l.active ≡ some session) (healthy : session.controller.poisoned ≡ false) where
    executed_other :
        (generation : ℕ) (operation : AdmittedWalletReadSession → Operated A)
        → IsOther session generation
        → execute_on generation l.active operation l ≡ (result (err stale), l)
    executed_other generation operation n =
        ap (λ o. execute_on generation o operation l) there
        ∙ ap
            (λ b.
              if b
              then operated session l (operation session)
              else (result (err stale), record l { active = kept_healthy session }))
            (not_equal session generation n)
        ∙ ap (λ o. (result (err stale), record l { active = o }))
            (kept_session session healthy ∙ sym there)

    other_call :
        (c : Call A) → IsOther session (generation_of c) → (slot_after c l ≡ l) × IsRefused c l
    unfolding execute_active
    other_call (invalidates generation) n =
        let e = invalidated_other session generation l there n in (ap (λ r. r.1) e, ap (λ r. r.0) e)
    other_call (executes generation operation) n =
        let e = executed_other generation operation n in (ap (λ r. r.1) e, ap (λ r. r.0) e)

    -- A healthy session outlives every sequence of calls for other generations, older or newer: the
    -- slot is the same after them, each invalidation says that it found nothing, and each operation
    -- is refused as stale.
    pub stale-AllRefused :
        (cs : List (Call A))
        → AreFor (IsOther session) cs
        → (slot_after_all cs l ≡ l) × AllRefused cs l
    stale-AllRefused [] h = (refl, tt)
    stale-AllRefused (c ∷ cs) (n, h) =
        let (e, r) = other_call c n in
        let (f, q) = stale-AllRefused cs h in
        (ap (slot_after_all cs) e ∙ f, (r, subst (AllRefused cs) (sym e) q))
