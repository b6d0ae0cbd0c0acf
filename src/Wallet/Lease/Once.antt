-- ===== src/Wallet/Lease/Once.antt =====
-- A lease is used once, under a guard that stood at both ends.
use hns_dane_browser_extensi.Prelude.{
  ℕ, ◌+◌, ◌≡◌, ◌≤◌, refl, sym, ap, ◌∙◌, Bool, true, false, Option, some, min, ◌==◌, arith,
}
use hns_dane_browser_extensi.Prelude.Result.{Result, ok, err}
use hns_dane_browser_extensi.Wallet.Lease.{
  GuardRun, answer, calls, Captured, guard_denied, run_guard, concluded, settled, use_if_current,
}

-- The guards that call the operation once and then answer yes.
pub data CallsOnce {W : Type 0} (after : W → W) (w' : W) : GuardRun W → W → Type 0 where
  once :
      (w : W) (next : W → GuardRun W)
      → next (after w) ≡ answer true w'
      → CallsOnce after w' (calls w next) w

module _ {W E T : Type 0} (act : W → Result E T × W) where
  -- After the operation was taken, only the count changes, and it stays above one.
  abbrev again : Option (Result E T) → ℕ → Captured E T
  again o n = record { taken = true; operation_result = o; callback_count = n }

  more_than_once :
      (o : Option (Result E T)) (n : ℕ) (g : GuardRun W)
      → 2 ≤ n
      → 2 ≤ (run_guard act (again o n) g).0.callback_count
  unfolding run_guard
  more_than_once o n (answer b w) h = h
  more_than_once o n (calls w next) h = more_than_once o (min 255 (n + 1)) (next w) (omega arith)

  concluded_denied :
      (r : Captured E T × Bool × W)
      → 2 ≤ r.0.callback_count
      → (concluded act r).0 ≡ err guard_denied
  concluded_denied (v, b, w) h = let n : (v.callback_count == 1) ≡ false = ground arith in rw n

  settled_ok : (r : Result E T) (value : T) → settled act (some r) ≡ ok value → r ≡ ok value
  settled_ok (ok t) value h = cc
  settled_ok (err e) value h = cc

  answered :
      (r : Result E T) (b : Bool) (u : W) (value : T) (w' : W)
      → concluded act (again (some r) 1, b, u) ≡ (ok value, w')
      → (b ≡ true) × (u ≡ w') × (r ≡ ok value)
  answered r true u value w' h = (refl, ap (λ p. p.1) h, settled_ok r value (ap (λ p. p.0) h))
  answered r false u value w' h = let e : err guard_denied ≡ ok value = ap (λ p. p.0) h in cc

  use_next :
      (w : W) (next : W → GuardRun W) (g : GuardRun W) (value : T) (w' : W)
      → next (act w).1 ≡ g
      → concluded act (run_guard act (again (some (act w).0) 1) g) ≡ (ok value, w')
      → CallsOnce (λ u. (act u).1) w' (calls w next) w × ((act w).0 ≡ ok value)
  unfolding run_guard
  use_next w next (answer b u) value w' e h =
      let (y, s, r) = answered (act w).0 b u value w' h in
      (once w next (e ∙ (ap (λ b. answer b u) y ∙ ap (answer true) s)), r)
  use_next w next (calls u more) value w' e h =
      let d =
        concluded_denied (run_guard act (again (some (act w).0) 2) (more u))
          (more_than_once (some (act w).0) 2 (more u) (omega arith)) in
      let k : err guard_denied ≡ ok value = sym d ∙ ap (λ p. p.0) h in cc

  -- Where a lease is used with a result, its guard called the operation exactly once, from some
  -- state, and then answered that the claim still held; the operation gave that result, and the
  -- state is the one in which the guard answered. No other guard gets a result out.
  pub use_if_current-CallsOnce :
      (g : GuardRun W) (value : T) (w' : W)
      → use_if_current act g ≡ (ok value, w')
      → (w : W) × CallsOnce (λ u. (act u).1) w' g w × ((act w).0 ≡ ok value)
  unfolding use_if_current run_guard
  use_if_current-CallsOnce (answer b w) value w' h =
      let k : err guard_denied ≡ ok value = ap (λ p. p.0) h in cc
  use_if_current-CallsOnce (calls w next) value w' h =
      let (c, r) = use_next w next (next (act w).1) value w' refl h in (w, c, r)
