-- ===== src/Prelude/Exec.antt =====
-- Methods on `&mut self` that may fail: what was written before an error stays written, so the
-- state comes back beside the error too.
pub mod Triple
use mathlib.Core.Path.{◌≡◌, refl}
use mathlib.Core.Bool.{Bool, true, false}
use hns_dane_browser_extensi.Prelude.Result.{Result, ok, err}

abbrev pub Exec {ℓ} : Type ℓ → Type ℓ → Type ℓ → Type ℓ
Exec S E A = S → Result E A × S

module _ {S E A : Type 0} where
  unfoldable pub pure : A → Exec S E A
  pure a s = (ok a, s)

  unfoldable pub raise : E → Exec S E A
  raise e s = (err e, s)

  unfoldable pub lift : Result E A → Exec S E A
  lift r s = (r, s)

  unfoldable pub gets : (S → A) → Exec S E A
  gets f s = (ok (f s), s)

module _ {S E : Type 0} where
  unfoldable pub modify : (S → S) → Exec S E (Unit {0})
  modify f s = (ok tt, f s)

  -- `if bad { return Err(e) }`
  unfoldable pub reject : Bool → E → Exec S E (Unit {0})
  reject true e s = (err e, s)
  reject false e s = (ok tt, s)

module _ {S E A B : Type 0} where
  abbrev pub continue : Result E A → (A → Exec S E B) → Exec S E B
  continue (ok a) f s = f a s
  continue (err e) f s = (err e, s)

  infixl 5 ◌>>=◌ ◌>>◌
  -- opening this opens the actions above too
  unfoldable pub ◌>>=◌ : Exec S E A → (A → Exec S E B) → Exec S E B
  unfolding pure raise lift gets modify reject
  ◌>>=◌ m f s = continue (m s).0 f (m s).1

  abbrev pub ◌>>◌ : Exec S E A → Exec S E B → Exec S E B
  m >> k = m >>= λ _. k

-- The run of `m >>= f` that succeeds, in its two parts.
pub record Parts {S E A B : Type 0} (m : Exec S E A) (f : A → Exec S E B) (s : S) (b : B) (t : S)
    : Type 0 where
  pub value : A
  pub between : S
  pub first : m s ≡ (ok value, between)
  pub second : f value between ≡ (ok b, t)

module _ {S E A B : Type 0} where
  continue-eq-ok :
      (r : Result E A) (f : A → Exec S E B) (m : Exec S E A) (s u : S) {b : B} {t : S}
      → m s ≡ (r, u)
      → continue r f u ≡ (ok b, t)
      → Parts m f s b t
  continue-eq-ok (ok a) f m s u e h = record { value = a; between = u; first = e; second = h }
  continue-eq-ok (err x) f m s u e h = cc

  pub >>=-eq-ok :
      (m : Exec S E A) (f : A → Exec S E B) (s : S) {b : B} {t : S}
      → (m >>= f) s ≡ (ok b, t)
      → Parts m f s b t
  unfolding ◌>>=◌
  >>=-eq-ok m f s h = continue-eq-ok (m s).0 f m s (m s).1 refl h

module _ {S E B : Type 0} {b : B} {t : S} where
  pub gets-bind_ok :
      {A : Type 0} (f : S → A) (k : A → Exec S E B) (s : S)
      → (gets f >>= k) s ≡ (ok b, t)
      → k (f s) s ≡ (ok b, t)
  unfolding ◌>>=◌
  gets-bind_ok f k s h = h

  pub reject-bind_ok :
      (bad : Bool) (e : E) (k : Unit {0} → Exec S E B) (s : S)
      → (reject bad e >>= k) s ≡ (ok b, t)
      → (bad ≡ false) × (k tt s ≡ (ok b, t))
  unfolding ◌>>=◌
  reject-bind_ok true e k s h = cc
  reject-bind_ok false e k s h = (refl, h)

-- `lift r >>= k` that succeeds: `r` has a value, and the rest ran on it.
pub data Lifted {S E A B : Type 0} (r : Result E A) (k : A → Exec S E B) (s : S) (b : B) (t : S)
    : Type 0 where
  lifted : (a : A) → r ≡ ok a → k a s ≡ (ok b, t) → Lifted r k s b t

-- `m >>= k` that succeeds: `m` ends in a value and a state, and the rest ran from there.
pub data Ran {S E A B : Type 0} (m : Exec S E A) (k : A → Exec S E B) (s : S) (b : B) (t : S)
    : Type 0 where
  ran : (a : A) (u : S) → m s ≡ (ok a, u) → k a u ≡ (ok b, t) → Ran m k s b t

module _ {S E A B : Type 0} where
  pub lift-bind_ok :
      (r : Result E A) (k : A → Exec S E B) (s : S) {b : B} {t : S}
      → (lift r >>= k) s ≡ (ok b, t)
      → Lifted r k s b t
  unfolding ◌>>=◌
  lift-bind_ok (ok a) k s h = lifted a refl h
  lift-bind_ok (err e) k s h = cc

  pub bind-Ran :
      (m : Exec S E A) (k : A → Exec S E B) (s : S) {b : B} {t : S}
      → (m >>= k) s ≡ (ok b, t)
      → Ran m k s b t
  bind-Ran m k s h = let p = >>=-eq-ok m k s h in ran p.value p.between p.first p.second

-- The run of `m >>= k` from the run of `m`.
module _ {S E A B : Type 0} where
  pub bind-run_ok :
      (m : Exec S E A) (k : A → Exec S E B) (s : S) {a : A} {t : S}
      → m s ≡ (ok a, t)
      → (m >>= k) s ≡ k a t
  unfolding ◌>>=◌
  bind-run_ok m k s h = rw h

  pub bind-run_err :
      (m : Exec S E A) (k : A → Exec S E B) (s : S) {e : E} {t : S}
      → m s ≡ (err e, t)
      → (m >>= k) s ≡ (err e, t)
  unfolding ◌>>=◌
  bind-run_err m k s h = rw h
