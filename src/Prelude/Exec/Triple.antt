-- ===== src/Prelude/Exec/Triple.antt =====
-- Conditions before and after a run that may fail: one for a result, one for an error.
use mathlib.Core.Path.{◌≡◌, refl}
use mathlib.Core.Bool.{Bool, true, false}
use hns_dane_browser_extensi.Prelude.Result.{Result, ok, err}
use hns_dane_browser_extensi.Prelude.Exec.{Exec, lift, reject, ◌>>=◌, continue}

module _ {S E A : Type 0} where
  abbrev pub After : (A → S → Type 0) → (S → Type 0) → Result E A → S → Type 0
  After Q X (ok a) s = Q a s
  After Q X (err e) s = X s

  -- From a state of `P`, a result comes with a state of `Q` and an error with one of `X`.
  abbrev pub Triple : (S → Type 0) → Exec S E A → (A → S → Type 0) → (S → Type 0) → Type 0
  Triple P m Q X = (s : S) → P s → After Q X (m s).0 (m s).1

module _ {S E A B : Type 0} (X : S → Type 0) where
  continue-After :
      (Q : A → S → Type 0) (R : B → S → Type 0) (r : Result E A) (k : A → Exec S E B) (s : S)
      → After Q X r s
      → ((a : A) → Triple (Q a) (k a) R X)
      → After R X (continue r k s).0 (continue r k s).1
  continue-After Q R (ok a) k s h t = t a s h
  continue-After Q R (err e) k s h t = h

  pub bind-Triple :
      (P : S → Type 0) (Q : A → S → Type 0) (R : B → S → Type 0) (m : Exec S E A)
      (k : A → Exec S E B)
      → Triple P m Q X
      → ((a : A) → Triple (Q a) (k a) R X)
      → Triple P (m >>= k) R X
  unfolding ◌>>=◌
  bind-Triple P Q R m k h t s p = continue-After Q R (m s).0 k (m s).1 (h s p) t

module _ {S E B : Type 0} {P : S → Type 0} {X : S → Type 0} where
  -- A value that does not come from the state.
  pub lift-Triple :
      {A : Type 0} (R : B → S → Type 0) (r : Result E A) (k : A → Exec S E B)
      → ((s : S) → P s → X s)
      → ((a : A) → r ≡ ok a → Triple P (k a) R X)
      → Triple P (lift r >>= k) R X
  unfolding ◌>>=◌
  lift-Triple R (ok a) k x t s p = t a refl s p
  lift-Triple R (err e) k x t s p = x s p

  pub reject-Triple :
      (R : B → S → Type 0) (bad : Bool) (e : E) (k : Unit {0} → Exec S E B)
      → ((s : S) → P s → X s)
      → (bad ≡ false → Triple P (k tt) R X)
      → Triple P (reject bad e >>= k) R X
  unfolding ◌>>=◌
  reject-Triple R true e k x t s p = x s p
  reject-Triple R false e k x t s p = t refl s p

module _ {S E A : Type 0} (Q Q' : A → S → Type 0) (X X' : S → Type 0)
    (q : (a : A) (s : S) → Q a s → Q' a s) (x : (s : S) → X s → X' s) where
  pub After-weaken : (r : Result E A) (s : S) → After Q X r s → After Q' X' r s
  After-weaken (ok a) s h = q a s h
  After-weaken (err e) s h = x s h
