-- ===== src/Prelude/Result.antt =====
-- Rust's `Result`, with `?` as a bind.
use mathlib.Core.Path.{◌≡◌, refl}
use mathlib.Core.Bool.{Bool, true, false}
use mathlib.Core.Option.{Option, none, some}

pub data Result {ℓ} (Failure Success : Type ℓ) : Type ℓ where
  ok : Success → Result Failure Success
  err : Failure → Result Failure Success

-- `option.ok_or(error)`
abbrev pub ok_or {ℓ} : {E A : Type ℓ} → Option A → E → Result E A
ok_or (some found) error = ok found
ok_or none error = err error

-- `if bad { return Err(error) }`
abbrev pub reject : {E : Type 0} → Bool → E → Result E (Unit {0})
reject false error = ok tt
reject true error = err error

module _ {ℓ} {E A B : Type ℓ} where
  infixl 5 ◌>>=◌ ◌>>◌
  abbrev pub ◌>>=◌ : Result E A → (A → Result E B) → Result E B
  err error >>= next = err error
  ok found >>= next = next found

  abbrev pub ◌>>◌ : Result E A → Result E B → Result E B
  first >> second = first >>= λ found. second

pub >>=-eq-ok {ℓ} :
    {E A B : Type ℓ} (first : Result E A) (next : A → Result E B) {last : B}
    → (first >>= next) ≡ ok last
    → (found : A) × (first ≡ ok found) × (next found ≡ ok last)
>>=-eq-ok (err error) next run = cc
>>=-eq-ok (ok found) next run = (found, refl, run)

pub reject-eq-ok : {E : Type 0} (b : Bool) (e : E) → reject b e ≡ ok tt → b ≡ false
reject-eq-ok true e h = cc
reject-eq-ok false e h = refl
