-- ===== src/NativeHost/Observations/Histories.antt =====
-- Histories of observations: bounded, in the order of their events, all of one maintenance epoch.
use hns_dane_browser_extensi.Prelude.{
  ℕ, suc, ◌≤◌, ◌≡◌, refl, ap, inl, inr, Bool, true, false, Bool-cases, Option, none, some, List, [],
  ◌∷◌, length, any, ltb, ◌==◌, arith,
}
use hns_dane_browser_extensi.NativeHost.Observations.{
  max_recent_security_results, same_epoch, retain, insert_by_event, pop_excess, retain_recent,
}

abbrev pub All : {A : Type 0} → (A → Type 0) → List A → Type 0
All P [] = Unit
All P (x ∷ xs) = P x × All P xs

pub same_epoch-eq : (g h : Option ℕ) → same_epoch g h ≡ true → g ≡ h
same_epoch-eq none none e = refl
same_epoch-eq none (some b) e = cc
same_epoch-eq (some a) none e = cc
same_epoch-eq (some a) (some b) e = ap some (ground (arith, e))

-- A history: `event` numbers its entries, `epoch` is where an entry was made.
module _ {A : Type 0} (event epoch : A → ℕ) where
  -- The events from `n` on, strictly ascending.
  abbrev pub IsFrom : ℕ → List A → Type 0
  IsFrom n [] = Unit
  IsFrom n (x ∷ xs) = (n ≤ event x) × IsFrom (suc (event x)) xs

  abbrev pub AtEpoch : Option ℕ → List A → Type 0
  AtEpoch h xs = All (λ x. some (epoch x) ≡ h) xs

  pub record Kept (h : Option ℕ) (xs : List A) : Type 0 where
    pub ordered : IsFrom 0 xs
    pub bounded : length xs ≤ max_recent_security_results
    pub at_epoch : AtEpoch h xs

  pub Kept-nil : (h : Option ℕ) → Kept h []
  Kept-nil h = record { ordered = tt; bounded = omega arith; at_epoch = tt }

  IsFrom-weaken : (n m : ℕ) (xs : List A) → m ≤ n → IsFrom n xs → IsFrom m xs
  IsFrom-weaken n m [] le h = tt
  IsFrom-weaken n m (x ∷ xs) le (p, h) = (omega (arith, le, p), h)

  insert-IsFrom :
      (n : ℕ) (v : A) (xs : List A)
      → n ≤ event v
      → any (λ x. event x == event v) xs ≡ false
      → IsFrom n xs
      → IsFrom n (insert_by_event event v xs)
  unfolding insert_by_event
  insert-IsFrom n v [] le new h = (le, tt)
  insert-IsFrom n v (x ∷ xs) le new (p, h) = elim (Bool-cases (ltb (event v) (event x))) [
    | inl lt ↦ rw lt (le, (ground (arith, lt), h))
    | inr ge ↦
        rw ge
          (p, insert-IsFrom (suc (event x)) v xs (ground (arith, ge, new)) (ground (arith, new)) h)
  ]

  length-insert : (v : A) (xs : List A) → length (insert_by_event event v xs) ≡ suc (length xs)
  unfolding insert_by_event
  length-insert v [] = refl
  length-insert v (x ∷ xs) = ground (arith, length-insert v xs)

  insert-AtEpoch :
      (h : Option ℕ) (v : A) (xs : List A)
      → some (epoch v) ≡ h
      → AtEpoch h xs
      → AtEpoch h (insert_by_event event v xs)
  unfolding insert_by_event
  insert-AtEpoch h v [] e k = (e, tt)
  insert-AtEpoch h v (x ∷ xs) e (p, k) = elim (Bool-cases (ltb (event v) (event x))) [
    | inl lt ↦ rw lt (e, (p, k))
    | inr ge ↦ rw ge (p, insert-AtEpoch h v xs e k)
  ]

  pop_excess-Kept :
      (h : Option ℕ) (n : ℕ) (xs : List A) → IsFrom n xs → AtEpoch h xs → Kept h (pop_excess xs)
  unfolding pop_excess
  pop_excess-Kept h n [] o e = Kept-nil h
  pop_excess-Kept h n (x ∷ xs) (p, o) (q, e) =
      elim (Bool-cases (ltb max_recent_security_results (length (x ∷ xs)))) [
        | inl over ↦ rw over (pop_excess-Kept h (suc (event x)) xs o e)
        | inr fits ↦ rw fits (record {
          ordered = (omega arith, o);
          bounded = ground (arith, fits);
          at_epoch = (q, e);
        })
      ]

  pub retain_recent-Kept :
      (h : Option ℕ) (v : A) (xs : List A)
      → some (epoch v) ≡ h
      → Kept h xs
      → Kept h (retain_recent event v xs)
  unfolding retain_recent
  retain_recent-Kept h v xs e k = elim (Bool-cases (any (λ x. event x == event v) xs)) [
    | inl there ↦ rw there k
    | inr new ↦ rw new (
        pop_excess-Kept h 0 (insert_by_event event v xs)
          (insert-IsFrom 0 v xs (omega arith) new k.ordered) (insert-AtEpoch h v xs e k.at_epoch))
  ]

  retain-IsFrom : (p : A → Bool) (n : ℕ) (xs : List A) → IsFrom n xs → IsFrom n (retain p xs)
  retain-IsFrom p n [] h = tt
  retain-IsFrom p n (x ∷ xs) (q, h) = elim (Bool-cases (p x)) [
    | inl in_epoch ↦ rw in_epoch (q, retain-IsFrom p (suc (event x)) xs h)
    | inr other ↦
        rw other (retain-IsFrom p n xs (IsFrom-weaken (suc (event x)) n xs (omega (arith, q)) h))
  ]

  length-retain : (p : A → Bool) (xs : List A) → length (retain p xs) ≤ length xs
  length-retain p [] = omega arith
  length-retain p (x ∷ xs) = ground (arith, length-retain p xs)

  retain-AtEpoch :
      (h : Option ℕ) (xs : List A) → AtEpoch h (retain (λ x. same_epoch (some (epoch x)) h) xs)
  retain-AtEpoch h [] = tt
  retain-AtEpoch h (x ∷ xs) = elim (Bool-cases (same_epoch (some (epoch x)) h)) [
    | inl in_epoch ↦ rw in_epoch (same_epoch-eq (some (epoch x)) h in_epoch, retain-AtEpoch h xs)
    | inr other ↦ rw other (retain-AtEpoch h xs)
  ]

  pub retain-Kept :
      (g h : Option ℕ) (xs : List A)
      → Kept g xs
      → Kept h (retain (λ x. same_epoch (some (epoch x)) h) xs)
  retain-Kept g h xs k = record {
    ordered = retain-IsFrom (λ x. same_epoch (some (epoch x)) h) 0 xs k.ordered;
    bounded = omega (arith, k.bounded, length-retain (λ x. same_epoch (some (epoch x)) h) xs);
    at_epoch = retain-AtEpoch h xs;
  }
