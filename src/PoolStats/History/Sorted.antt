-- ===== src/PoolStats/History/Sorted.antt =====
-- Writing at the position that the search gives keeps a history sorted.
use hns_dane_browser_extensi.Prelude.{
  ℕ, ◌+◌, ◌≤◌, ◌≡◌, refl, Bool, true, false, inl, inr, Bool-cases, List, [], ◌∷◌, bytes_lt,
  bytes_eq, bytes_eq→eq, bytes_lt_total, length, set, all, arith,
}
use hns_dane_browser_extensi.PoolStats.History.{
  Search, found, absent, shift, insert_at, strictly_sorted_by, binary_search_by_key,
}

module _ {A : Type 0} (key : A → List ℕ) where
  abbrev IsSorted : List A → Type 0
  IsSorted xs = strictly_sorted_by key xs ≡ true

  -- `x` may stand in front of `xs`.
  abbrev IsBelow : A → List A → Type 0
  IsBelow x [] = Unit
  IsBelow x (y ∷ ys) = bytes_lt (key x) (key y) ≡ true

  IsSorted-cons : (x : A) (xs : List A) → IsBelow x xs → IsSorted xs → IsSorted (x ∷ xs)
  unfolding strictly_sorted_by
  IsSorted-cons x [] b h = refl
  IsSorted-cons x (y ∷ ys) b h = ground arith

  IsSorted-uncons : (x : A) (xs : List A) → IsSorted (x ∷ xs) → IsBelow x xs × IsSorted xs
  unfolding strictly_sorted_by
  IsSorted-uncons x [] h = (tt, refl)
  IsSorted-uncons x (y ∷ ys) h = ground arith

  -- What `upsert` does to a history: the element found is overwritten, an absent one is inserted.
  abbrev pub place : A → Search A → List A → List A
  place v (found i x) xs = set xs i v
  place v (absent i) xs = insert_at xs i v

  place-shift :
      (v x : A) (p : Search A) (xs : List A) → place v (shift p) (x ∷ xs) ≡ x ∷ place v p xs
  place-shift v x (found i y) xs = refl
  place-shift v x (absent i) xs = refl

  abbrev pub upsert : A → List A → List A
  upsert v xs = place v (binary_search_by_key key (key v) xs) xs

  upsert_below :
      (v x : A) (xs : List A)
      → bytes_lt (key x) (key v) ≡ true
      → upsert v (x ∷ xs) ≡ x ∷ upsert v xs
  unfolding binary_search_by_key
  upsert_below v x xs h = rw h (place-shift v x (binary_search_by_key key (key v) xs) xs)

  upsert_equal :
      (v x : A) (xs : List A)
      → bytes_lt (key x) (key v) ≡ false
      → bytes_eq (key x) (key v) ≡ true
      → upsert v (x ∷ xs) ≡ v ∷ xs
  unfolding binary_search_by_key
  upsert_equal v x xs h e = rw (h, e)

  upsert_above :
      (v x : A) (xs : List A)
      → bytes_lt (key x) (key v) ≡ false
      → bytes_eq (key x) (key v) ≡ false
      → upsert v (x ∷ xs) ≡ v ∷ x ∷ xs
  unfolding binary_search_by_key
  upsert_above v x xs h e = rw (h, e)

  pub upsert_nil : (v : A) → upsert v [] ≡ v ∷ []
  unfolding binary_search_by_key
  upsert_nil v = refl

  -- The three ways to place `v` against the head of a list.
  pub data Placed (v x : A) (xs : List A) : Type 0 where
    after : bytes_lt (key x) (key v) ≡ true → upsert v (x ∷ xs) ≡ x ∷ upsert v xs → Placed v x xs
    over : key x ≡ key v → upsert v (x ∷ xs) ≡ v ∷ xs → Placed v x xs
    before :
        bytes_lt (key v) (key x) ≡ true
        → bytes_eq (key x) (key v) ≡ false
        → upsert v (x ∷ xs) ≡ v ∷ x ∷ xs
        → Placed v x xs

  pub placed : (v x : A) (xs : List A) → Placed v x xs
  placed v x xs = elim (Bool-cases (bytes_lt (key x) (key v))) [
    | inl lt ↦ after lt (upsert_below v x xs lt)
    | inr ge ↦ elim (Bool-cases (bytes_eq (key x) (key v))) [
      | inl e ↦ over (bytes_eq→eq _ _ e) (upsert_equal v x xs ge e)
      | inr ne ↦ before (bytes_lt_total _ _ ge ne) ne (upsert_above v x xs ge ne)
    ]
  ]

  IsBelow-upsert :
      (x v : A) (xs : List A)
      → bytes_lt (key x) (key v) ≡ true
      → IsBelow x xs
      → IsBelow x (upsert v xs)
  IsBelow-upsert x v [] lt b = rw upsert_nil lt
  IsBelow-upsert x v (y ∷ ys) lt b = elim (placed v y ys) [
    | after k e ↦ rw e b
    | over k e ↦ rw e lt
    | before k n e ↦ rw e lt
  ]

  upsert-IsSorted : (v : A) (xs : List A) → IsSorted xs → IsSorted (upsert v xs)
  upsert-IsSorted v [] h = rw upsert_nil (IsSorted-cons v [] tt h)
  upsert-IsSorted v (x ∷ xs) h =
      let (b, t) = IsSorted-uncons x xs h in
      elim (placed v x xs) [
        | after k e ↦ rw e (IsSorted-cons x _ (IsBelow-upsert x v xs k b) (upsert-IsSorted v xs t))
        | over k e ↦ rw e (IsSorted-cons v xs (below_as k xs b) t)
        | before k n e ↦ rw e (IsSorted-cons v (x ∷ xs) k h)
      ]
    where
      below_as : key x ≡ key v → (ys : List A) → IsBelow x ys → IsBelow v ys
      below_as k [] b = tt
      below_as k (y ∷ ys) b = rw (← k) b

  upsert-all :
      (p : A → Bool) (v : A) (xs : List A)
      → p v ≡ true
      → all p xs ≡ true
      → all p (upsert v xs) ≡ true
  upsert-all p v [] h k = rw upsert_nil (ground arith)
  upsert-all p v (x ∷ xs) h k = elim (placed v x xs) [
    | after _ e ↦ rw e (ground (arith, upsert-all p v xs))
    | over _ e ↦ rw e (ground arith)
    | before _ n e ↦ rw e (ground arith)
  ]

  pub length-upsert : (v : A) (xs : List A) → length (upsert v xs) ≤ length xs + 1
  length-upsert v [] = rw upsert_nil (omega arith)
  length-upsert v (x ∷ xs) = elim (placed v x xs) [
    | after _ e ↦ rw e (omega (arith, length-upsert v xs))
    | over _ e ↦ rw e (omega arith)
    | before _ n e ↦ rw e (omega arith)
  ]
