-- ===== src/PoolStats/History/Latest.antt =====
-- The finite map that a history stands for, and the search as a lookup in it.
use hns_dane_browser_extensi.Prelude.{
  ℕ, suc, ◌≡◌, refl, true, false, inl, inr, Bool-cases, Option, none, some, List, [], ◌∷◌, bytes_lt,
  bytes_eq, bytes_eq→eq, bytes_lt_irrefl, bytes_lt_trans, bytes_lt_total, get_elem?, arith,
  if◌then◌else◌,
}
use hns_dane_browser_extensi.PoolStats.History.{
  found, absent, strictly_sorted_by, binary_search_by_key,
}
use hns_dane_browser_extensi.PoolStats.History.Sorted.{
  upsert, upsert_nil, after, over, before, placed,
}

module _ {A : Type 0} (key : A → List ℕ) where
  -- The entry of a key, by a scan that does not rely on the order.
  unfoldable pub latest : List ℕ → List A → Option A
  latest k [] = none
  latest k (x ∷ xs) = if bytes_eq (key x) k then some x else latest k xs

  ne_of_lt : (k : List ℕ) (x : A) → bytes_lt k (key x) ≡ true → bytes_eq (key x) k ≡ false
  ne_of_lt k x lt = elim (Bool-cases (bytes_eq (key x) k)) [
    | inl e ↦ cc (bytes_eq→eq _ _ e, bytes_lt_irrefl k)
    | inr n ↦ n
  ]

  ne_of_gt : (k : List ℕ) (x : A) → bytes_lt (key x) k ≡ true → bytes_eq (key x) k ≡ false
  ne_of_gt k x lt = elim (Bool-cases (bytes_eq (key x) k)) [
    | inl e ↦ cc (bytes_eq→eq _ _ e, bytes_lt_irrefl k)
    | inr n ↦ n
  ]

  -- The keys of a sorted list that stand behind a larger head are larger too.
  latest_above :
      (k : List ℕ) (x : A) (xs : List A)
      → strictly_sorted_by key (x ∷ xs) ≡ true
      → bytes_lt k (key x) ≡ true
      → latest k (x ∷ xs) ≡ none
  unfolding latest strictly_sorted_by
  latest_above k x [] h lt = rw (ne_of_lt k x lt)
  latest_above k x (y ∷ ys) h lt =
      rw (ne_of_lt k x lt)
        (latest_above k y ys (ground arith) (bytes_lt_trans k (key x) (key y) lt (ground arith)))

  keys_apart :
      (k : List ℕ) (x v : A)
      → bytes_lt (key x) (key v) ≡ true
      → bytes_eq (key x) k ≡ true
      → bytes_eq (key v) k ≡ false
  keys_apart k x v lt e = ne_of_lt k v (rw (bytes_eq→eq _ _ e) at lt)

  pub latest-upsert :
      (k : List ℕ) (v : A) (xs : List A)
      → latest k (upsert key v xs) ≡ (if bytes_eq (key v) k then some v else latest k xs)
  unfolding latest
  latest-upsert k v [] = rw (upsert_nil key v)
  latest-upsert k v (x ∷ xs) = elim (placed key v x xs) [
    | after lt e ↦ rw e (ground (arith, latest-upsert k v xs, keys_apart k x v lt))
    | over same e ↦ rw (e, same) (ground arith)
    | before lt n e ↦ rw e
  ]

  -- What the search finds is what the scan finds.
  pub data Looked (k : List ℕ) (xs : List A) : Type 0 where
    present :
        (i : ℕ) (x : A)
        → binary_search_by_key key k xs ≡ found i x
        → get_elem? xs i ≡ some x
        → latest k xs ≡ some x
        → key x ≡ k
        → Looked k xs
    missing : (i : ℕ) → binary_search_by_key key k xs ≡ absent i → latest k xs ≡ none → Looked k xs

  Looked-shift :
      (k : List ℕ) (x : A) (xs : List A)
      → bytes_lt (key x) k ≡ true
      → Looked k xs
      → Looked k (x ∷ xs)
  unfolding binary_search_by_key latest
  Looked-shift k x xs lt (present i y s g l e) =
      present (suc i) y (rw (lt, s)) g (rw (ne_of_gt k x lt) l) e
  Looked-shift k x xs lt (missing i s l) = missing (suc i) (rw (lt, s)) (rw (ne_of_gt k x lt) l)

  sorted_tail :
      (x : A) (xs : List A)
      → strictly_sorted_by key (x ∷ xs) ≡ true
      → strictly_sorted_by key xs ≡ true
  unfolding strictly_sorted_by
  sorted_tail x [] h = refl
  sorted_tail x (y ∷ ys) h = ground arith

  pub looked : (k : List ℕ) (xs : List A) → strictly_sorted_by key xs ≡ true → Looked k xs
  unfolding binary_search_by_key
  looked k [] h = missing 0 refl (unfold latest in refl)
  looked k (x ∷ xs) h = elim (Bool-cases (bytes_lt (key x) k)) [
    | inl lt ↦ Looked-shift k x xs lt (looked k xs (sorted_tail x xs h))
    | inr ge ↦ elim (Bool-cases (bytes_eq (key x) k)) [
      | inl e ↦
          present 0 x (rw (ge, e, binary_search_by_key)) refl (unfold latest in rw e)
            (bytes_eq→eq _ _ e)
      | inr n ↦
          missing 0 (rw (ge, n, binary_search_by_key))
            (latest_above k x xs h (bytes_lt_total (key x) k ge n))
    ]
  ]
