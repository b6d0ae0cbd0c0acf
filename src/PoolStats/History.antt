-- ===== src/PoolStats/History.antt =====
-- The sorted vectors of `HrmPoolStatsState`: `strictly_sorted_by` of hrm.rs, and what it uses of
-- Rust's slices, `binary_search_by_key` and `Vec::insert`.
pub mod Sorted
pub mod Latest
use hns_dane_browser_extensi.Prelude.{
  ℕ, zero, suc, ◌+◌, Bool, true, false, ◌&&◌, List, [], ◌∷◌, bytes_lt, bytes_eq, if◌then◌else◌,
}

-- `Ok(position)`, with the element that stands there, or `Err(position)`.
pub data Search {ℓ} (A : Type ℓ) : Type ℓ where
  found : ℕ → A → Search A
  absent : ℕ → Search A

module _ {ℓ} {A : Type ℓ} where
  abbrev pub shift : Search A → Search A
  shift (found i x) = found (suc i) x
  shift (absent i) = absent (suc i)

  -- `values.insert(position, value)`
  abbrev pub insert_at : List A → ℕ → A → List A
  insert_at xs zero v = v ∷ xs
  insert_at [] (suc i) v = v ∷ []
  insert_at (x ∷ xs) (suc i) v = x ∷ insert_at xs i v

module _ {ℓ} {A : Type ℓ} (key : A → List ℕ) where
  unfoldable pub strictly_sorted_by : List A → Bool
  strictly_sorted_by [] = true
  strictly_sorted_by (x ∷ []) = true
  strictly_sorted_by (x ∷ y ∷ r) = bytes_lt (key x) (key y) && strictly_sorted_by (y ∷ r)

  -- On a sorted slice without equal keys the answer of a binary search is the one position that a
  -- scan finds.
  unfoldable pub binary_search_by_key : List ℕ → List A → Search A
  binary_search_by_key k [] = absent 0
  binary_search_by_key k (x ∷ xs) =
      let rest = shift (binary_search_by_key k xs) in
      if bytes_lt (key x) k then rest else if bytes_eq (key x) k then found 0 x else absent 0
