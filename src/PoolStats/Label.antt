-- ===== src/PoolStats/Label.antt =====
-- `is_canonical_hns_label`: the root-name grammar of the name that the caller selects.
use hns_dane_browser_extensi.Prelude.{
  ℕ, Bool, false, ◌&&◌, ◌||◌, not, Option, none, some, List, [], ◌∷◌, length, leb, ◌==◌, all, any,
  bytes_eq,
}
use hns_dane_browser_extensi.PoolStats.Literals.{ascii}

-- `matches!(byte, Some(b'-' | b'_'))`
abbrev is_mark : ℕ → Bool
is_mark b = b == b'-' || b == b'_'

abbrev is_some_mark : Option ℕ → Bool
is_some_mark none = false
is_some_mark (some b) = is_mark b

-- `is_ascii_lowercase` and `is_ascii_digit`
abbrev is_lowercase : ℕ → Bool
is_lowercase b = leb b'a' b && leb b b'z'

abbrev is_digit : ℕ → Bool
is_digit b = leb b'0' b && leb b b'9'

abbrev is_label_byte : ℕ → Bool
is_label_byte b = is_lowercase b || is_digit b || is_mark b

abbrev first_byte : List ℕ → Option ℕ
first_byte [] = none
first_byte (b ∷ bs) = some b

abbrev last_byte : List ℕ → Option ℕ
last_byte [] = none
last_byte (b ∷ []) = some b
last_byte (b ∷ c ∷ bs) = last_byte (c ∷ bs)

abbrev reserved_labels : List (List ℕ)
reserved_labels =
    ascii "example" ∷ ascii "invalid" ∷ ascii "local" ∷ ascii "localhost" ∷ ascii "test" ∷ []

unfoldable pub is_canonical_hns_label : List ℕ → Bool
is_canonical_hns_label name =
    leb 1 (length name)
    && leb (length name) 63
    && not (any (bytes_eq name) reserved_labels)
    && not (is_some_mark (first_byte name))
    && not (is_some_mark (last_byte name))
    && all is_label_byte name
