-- ===== src/Wallet/Text.antt =====
-- The grammars of names, identifiers and digests in
-- rust/crates/hns-chromium-native-host/src/wallet_abi.rs. A `str` is its bytes.
pub mod Hex
use hns_dane_browser_extensi.Prelude.{
  ℕ, ◌+◌, ◌/◌, ◌%◌, Bool, true, false, ◌&&◌, ◌||◌, not, Option, none, some, List, [], ◌∷◌, length,
  all, any, leb, ltb, ◌==◌, bytes_eq, if◌then◌else◌,
}
use hns_dane_browser_extensi.PoolStats.Literals.{ascii}

abbrev pub is_ascii_digit : ℕ → Bool
is_ascii_digit b = leb b'0' b && leb b b'9'

abbrev pub is_ascii_alphanumeric : ℕ → Bool
is_ascii_alphanumeric b =
    (leb b'a' b && leb b b'z') || (leb b'A' b && leb b b'Z') || is_ascii_digit b

abbrev pub max_safe_integer : ℕ
max_safe_integer = 9_007_199_254_740_991

abbrev pub is_token_byte : ℕ → Bool
is_token_byte b =
    is_ascii_alphanumeric b || b == b'.' || b == b'_' || b == b':' || b == b'+' || b == b'-'

unfoldable pub valid_token : List ℕ → ℕ → Bool
valid_token value maximum =
    leb 1 (length value) && leb (length value) maximum && all is_token_byte value

abbrev pub is_name_byte : ℕ → Bool
is_name_byte b = is_ascii_alphanumeric b || b == b'.' || b == b'_' || b == b'-'

-- `Path::components` of a text without a slash: one component, which is `CurDir` for `.`,
-- `ParentDir` for `..`, and `Normal` for all else.
abbrev pub is_one_normal_component : List ℕ → Bool
is_one_normal_component value =
    not (bytes_eq value (ascii ".")) && not (bytes_eq value (ascii ".."))

unfoldable pub valid_artifact_name : List ℕ → Bool
valid_artifact_name value =
    leb 1 (length value)
    && leb (length value) 128
    && all is_name_byte value
    && is_one_normal_component value

unfoldable pub valid_wallet_database_name : List ℕ → Bool
valid_wallet_database_name value =
    leb 1 (length value)
    && leb (length value) 128
    && all is_name_byte value
    && is_one_normal_component value

unfoldable pub positive_safe_integer : ℕ → Bool
positive_safe_integer value = ltb 0 value && leb value max_safe_integer

abbrev pub is_lower_hex_byte : ℕ → Bool
is_lower_hex_byte b = is_ascii_digit b || (leb b'a' b && leb b b'f')

unfoldable pub is_lower_hex : List ℕ → ℕ → Bool
is_lower_hex value size = length value == size && all is_lower_hex_byte value

unfoldable pub valid_git_id : List ℕ → Bool
valid_git_id value = (length value == 40 || length value == 64) && is_lower_hex value (length value)

-- `format!("{byte:02x}")`
abbrev pub hex_digit : ℕ → ℕ
hex_digit n = if ltb n 10 then 48 + n else 87 + n

unfoldable pub lower_hex : List ℕ → List ℕ
lower_hex [] = []
lower_hex (b ∷ bs) = hex_digit (b / 16) ∷ hex_digit (b % 16) ∷ lower_hex bs

-- `split_once`: the text before the first separator, and the text behind it.
unfoldable pub split_once : ℕ → List ℕ → List ℕ × Option (List ℕ)
split_once separator [] = ([], none)
split_once separator (b ∷ bs) =
    let (left, right) = split_once separator bs in
    if b == separator then ([], some bs) else (b ∷ left, right)

abbrev pub prepend_to_first : ℕ → List (List ℕ) → List (List ℕ)
prepend_to_first b [] = (b ∷ []) ∷ []
prepend_to_first b (part ∷ parts) = (b ∷ part) ∷ parts

-- `split`
unfoldable pub split : ℕ → List ℕ → List (List ℕ)
split separator [] = [] ∷ []
split separator (b ∷ bs) =
    let parts = split separator bs in
    if b == separator then [] ∷ parts else prepend_to_first b parts

unfoldable pub decimal_component : List ℕ → Bool
decimal_component value = leb 1 (length value) && all is_ascii_digit value

abbrev pub is_suffix_byte : ℕ → Bool
is_suffix_byte b = is_ascii_alphanumeric b || b == b'.' || b == b'-'

unfoldable pub semver_suffix : List ℕ → Bool
semver_suffix value = all is_suffix_byte value

-- `suffix.is_some_and(|suffix| suffix.is_empty() || !semver_suffix(suffix))`
unfoldable pub suffix_invalid : Option (List ℕ) → Bool
unfolding semver_suffix
suffix_invalid none = false
suffix_invalid (some suffix) = length suffix == 0 || not (semver_suffix suffix)

-- The three calls of `parts.next()`, and the fourth that finds none.
unfoldable pub three_components : List (List ℕ) → Bool
unfolding decimal_component
three_components (a ∷ b ∷ c ∷ []) =
    decimal_component a && decimal_component b && decimal_component c
three_components parts = false

unfoldable pub valid_core : List ℕ → Bool
unfolding split_once split suffix_invalid three_components
valid_core without_build =
    let (core, prerelease) = split_once b'-' without_build in
    not (suffix_invalid prerelease) && three_components (split b'.' core)

unfoldable pub valid_semver : List ℕ → Bool
unfolding split_once suffix_invalid valid_core
valid_semver value =
    let (without_build, build) = split_once b'+' value in
    leb 1 (length value)
    && leb (length value) 64
    && all (λ b. ltb b 128) value
    && not (suffix_invalid build)
    && not (any (λ b. b == b'+') without_build)
    && valid_core without_build

abbrev pub last_byte : List ℕ → Option ℕ
last_byte [] = none
last_byte (b ∷ []) = some b
last_byte (b ∷ c ∷ bs) = last_byte (c ∷ bs)

abbrev pub is_final_signature_byte : Option ℕ → Bool
is_final_signature_byte none = false
is_final_signature_byte (some b) = b == b'A' || b == b'Q' || b == b'g' || b == b'w'

abbrev pub has_length : ℕ → Option (List ℕ) → Bool
has_length n none = false
has_length n (some bytes) = length bytes == n

-- `decode` is that of the crate base64, for the alphabet `URL_SAFE_NO_PAD`.
unfoldable pub valid_base64url_signature : (List ℕ → Option (List ℕ)) → List ℕ → Bool
valid_base64url_signature decode value =
    length value == 86
    && is_final_signature_byte (last_byte value)
    && all (λ b. is_ascii_alphanumeric b || b == b'_' || b == b'-') value
    && has_length 64 (decode value)

unfoldable pub valid_wallet_public_string : List ℕ → ℕ → Bool
valid_wallet_public_string value maximum =
    leb 1 (length value) && leb (length value) maximum && all (λ b. leb 0x20 b && leb b 0x7e) value

unfoldable pub valid_wallet_display_string : List ℕ → ℕ → Bool
valid_wallet_display_string value maximum =
    leb 1 (length value) && leb (length value) maximum && all (λ b. leb 0x21 b && leb b 0x7e) value
