-- ===== src/Wallet/Configuration.antt =====
-- `WalletAbiVerifierConfiguration` of wallet_abi.rs: the trust roots, the qualified releases and
-- the floors that are compiled in.
use hns_dane_browser_extensi.Prelude.{
  ℕ, Bool, true, false, ◌&&◌, ◌||◌, not, Option, none, some, List, [], ◌∷◌, length, all, any, leb,
  ltb, ◌==◌, bytes_eq, if◌then◌else◌,
}
use hns_dane_browser_extensi.Wallet.Text.{valid_token, is_lower_hex, max_safe_integer}
use hns_dane_browser_extensi.Wallet.Manifest.{WalletArtifactManifest}

pub record WalletTrustRoot : Type 0 where
  pub key_id : List ℕ
  pub release_line : List ℕ
  pub public_key : List ℕ
  pub first_sequence : ℕ
  pub last_sequence : ℕ

pub record QualifiedWalletRelease : Type 0 where
  pub key_id : List ℕ
  pub release_line : List ℕ
  pub sequence : ℕ
  pub release_id : List ℕ
  pub target_triple : List ℕ
  pub manifest_sha256 : List ℕ
  pub artifact_sha256 : List ℕ
  pub trusted_genesis : Bool

pub record WalletReleaseFloor : Type 0 where
  pub release_line : List ℕ
  pub minimum_sequence : ℕ

pub record WalletAbiVerifierConfiguration : Type 0 where
  pub trust_roots : List WalletTrustRoot
  pub qualified_releases : List QualifiedWalletRelease
  pub release_floors : List WalletReleaseFloor

-- `production()`: the three tables are empty.
abbrev pub production : WalletAbiVerifierConfiguration
production = record { trust_roots = []; qualified_releases = []; release_floors = [] }

-- `iter().find(p)`
unfoldable pub find : {A : Type 0} → (A → Bool) → List A → Option A
find p [] = none
find p (x ∷ xs) = let rest = find p xs in if p x then some x else rest

abbrev pub is_root_for : List ℕ → List ℕ → ℕ → WalletTrustRoot → Bool
is_root_for key line sequence root =
    bytes_eq root.key_id key
    && bytes_eq root.release_line line
    && leb root.first_sequence sequence
    && leb sequence root.last_sequence

unfoldable pub trust_root :
    WalletAbiVerifierConfiguration → List ℕ → List ℕ → ℕ → Option WalletTrustRoot
unfolding find
trust_root c key line sequence = find (is_root_for key line sequence) c.trust_roots

abbrev pub is_release_of : WalletArtifactManifest → List ℕ → QualifiedWalletRelease → Bool
is_release_of m digest release =
    bytes_eq release.key_id m.signature.key_id
    && bytes_eq release.release_line m.anti_rollback.release_line
    && release.sequence == m.anti_rollback.sequence
    && bytes_eq release.release_id m.release.release_id
    && bytes_eq release.target_triple m.target.target_triple
    && bytes_eq release.manifest_sha256 digest
    && bytes_eq release.artifact_sha256 m.release.artifact_sha256

unfoldable pub qualified_release :
    WalletAbiVerifierConfiguration → WalletArtifactManifest → List ℕ → Option QualifiedWalletRelease
unfolding find
qualified_release c m digest = find (is_release_of m digest) c.qualified_releases

abbrev pub minimum_of : Option WalletReleaseFloor → Option ℕ
minimum_of none = none
minimum_of (some floor) = some floor.minimum_sequence

unfoldable pub minimum_sequence : WalletAbiVerifierConfiguration → List ℕ → Option ℕ
unfolding find
minimum_sequence c line =
    minimum_of (find (λ floor. bytes_eq floor.release_line line) c.release_floors)

abbrev pub is_some : {A : Type 0} → Option A → Bool
is_some none = false
is_some (some a) = true

abbrev pub is_at_most : Option ℕ → ℕ → Bool
is_at_most none n = false
is_at_most (some minimum) n = leb minimum n

abbrev apart : WalletTrustRoot → WalletTrustRoot → Bool
apart root other =
    not (bytes_eq root.key_id other.key_id)
    || not (bytes_eq root.release_line other.release_line)
    || ltb root.last_sequence other.first_sequence
    || ltb other.last_sequence root.first_sequence

unfoldable pub roots_unambiguous : List WalletTrustRoot → Bool
roots_unambiguous [] = true
roots_unambiguous (root ∷ others) = all (apart root) others && roots_unambiguous others

-- `all(|x| seen.insert(key(x)))`: no two elements have equal keys.
unfoldable pub all_distinct : {A : Type 0} → (A → A → Bool) → List A → Bool
all_distinct same [] = true
all_distinct same (x ∷ xs) = not (any (same x) xs) && all_distinct same xs

abbrev same_line : WalletReleaseFloor → WalletReleaseFloor → Bool
same_line a b = bytes_eq a.release_line b.release_line

abbrev same_release : QualifiedWalletRelease → QualifiedWalletRelease → Bool
same_release a b =
    bytes_eq a.release_line b.release_line
    && a.sequence == b.sequence
    && bytes_eq a.target_triple b.target_triple

unfoldable pub unique_configuration : WalletAbiVerifierConfiguration → Bool
unfolding roots_unambiguous all_distinct
unique_configuration c =
    roots_unambiguous c.trust_roots
    && all_distinct same_line c.release_floors
    && all_distinct same_release c.qualified_releases

abbrev valid_root : WalletAbiVerifierConfiguration → WalletTrustRoot → Bool
valid_root c root =
    valid_token root.key_id 128
    && valid_token root.release_line 128
    && length root.public_key == 32
    && ltb 0 root.first_sequence
    && leb root.first_sequence root.last_sequence
    && leb root.last_sequence max_safe_integer
    && is_some (minimum_sequence c root.release_line)

abbrev valid_floor : WalletReleaseFloor → Bool
valid_floor floor =
    valid_token floor.release_line 128
    && ltb 0 floor.minimum_sequence
    && leb floor.minimum_sequence max_safe_integer

abbrev valid_qualified : WalletAbiVerifierConfiguration → QualifiedWalletRelease → Bool
valid_qualified c release =
    valid_token release.key_id 128
    && valid_token release.release_line 128
    && ltb 0 release.sequence
    && leb release.sequence max_safe_integer
    && valid_token release.release_id 128
    && valid_token release.target_triple 128
    && is_lower_hex release.manifest_sha256 64
    && is_lower_hex release.artifact_sha256 64
    && is_at_most (minimum_sequence c release.release_line) release.sequence

unfoldable pub valid_verifier_configuration : WalletAbiVerifierConfiguration → Bool
valid_verifier_configuration c =
    all (valid_root c) c.trust_roots
    && all valid_floor c.release_floors
    && all (valid_qualified c) c.qualified_releases
    && unique_configuration c
    && all (λ r. is_some (trust_root c r.key_id r.release_line r.sequence)) c.qualified_releases
