-- ===== src/Wallet/Manifest.antt =====
-- `WalletArtifactManifest` of wallet_abi.rs, its contract and its signed payload.
pub mod Payload
use hns_dane_browser_extensi.Prelude.{
  ℕ, ◌*◌, Bool, true, false, ◌&&◌, ◌||◌, not, Option, none, some, List, [], ◌∷◌, length, all, any,
  leb, ltb, ◌==◌, bytes_eq, if◌then◌else◌,
}
use hns_dane_browser_extensi.PoolStats.Literals.{ascii}
use hns_dane_browser_extensi.Wallet.Text.{
  valid_token, valid_artifact_name, valid_git_id, valid_semver, is_lower_hex, positive_safe_integer,
  valid_base64url_signature,
}

pub record WalletArtifactTarget : Type 0 where
  pub artifact_kind : List ℕ
  pub target_triple : List ℕ
  pub executable_format : List ℕ
  pub wallet_abi_version : ℕ
  pub service_protocol_version : ℕ
  pub provider_schema_version : ℕ
  pub approval_schema_version : ℕ
  pub maximum_frame_bytes : ℕ
  pub capabilities : List (List ℕ)

pub record WalletArtifactSource : Type 0 where
  pub repository : List ℕ
  pub commit_id : List ℕ
  pub tree_id : List ℕ
  pub source_archive_sha256 : List ℕ
  pub dirty : Bool

pub record WalletArtifactRelease : Type 0 where
  pub release_id : List ℕ
  pub version : List ℕ
  pub artifact : List ℕ
  pub artifact_sha256 : List ℕ
  pub artifact_size_bytes : ℕ
  pub published_at_unix_ms : ℕ

pub record WalletArtifactAntiRollback : Type 0 where
  pub release_line : List ℕ
  pub sequence : ℕ
  pub previous_manifest_sha256 : Option (List ℕ)
  pub not_before_unix_ms : ℕ
  pub expires_at_unix_ms : Option ℕ

pub record WalletArtifactSignature : Type 0 where
  pub algorithm : List ℕ
  pub key_id : List ℕ
  pub payload_canonicalization : List ℕ
  pub signed_payload_sha256 : List ℕ
  pub value : List ℕ

pub record WalletArtifactManifest : Type 0 where
  pub manifest_schema_version : ℕ
  pub target : WalletArtifactTarget
  pub source : WalletArtifactSource
  pub release : WalletArtifactRelease
  pub anti_rollback : WalletArtifactAntiRollback
  pub signature : WalletArtifactSignature

abbrev pub wallet_abi_version : ℕ
wallet_abi_version = 2

abbrev pub wallet_service_protocol_version : ℕ
wallet_service_protocol_version = 2

abbrev pub wallet_provider_schema_version : ℕ
wallet_provider_schema_version = 1

abbrev pub wallet_approval_schema_version : ℕ
wallet_approval_schema_version = 3

abbrev pub wallet_artifact_manifest_schema_version : ℕ
wallet_artifact_manifest_schema_version = 2

abbrev pub wallet_abi_max_frame_bytes : ℕ
wallet_abi_max_frame_bytes = 1_048_576

abbrev pub max_artifact_bytes : ℕ
max_artifact_bytes = 512 * 1024 * 1024

abbrev pub wallet_source_repository : List ℕ
wallet_source_repository = ascii "https://github.com/handshake-rs/hns-wallet-rs"

abbrev pub required_base_capabilities : List (List ℕ)
required_base_capabilities =
    ascii "canonicalFraming"
    ∷ ascii "restartIsolation"
    ∷ ascii "opaqueAuthorityRegistry"
    ∷ ascii "structuredApprovals"
    ∷ ascii "typedEvents"
    ∷ []

abbrev pub service_capabilities : List (List ℕ)
service_capabilities =
    ascii "canonicalFraming"
    ∷ ascii "restartIsolation"
    ∷ ascii "opaqueAuthorityRegistry"
    ∷ ascii "persistentPermissions"
    ∷ ascii "structuredApprovals"
    ∷ ascii "typedEvents"
    ∷ ascii "walletOperations"
    ∷ ascii "hnsReadOperationsV1"
    ∷ ascii "hnsWalletAuthorityContextV1"
    ∷ ascii "providerDispatch"
    ∷ ascii "valueMovement"
    ∷ ascii "browserIntegration"
    ∷ []

abbrev pub contains : List (List ℕ) → List ℕ → Bool
contains names name = any (bytes_eq name) names

-- The closure of `all`, with `unique` handed on: none where a name is unknown or repeated.
unfoldable pub collect_unique : List (List ℕ) → List (List ℕ) → Option (List (List ℕ))
collect_unique unique [] = some unique
collect_unique unique (name ∷ names) =
    let rest = collect_unique (name ∷ unique) names in
    if contains service_capabilities name && not (contains unique name) then rest else none

abbrev pub holds_required : Option (List (List ℕ)) → Bool
holds_required none = false
holds_required (some unique) = all (contains unique) required_base_capabilities

unfoldable pub exact_capabilities : List (List ℕ) → Bool
unfolding collect_unique
exact_capabilities capabilities =
    leb (length capabilities) (length service_capabilities)
    && holds_required (collect_unique [] capabilities)

-- `std::env::consts::OS` and `ARCH`.
pub record Platform : Type 0 where
  pub os : List ℕ
  pub arch : List ℕ

unfoldable pub current_target_contract : Platform → Option (List ℕ × List ℕ)
current_target_contract p =
    if bytes_eq p.os (ascii "linux") && bytes_eq p.arch (ascii "x86_64")
    then some (ascii "x86_64-unknown-linux-gnu", ascii "elf")
    else if bytes_eq p.os (ascii "linux") && bytes_eq p.arch (ascii "aarch64")
    then some (ascii "aarch64-unknown-linux-gnu", ascii "elf")
    else if bytes_eq p.os (ascii "macos") && bytes_eq p.arch (ascii "x86_64")
    then some (ascii "x86_64-apple-darwin", ascii "machO")
    else if bytes_eq p.os (ascii "macos") && bytes_eq p.arch (ascii "aarch64")
    then some (ascii "aarch64-apple-darwin", ascii "machO")
    else none

-- `option.is_none_or(p)`
abbrev pub is_none_or : {A : Type 0} → Option A → (A → Bool) → Bool
is_none_or none p = true
is_none_or (some a) p = p a

unfoldable pub valid_manifest_time_window : WalletArtifactManifest → ℕ → Bool
valid_manifest_time_window m now =
    leb m.release.published_at_unix_ms now
    && leb m.anti_rollback.not_before_unix_ms now
    && is_none_or m.anti_rollback.expires_at_unix_ms (λ expiry. ltb now expiry)
    && is_none_or m.anti_rollback.expires_at_unix_ms
        (λ expiry. ltb m.anti_rollback.not_before_unix_ms expiry)

-- The conjunction of `valid_manifest_contract`, by the parts of the manifest.
unfoldable pub valid_target : List ℕ → List ℕ → WalletArtifactTarget → Bool
valid_target triple format t =
    bytes_eq t.artifact_kind (ascii "walletService")
    && bytes_eq t.target_triple triple
    && bytes_eq t.executable_format format
    && t.wallet_abi_version == wallet_abi_version
    && t.service_protocol_version == wallet_service_protocol_version
    && t.provider_schema_version == wallet_provider_schema_version
    && t.approval_schema_version == wallet_approval_schema_version
    && t.maximum_frame_bytes == wallet_abi_max_frame_bytes
    && exact_capabilities t.capabilities

unfoldable pub valid_source : WalletArtifactSource → Bool
valid_source s =
    bytes_eq s.repository wallet_source_repository
    && valid_git_id s.commit_id
    && valid_git_id s.tree_id
    && is_lower_hex s.source_archive_sha256 64
    && not s.dirty

unfoldable pub valid_release : WalletArtifactRelease → Bool
valid_release r =
    valid_token r.release_id 128
    && valid_semver r.version
    && valid_artifact_name r.artifact
    && is_lower_hex r.artifact_sha256 64
    && ltb 0 r.artifact_size_bytes
    && leb r.artifact_size_bytes max_artifact_bytes
    && positive_safe_integer r.published_at_unix_ms

unfoldable pub valid_anti_rollback : WalletArtifactAntiRollback → Bool
valid_anti_rollback a =
    valid_token a.release_line 128
    && positive_safe_integer a.sequence
    && is_none_or a.previous_manifest_sha256 (λ digest. is_lower_hex digest 64)
    && positive_safe_integer a.not_before_unix_ms
    && is_none_or a.expires_at_unix_ms positive_safe_integer

module _ (decode : List ℕ → Option (List ℕ)) where
  unfoldable pub valid_signature : WalletArtifactSignature → Bool
  valid_signature s =
      bytes_eq s.algorithm (ascii "ed25519")
      && valid_token s.key_id 128
      && bytes_eq s.payload_canonicalization (ascii "JCS-RFC8785")
      && is_lower_hex s.signed_payload_sha256 64
      && valid_base64url_signature decode s.value

  abbrev pub valid_contract_for : Option (List ℕ × List ℕ) → WalletArtifactManifest → ℕ → Bool
  valid_contract_for none m now = false
  valid_contract_for (some (triple, format)) m now =
      m.manifest_schema_version == wallet_artifact_manifest_schema_version
      && valid_target triple format m.target
      && valid_source m.source
      && valid_release m.release
      && valid_anti_rollback m.anti_rollback
      && valid_manifest_time_window m now
      && valid_signature m.signature

  unfoldable pub valid_manifest_contract : Platform → WalletArtifactManifest → ℕ → Bool
  valid_manifest_contract p m now = valid_contract_for (current_target_contract p) m now
