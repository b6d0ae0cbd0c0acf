-- ===== src/Wallet/Rejection.antt =====
-- `WalletArtifactRejection` of wallet_abi.rs, as a Unix target has it, with its codes.
use hns_dane_browser_extensi.Prelude.{ℕ, List}
use hns_dane_browser_extensi.PoolStats.Literals.{ascii}

pub data WalletArtifactRejection : Type 0 where
  unsafe_directory unsafe_manifest manifest_size manifest_encoding : WalletArtifactRejection
  manifest_canonicalization manifest_contract artifact_missing : WalletArtifactRejection
  unsafe_artifact mutable_artifact artifact_size artifact_digest : WalletArtifactRejection
  artifact_read artifact_platform signature_payload signature_invalid : WalletArtifactRejection
  verifier_configuration release_floor release_time_window : WalletArtifactRejection
  anti_rollback path_binding launch_failed : WalletArtifactRejection

unfoldable pub code : WalletArtifactRejection → List ℕ
code unsafe_directory = ascii "walletArtifactDirectoryUnsafe"
code unsafe_manifest = ascii "walletArtifactManifestUnsafe"
code manifest_size = ascii "walletArtifactManifestSize"
code manifest_encoding = ascii "walletArtifactManifestInvalid"
code manifest_canonicalization = ascii "walletArtifactManifestNotCanonical"
code manifest_contract = ascii "walletArtifactContractMismatch"
code artifact_missing = ascii "walletArtifactMissing"
code unsafe_artifact = ascii "walletArtifactUnsafe"
code mutable_artifact = ascii "walletArtifactMutable"
code artifact_size = ascii "walletArtifactSize"
code artifact_digest = ascii "walletArtifactDigestMismatch"
code artifact_read = ascii "walletArtifactUnreadable"
code artifact_platform = ascii "walletArtifactPlatformMismatch"
code signature_payload = ascii "walletArtifactSignaturePayloadMismatch"
code signature_invalid = ascii "walletArtifactSignatureInvalid"
code verifier_configuration = ascii "walletArtifactVerifierConfigurationInvalid"
code release_floor = ascii "walletArtifactReleaseBelowFloor"
code release_time_window = ascii "walletArtifactReleaseTimeInvalid"
code anti_rollback = ascii "walletArtifactRollbackRejected"
code path_binding = ascii "walletArtifactPathBindingChanged"
code launch_failed = ascii "walletArtifactLaunchFailed"
