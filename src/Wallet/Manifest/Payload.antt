-- ===== src/Wallet/Manifest/Payload.antt =====
-- A manifest as JSON, and `signed_manifest_payload` of wallet_abi.rs. The fields are those that
-- `derive(Serialize)` gives with `rename_all = "camelCase"`.
use hns_dane_browser_extensi.Prelude.{ℕ, Option, none, some, List, [], ◌∷◌}
use hns_dane_browser_extensi.PoolStats.Literals.{ascii}
use hns_dane_browser_extensi.Wallet.Jcs.{
  Value, null, boolean, number, string, array, object, Values, nil, cons, Fields, end, field,
  Strings, jcs_value_bytes, remove_field,
}
use hns_dane_browser_extensi.Wallet.Manifest.{
  WalletArtifactTarget, WalletArtifactSource, WalletArtifactRelease, WalletArtifactAntiRollback,
  WalletArtifactSignature, WalletArtifactManifest,
}

abbrev pub strings : List (List ℕ) → Values
strings [] = nil
strings (s ∷ ss) = cons (string s) (strings ss)

abbrev pub or_null : {A : Type 0} → (A → Value) → Option A → Value
or_null f none = null
or_null f (some a) = f a

abbrev target_value : WalletArtifactTarget → Value
target_value t = object (
    field (ascii "artifactKind") (string t.artifact_kind) (
      field (ascii "targetTriple") (string t.target_triple) (
        field (ascii "executableFormat") (string t.executable_format) (
          field (ascii "walletAbiVersion") (number (some t.wallet_abi_version)) (
            field (ascii "serviceProtocolVersion") (number (some t.service_protocol_version)) (
              field (ascii "providerSchemaVersion") (number (some t.provider_schema_version)) (
                field (ascii "approvalSchemaVersion") (number (some t.approval_schema_version)) (
                  field (ascii "maximumFrameBytes") (number (some t.maximum_frame_bytes))
                    (field (ascii "capabilities") (array (strings t.capabilities)) end)))))))))

abbrev source_value : WalletArtifactSource → Value
source_value s = object (
    field (ascii "repository") (string s.repository) (
      field (ascii "commitId") (string s.commit_id) (
        field (ascii "treeId") (string s.tree_id) (
          field (ascii "sourceArchiveSha256") (string s.source_archive_sha256)
            (field (ascii "dirty") (boolean s.dirty) end)))))

abbrev release_value : WalletArtifactRelease → Value
release_value r = object (
    field (ascii "releaseId") (string r.release_id) (
      field (ascii "version") (string r.version) (
        field (ascii "artifact") (string r.artifact) (
          field (ascii "artifactSha256") (string r.artifact_sha256) (
            field (ascii "artifactSizeBytes") (number (some r.artifact_size_bytes))
              (field (ascii "publishedAtUnixMs") (number (some r.published_at_unix_ms)) end))))))

abbrev anti_rollback_value : WalletArtifactAntiRollback → Value
anti_rollback_value a = object (
    field (ascii "releaseLine") (string a.release_line) (
      field (ascii "sequence") (number (some a.sequence)) (
        field (ascii "previousManifestSha256") (or_null string a.previous_manifest_sha256) (
          field (ascii "notBeforeUnixMs") (number (some a.not_before_unix_ms)) (
            field (ascii "expiresAtUnixMs") (or_null (λ n. number (some n)) a.expires_at_unix_ms)
              end)))))

abbrev signature_value : WalletArtifactSignature → Value
signature_value s = object (
    field (ascii "algorithm") (string s.algorithm) (
      field (ascii "keyId") (string s.key_id) (
        field (ascii "payloadCanonicalization") (string s.payload_canonicalization) (
          field (ascii "signedPayloadSha256") (string s.signed_payload_sha256)
            (field (ascii "value") (string s.value) end)))))

unfoldable pub manifest_fields : WalletArtifactManifest → Fields
manifest_fields m =
    field (ascii "manifestSchemaVersion") (number (some m.manifest_schema_version)) (
      field (ascii "target") (target_value m.target) (
        field (ascii "source") (source_value m.source) (
          field (ascii "release") (release_value m.release) (
            field (ascii "antiRollback") (anti_rollback_value m.anti_rollback)
              (field (ascii "signature") (signature_value m.signature) end)))))

module _ (s : Strings) where
  -- `jcs_bytes(manifest)`
  unfoldable pub manifest_bytes : WalletArtifactManifest → Option (List ℕ)
  manifest_bytes m = jcs_value_bytes s (object (manifest_fields m))

  abbrev payload_of : Option Fields → Option (List ℕ)
  payload_of none = none
  payload_of (some fields) = jcs_value_bytes s (object fields)

  unfoldable pub signed_manifest_payload : WalletArtifactManifest → Option (List ℕ)
  signed_manifest_payload m = payload_of (remove_field (ascii "signature") (manifest_fields m))
