-- ===== src/PoolStats/Crypto.antt =====
-- The cryptographic crates that hrm.rs calls (sha2, sha3, blake2, k256), as a record of their
-- functions, and the two helpers that hrm.rs builds on them.
use hns_dane_browser_extensi.Prelude.{
  ℕ, Bool, true, false, ◌||◌, Option, none, some, List, ◌++◌, ◌≡◌, concat, length, ltb, ◌==◌,
  bytes_eq, not,
}
use hns_dane_browser_extensi.Prelude.Result.{Result, ok, ok_or, reject, ◌>>=◌, ◌>>◌}
use hns_dane_browser_extensi.PoolStats.Error.{
  HrmPoolStatsError, snapshot_cryptography, max_signature_bytes,
}

pub record Crypto : Type 1 where
  -- `Sha256` and `Sha3_256` of a message
  pub sha256_digest : List ℕ → List ℕ
  pub sha3_256_digest : List ℕ → List ℕ
  -- `Blake2bVar::new(size)`, `update` with the message and `finalize_variable`
  pub blake2b_var : ℕ → List ℕ → Option (List ℕ)
  pub VerifyingKey : Type 0
  pub from_sec1_bytes : List ℕ → Option VerifyingKey
  pub Signature : Type 0
  pub from_der : List ℕ → Option Signature
  pub to_der : Signature → List ℕ
  pub normalize_s : Signature → Signature
  pub signature_eq : Signature → Signature → Bool
  pub verify_prehash : VerifyingKey → List ℕ → Signature → Bool

-- BLAKE2b accepts an output size of 32 and then gives 32 bytes.
pub record IsBlake2b (c : Crypto) : Type 0 where
  pub digest : List ℕ → List ℕ
  pub digest_eq : (m : List ℕ) → c.blake2b_var 32 m ≡ some (digest m)
  pub length-digest : (m : List ℕ) → length (digest m) ≡ 32

module _ (c : Crypto) where
  unfoldable pub blake2b_256 : List ℕ → List (List ℕ) → Result HrmPoolStatsError (List ℕ)
  blake2b_256 domain parts = ok_or (c.blake2b_var 32 (domain ++ concat parts)) snapshot_cryptography

  unfoldable pub sha256 : List ℕ → List ℕ → List ℕ
  sha256 domain body = c.sha256_digest (domain ++ body)

  -- `VerifyingKey::from_sec1_bytes(key).is_ok()`
  unfoldable pub valid_key : List ℕ → Bool
  valid_key key = elim (c.from_sec1_bytes key) [ none ↦ false | some k ↦ true ]

  unfoldable pub parse_low_s_signature :
      List ℕ → HrmPoolStatsError → Result HrmPoolStatsError c.Signature
  parse_low_s_signature input error = do
    reject (length input == 0 || ltb max_signature_bytes (length input)) error
    signature ← ok_or (c.from_der input) error
    reject
        (not (c.signature_eq signature (c.normalize_s signature))
          || not (bytes_eq (c.to_der signature) input))
        error
    ok signature

  -- `from_sec1_bytes(key).map_err(error)?.verify_prehash(hash, signature).map_err(error)`
  unfoldable pub verify_with :
      List ℕ → List ℕ → c.Signature → HrmPoolStatsError → Result HrmPoolStatsError (Unit {0})
  verify_with key hash signature error = do
    verifying_key ← ok_or (c.from_sec1_bytes key) error
    reject (not (c.verify_prehash verifying_key hash signature)) error
