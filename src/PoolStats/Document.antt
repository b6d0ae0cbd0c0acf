-- ===== src/PoolStats/Document.antt =====
-- `PoolStatsDocument` and `decode_lower_hex`. The JSON parser (serde_json) and the hexadecimal
-- decoder (hex) are other crates: they are the record `Formats`.
use Prim.Native.String.{String}
use hns_dane_browser_extensi.Prelude.{
  ℕ, ◌*◌, ◌%◌, Bool, ◌&&◌, ◌||◌, not, Option, List, length, all, leb, ltb, ◌==◌, bytes_eq,
}
use hns_dane_browser_extensi.Prelude.Result.{Result, ok, ok_or, reject, ◌>>=◌, ◌>>◌}
use hns_dane_browser_extensi.PoolStats.Error.{
  HrmPoolStatsError, invalid_document, max_document_bytes, experimental_profile_id,
}
use hns_dane_browser_extensi.PoolStats.Literals.{service_name, document_schema}

-- A `String` is its bytes.
pub record PoolStatsDocument : Type 0 where
  pub schema : List ℕ
  pub service : List ℕ
  pub application_profile_id : ℕ
  pub endpoint_delegation : List ℕ
  pub snapshot : List ℕ

pub record Formats : Type 0 where
  -- `serde_json::from_slice` into the struct, which denies unknown fields
  pub document_from_json : List ℕ → Option PoolStatsDocument
  -- `hex::decode`
  pub hex_decode : List ℕ → Option (List ℕ)

unfoldable pub decode_document : Formats → List ℕ → Result HrmPoolStatsError PoolStatsDocument
decode_document f input = do
  reject (length input == 0 || ltb max_document_bytes (length input))
      (invalid_document "invalid document size")
  document ← ok_or (f.document_from_json input) (invalid_document "invalid strict JSON document")
  reject
      (not (bytes_eq document.schema document_schema)
        || not (bytes_eq document.service service_name)
        || not (document.application_profile_id == experimental_profile_id))
      (invalid_document "unsupported schema, service, or application profile")
  ok document

abbrev pub is_lower_hex_byte : ℕ → Bool
is_lower_hex_byte b = (leb b'0' b && leb b b'9') || (leb b'a' b && leb b b'f')

unfoldable pub decode_lower_hex : Formats → List ℕ → ℕ → String → Result HrmPoolStatsError (List ℕ)
decode_lower_hex f input maximum_bytes message = do
  reject
      (length input == 0
        || ltb (maximum_bytes * 2) (length input)
        || not (length input % 2 == 0)
        || not (all is_lower_hex_byte input))
      (invalid_document message)
  ok_or (f.hex_decode input) (invalid_document message)
