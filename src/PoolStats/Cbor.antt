-- ===== src/PoolStats/Cbor.antt =====
-- The canonical CBOR preimage of a named-service identifier.
use Prim.Native.Nat.{bit_or}
use hns_dane_browser_extensi.Prelude.{
  ℕ, ◌*◌, ◌%◌, ◌^◌, List, [], ◌∷◌, ◌++◌, length, leb, if◌then◌else◌,
}
use hns_dane_browser_extensi.PoolStats.Bytes.{to_be_bytes}
use hns_dane_browser_extensi.PoolStats.Literals.{named_service_id_domain}
use hns_dane_browser_extensi.PoolStats.Crypto.{Crypto, sha256}

-- The functions append to `output`; `value as u8` and its like keep the low bytes.
unfoldable pub encode_cbor_unsigned : List ℕ → ℕ → List ℕ
encode_cbor_unsigned output value =
    if leb value 23
    then output ++ (value % 2 ^ 8) ∷ []
    else if leb value 255
    then output ++ 0x18 ∷ (value % 2 ^ 8) ∷ []
    else if leb value 0xffff
    then output ++ 0x19 ∷ to_be_bytes 2 (value % 2 ^ 16)
    else if leb value 0xffff_ffff
    then output ++ 0x1a ∷ to_be_bytes 4 (value % 2 ^ 32)
    else output ++ 0x1b ∷ to_be_bytes 8 value

unfoldable pub encode_cbor_length : List ℕ → ℕ → ℕ → List ℕ
encode_cbor_length output major len =
    let prefix = major * 2 ^ 5 % 2 ^ 8 in
    if leb len 23
    then output ++ bit_or prefix (len % 2 ^ 8) ∷ []
    else if leb len 255
    then output ++ bit_or prefix 24 ∷ (len % 2 ^ 8) ∷ []
    else if leb len 0xffff
    then output ++ bit_or prefix 25 ∷ to_be_bytes 2 (len % 2 ^ 16)
    else if leb len 0xffff_ffff
    then output ++ bit_or prefix 26 ∷ to_be_bytes 4 (len % 2 ^ 32)
    else output ++ bit_or prefix 27 ∷ to_be_bytes 8 len

unfoldable pub encode_cbor_bytes : List ℕ → List ℕ → List ℕ
encode_cbor_bytes output value = encode_cbor_length output 2 (length value) ++ value

unfoldable pub encode_cbor_text : List ℕ → List ℕ → List ℕ
encode_cbor_text output value = encode_cbor_length output 3 (length value) ++ value

-- The bytes that `named_service_resource_id` hashes.
unfoldable pub service_identifier : ℕ → List ℕ → List ℕ → ℕ → List ℕ
unfolding encode_cbor_unsigned encode_cbor_bytes encode_cbor_text encode_cbor_length
service_identifier magic name_hash service profile =
    let a = encode_cbor_unsigned (0xa4 ∷ 0 ∷ []) magic in
    let b = encode_cbor_bytes (a ++ 1 ∷ []) name_hash in
    let c = encode_cbor_text (b ++ 2 ∷ []) service in encode_cbor_unsigned (c ++ 3 ∷ []) profile

unfoldable pub named_service_resource_id : Crypto → ℕ → List ℕ → List ℕ → ℕ → List ℕ
named_service_resource_id c magic name_hash service profile =
    sha256 c named_service_id_domain (service_identifier magic name_hash service profile)
