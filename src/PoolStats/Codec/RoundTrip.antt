-- ===== src/PoolStats/Codec/RoundTrip.antt =====
-- `decode` inverts `encode` on every state of the source's types, and accepts nothing else.
use hns_dane_browser_extensi.Prelude.{
  ℕ, ◌+◌, ◌-◌, ◌^◌, ◌≤◌, ◌<◌, ◌≡◌, refl, sym, ap, ◌∙◌, true, false, Bool-cases, inl, inr, List, [],
  ◌∷◌, ◌++◌, length, length-append, take, drop, take-append, drop-append, all, ltb, bytes_eq,
  bytes_eq_refl, bytes_eq→eq, arith,
}
use hns_dane_browser_extensi.Prelude.Result.{Result, ok, err}
use hns_dane_browser_extensi.PoolStats.Error.{
  HrmPoolStatsError, max_state_bytes, state_checksum_bytes, max_endpoint_histories,
  max_operator_histories,
}
use hns_dane_browser_extensi.PoolStats.Literals.{state_magic, state_checksum_domain}
use hns_dane_browser_extensi.PoolStats.Bytes.{to_le_bytes}
use hns_dane_browser_extensi.PoolStats.Crypto.{Crypto, IsBlake2b, blake2b_256}
use hns_dane_browser_extensi.PoolStats.Reader.{ReaderKind, open_reader}
use hns_dane_browser_extensi.PoolStats.Reader.Parses.{
  Parses, Parses-pure, Parses-bind, Parses-reject, Parses-map, Reads, Reads-bind, Reads-reject,
  Reads-finish, read_array-Parses, read_u8-Parses, read_u32-Parses, read_u64-Parses,
}
use hns_dane_browser_extensi.PoolStats.State.{
  StateStatus, active, conflicted, exhausted, EndpointState, OperatorState, HrmPoolStatsState,
  valid_shape, endpoint_valid,
}
use hns_dane_browser_extensi.PoolStats.Codec.{
  status_byte, read_status, endpoint_bytes, operator_bytes, payload, seal, encode, read_endpoints,
  read_operators, read_state, match_encoding, confirm_canonical, read_confirmed, decode_checked,
  decode,
}

-- The ranges that Rust's types give: `u32`, `u64`, `[u8; 32]`, `[u8; 33]`.
pub record EndpointTyped (e : EndpointState) : Type 0 where
  pub key_size : length e.endpoint_key ≡ 33
  pub sequence_range : e.sequence < 2 ^ 64
  pub delegation_size : length e.delegation_id ≡ 32

pub record OperatorTyped (o : OperatorState) : Type 0 where
  pub operator_size : length o.operator_id ≡ 32
  pub sequence_range : o.sequence < 2 ^ 64
  pub digest_size : length o.digest ≡ 32

abbrev pub All {ℓ} : {A : Type ℓ} → (A → Type 0) → List A → Type 0
All P [] = Unit
All P (x ∷ xs) = P x × All P xs

pub record IsTyped (s : HrmPoolStatsState) : Type 0 where
  pub generation_range : s.generation < 2 ^ 64
  pub time_range : s.trusted_time_high_water < 2 ^ 64
  pub magic_range : s.network_magic < 2 ^ 32
  pub name_size : length s.name_hash ≡ 32
  pub revision_range : s.authority_revision < 2 ^ 64
  pub sequence_range : s.hrm_sequence < 2 ^ 64
  pub envelope_size : length s.hrm_envelope_hash ≡ 32
  pub resource_size : length s.service_resource_id ≡ 32
  pub delegation_size : length s.service_delegation_id ≡ 32
  pub service_range : s.service_generation < 2 ^ 64
  pub endpoints_typed : All EndpointTyped s.endpoints
  pub operators_typed : All OperatorTyped s.operators

status-Parses : (t : StateStatus) → Parses (read_status (status_byte t)) [] t
unfolding read_status
status-Parses active = Parses-pure active
status-Parses conflicted = Parses-pure conflicted
status-Parses exhausted = Parses-pure exhausted

operators-Parses :
    (os : List OperatorState)
    → All OperatorTyped os
    → Parses (read_operators (length os)) (operator_bytes os) os
unfolding read_operators operator_bytes
operators-Parses [] h = Parses-pure []
operators-Parses (o ∷ os) (h, hs) =
    Parses-bind _ _ o.operator_id _ _ _ (read_array-Parses o.operator_id 32 h.operator_size) (
      Parses-bind _ _ (to_le_bytes 8 o.sequence) _ _ _ (read_u64-Parses o.sequence h.sequence_range)
        (Parses-bind _ _ o.digest _ _ _ (read_array-Parses o.digest 32 h.digest_size)
          (Parses-map _ _ _ os (operators-Parses os hs))))

module _ (c : Crypto) where
  endpoints-Parses :
      (es : List EndpointState)
      → All EndpointTyped es
      → all (endpoint_valid c) es ≡ true
      → Parses (read_endpoints c (length es)) (endpoint_bytes es) es
  unfolding read_endpoints endpoint_bytes
  endpoints-Parses [] h k = Parses-pure []
  endpoints-Parses (e ∷ es) (h, hs) k =
      Parses-bind _ _ e.endpoint_key _ _ _ (read_array-Parses e.endpoint_key 33 h.key_size) (
        Parses-bind _ _ (to_le_bytes 8 e.sequence) _ _ _
          (read_u64-Parses e.sequence h.sequence_range)
          (Parses-bind _ _ e.delegation_id _ _ _
            (read_array-Parses e.delegation_id 32 h.delegation_size)
            (Parses-reject _ _ _ _ _ (ground arith)
              (Parses-map _ _ _ es (endpoints-Parses es hs (ground arith))))))

  -- What `valid_shape` says of the two vectors.
  record Shaped (s : HrmPoolStatsState) : Type 0 where
    few_endpoints : ltb max_endpoint_histories (length s.endpoints) ≡ false
    keys_valid : all (endpoint_valid c) s.endpoints ≡ true
    few_operators : ltb max_operator_histories (length s.operators) ≡ false

  valid_shape-Shaped : (s : HrmPoolStatsState) → valid_shape c s ≡ true → Shaped s
  unfolding valid_shape
  valid_shape-Shaped s h = ground arith

  read_state-Reads :
      (s : HrmPoolStatsState) → IsTyped s → Shaped s → Reads (read_state c) (payload s) s
  unfolding read_state payload
  read_state-Reads s t h = Reads-bind _ _ state_magic _ _ _ (read_array-Parses state_magic 4 refl) (
      Reads-reject _ _ _ _ _ (ground (arith, bytes_eq_refl state_magic)) (
        Reads-bind _ _ (2 ∷ []) _ _ _ (read_u8-Parses 2) (
          Reads-reject _ _ _ _ _ refl (
            Reads-bind _ _ _ _ _ _ (read_u64-Parses s.generation t.generation_range) (
              Reads-bind _ _ _ _ _ _ (read_u64-Parses s.trusted_time_high_water t.time_range) (
                Reads-bind _ _ _ _ _ _ (read_u8-Parses (status_byte s.status)) (
                  Reads-bind _ _ [] _ _ _ (status-Parses s.status) (
                    Reads-bind _ _ _ _ _ _ (read_u32-Parses s.network_magic t.magic_range) (
                      Reads-bind _ _ s.name_hash _ _ _
                        (read_array-Parses s.name_hash 32 t.name_size)
                        (Reads-bind _ _ _ _ _ _
                          (read_u64-Parses s.authority_revision t.revision_range)
                          (Reads-bind _ _ _ _ _ _ (read_u64-Parses s.hrm_sequence t.sequence_range)
                            (Reads-bind _ _ _ _ _ _
                              (read_array-Parses s.hrm_envelope_hash 32 t.envelope_size)
                              (Reads-bind _ _ _ _ _ _
                                (read_array-Parses s.service_resource_id 32 t.resource_size)
                                (Reads-bind _ _ _ _ _ _
                                  (read_array-Parses s.service_delegation_id 32 t.delegation_size)
                                  (Reads-bind _ _ _ _ _ _
                                    (read_u64-Parses s.service_generation t.service_range)
                                    (Reads-bind _ _ _ _ _ _ (read_u8-Parses (length s.endpoints)) (
                                      Reads-reject _ _ _ _ _ h.few_endpoints (
                                        Reads-bind _ _ (endpoint_bytes s.endpoints) _ _ _
                                          (endpoints-Parses s.endpoints t.endpoints_typed
                                            h.keys_valid)
                                          (Reads-bind _ _ _ _ _ _
                                            (read_u8-Parses (length s.operators))
                                            (Reads-reject _ _ _ _ _ h.few_operators (
                                              Reads-bind _ _ (operator_bytes s.operators) _ _ _
                                                (operators-Parses s.operators t.operators_typed)
                                                (Reads-finish s))))))))))))))))))))))

  module _ (b : IsBlake2b c) where
    checksum_of : List ℕ → List ℕ
    checksum_of body = b.digest (state_checksum_domain ++ (body ++ []))

    blake_eq :
        (body : List ℕ) → blake2b_256 c state_checksum_domain (body ∷ []) ≡ ok (checksum_of body)
    unfolding blake2b_256 checksum_of
    blake_eq body = rw b.digest_eq

    -- What a successful `encode` has tested and returned.
    record Encoded (s : HrmPoolStatsState) (bytes : List ℕ) : Type 0 where
      shape : valid_shape c s ≡ true
      size : length (payload s) + 32 ≤ max_state_bytes
      bytes_eq : bytes ≡ payload s ++ checksum_of (payload s)

    seal-eq : (body bytes : List ℕ) → seal c body ≡ ok bytes → bytes ≡ body ++ checksum_of body
    unfolding seal
    seal-eq body bytes h = ground (arith, blake_eq body)

    encode-Encoded :
        (s : HrmPoolStatsState) (bytes : List ℕ) → encode c s ≡ ok bytes → Encoded s bytes
    unfolding encode
    encode-Encoded s bytes h = ground (arith, seal-eq (payload s) bytes)

    -- The body and the checksum, cut apart again.
    cut_body :
        (body sum : List ℕ)
        → length sum ≡ 32
        → take (length (body ++ sum) - 32) (body ++ sum) ≡ body
    cut_body body sum h =
        let e : length (body ++ sum) - 32 ≡ length body = omega (arith, length-append body sum) in
        rw e (take-append body sum)

    cut_checksum :
        (body sum : List ℕ) → length sum ≡ 32 → drop (length (body ++ sum) - 32) (body ++ sum) ≡ sum
    cut_checksum body sum h =
        let e : length (body ++ sum) - 32 ≡ length body = omega (arith, length-append body sum) in
        rw e (drop-append body sum)

    confirmed :
        (s : HrmPoolStatsState) (bytes : List ℕ)
        → valid_shape c s ≡ true
        → encode c s ≡ ok bytes
        → confirm_canonical c bytes s ≡ ok s
    unfolding confirm_canonical
    confirmed s bytes shape h = ground (arith, bytes_eq_refl bytes)

    read_back :
        (s : HrmPoolStatsState)
        → IsTyped s
        → valid_shape c s ≡ true
        → length (payload s) + 32 ≤ max_state_bytes
        → (read_state c (open_reader ReaderKind.state (payload s))).0 ≡ ok s
    read_back s t shape size =
        (read_state-Reads s t (valid_shape-Shaped s shape)).run _
          (record { left_eq = refl; inside = omega arith; fits = omega arith })

    decode_sealed :
        (s : HrmPoolStatsState) (bytes : List ℕ)
        → IsTyped s
        → encode c s ≡ ok bytes
        → Encoded s bytes
        → decode_checked c bytes
            (payload s)
            (checksum_of (payload s))
            (ok (checksum_of (payload s)))
          ≡ ok s
    unfolding decode_checked
    decode_sealed s bytes t h k =
        rw (bytes_eq_refl (checksum_of (payload s)), read_back s t k.shape k.size)
          (confirmed s bytes k.shape h)

    decode_cut :
        (body sum : List ℕ)
        → length sum ≡ 32
        → 0 < length body
        → length body + 32 ≤ max_state_bytes
        → decode c (body ++ sum) ≡ decode_checked c (body ++ sum) body sum (ok (checksum_of body))
    unfolding decode
    decode_cut body sum h pos size =
        ground (
          arith,
          length-append body sum,
          cut_body body sum h,
          cut_checksum body sum h,
          blake_eq body,
        )

    payload-pos : (s : HrmPoolStatsState) → 0 < length (payload s)
    unfolding payload
    payload-pos s = omega arith

    -- A state within the ranges of its types that `encode` accepts is what `decode` returns for the
    -- bytes that `encode` gave, with BLAKE2b as documented.
    pub decode-encode :
        (s : HrmPoolStatsState) (bytes : List ℕ)
        → IsTyped s
        → encode c s ≡ ok bytes
        → decode c bytes ≡ ok s
    decode-encode s bytes t h =
        let k = encode-Encoded s bytes h in
        let sum = checksum_of (payload s) in
        ap (decode c) k.bytes_eq
        ∙ decode_cut (payload s) sum (unfold checksum_of in b.length-digest _) (payload-pos s)
            k.size
        ∙ ap (λ x. decode_checked c x (payload s) sum (ok sum)) (sym k.bytes_eq)
        ∙ decode_sealed s bytes t h k

  match_encoding-ok :
      (bytes : List ℕ) (t s : HrmPoolStatsState) (m : Result HrmPoolStatsError (List ℕ))
      → match_encoding bytes t m ≡ ok s
      → (m ≡ ok bytes) × (t ≡ s)
  match_encoding-ok bytes t s (ok again) h = ground (arith, bytes_eq→eq again bytes)
  match_encoding-ok bytes t s (err e) h = cc

  confirm-canonical :
      (bytes : List ℕ) (t s : HrmPoolStatsState)
      → confirm_canonical c bytes t ≡ ok s
      → (encode c s ≡ ok bytes) × (valid_shape c s ≡ true)
  unfolding confirm_canonical
  confirm-canonical bytes t s h = elim (Bool-cases (valid_shape c t)) [
    | inl shape ↦
        let (e, same) =
          match_encoding-ok bytes t s (encode c t) (rw (shape, confirm_canonical) at h) in
        (rw (← same) e, rw (← same) shape)
    | inr bad ↦ cc (rw (bad, confirm_canonical) at h)
  ]

  confirmed_read :
      (bytes : List ℕ) (m : Result HrmPoolStatsError HrmPoolStatsState) (s : HrmPoolStatsState)
      → read_confirmed c bytes m ≡ ok s
      → (encode c s ≡ ok bytes) × (valid_shape c s ≡ true)
  unfolding read_confirmed
  confirmed_read bytes (ok t) s h = confirm-canonical bytes t s h
  confirmed_read bytes (err e) s h = cc

  decode_checked-canonical :
      (bytes body sum : List ℕ) (m : Result HrmPoolStatsError (List ℕ)) (s : HrmPoolStatsState)
      → decode_checked c bytes body sum m ≡ ok s
      → (encode c s ≡ ok bytes) × (valid_shape c s ≡ true)
  unfolding decode_checked
  decode_checked-canonical bytes body sum (err e) s h = cc
  decode_checked-canonical bytes body sum (ok computed) s h =
      elim (Bool-cases (bytes_eq computed sum)) [
        | inl good ↦ confirmed_read bytes _ s (rw (good, decode_checked) at h)
        | inr bad ↦ cc (rw (bad, decode_checked) at h)
      ]

  -- Whatever bytes `decode` accepts are the encoding of the state that it returns, which has a
  -- valid shape: no two byte strings stand for one state.
  pub encode-decode :
      (bytes : List ℕ) (s : HrmPoolStatsState)
      → decode c bytes ≡ ok s
      → (encode c s ≡ ok bytes) × (valid_shape c s ≡ true)
  unfolding decode
  encode-decode bytes s h =
      let n = length bytes - state_checksum_bytes in
      let body = take n bytes in
      ground (
        arith,
        decode_checked-canonical bytes body (drop n bytes)
            (blake2b_256 c state_checksum_domain (body ∷ [])) s,
      )
