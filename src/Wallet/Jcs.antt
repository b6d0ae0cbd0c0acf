-- ===== src/Wallet/Jcs.antt =====
-- The canonical JSON writer `write_jcs_value` of wallet_abi.rs.
use hns_dane_browser_extensi.Prelude.{
  ℕ, zero, suc, ◌+◌, ◌/◌, ◌%◌, Bool, true, false, Option, none, some, List, [], ◌∷◌, ◌++◌, ltb,
  bytes_lt, bytes_eq, if◌then◌else◌,
}
use hns_dane_browser_extensi.PoolStats.Literals.{ascii}

-- `serde_json::Value`. A number is what `as_u64` gives of it.
mutual
  pub data Value : Type 0 where
    null : Value
    boolean : Bool → Value
    number : Option ℕ → Value
    string : List ℕ → Value
    array : Values → Value
    object : Fields → Value

  pub data Values : Type 0 where
    nil : Values
    cons : Value → Values → Values

  pub data Fields : Type 0 where
    end : Fields
    field : List ℕ → Value → Fields → Fields

-- `serde_json::to_writer` of a string, and `encode_utf16`.
pub record Strings : Type 0 where
  pub write_string : List ℕ → Option (List ℕ)
  pub encode_utf16 : List ℕ → List ℕ

-- `number.to_string()`, on fuel that the number itself is enough for.
abbrev pub decimal_digits : ℕ → ℕ → List ℕ → List ℕ
decimal_digits zero n digits = digits
decimal_digits (suc fuel) n digits =
    let rest = decimal_digits fuel (n / 10) ((48 + n % 10) ∷ digits) in
    if ltb n 10 then (48 + n) ∷ digits else rest

unfoldable pub to_decimal : ℕ → List ℕ
to_decimal n = decimal_digits (n + 1) n []

-- A key with what was written for it and for its value, if that could be written.
pub record Member : Type 0 where
  pub key : List ℕ
  pub written_key : Option (List ℕ)
  pub written_value : Option (List ℕ)

abbrev pub append_all : Option (List ℕ) → List ℕ → Option (List ℕ) → Option (List ℕ)
append_all (some a) between (some b) = some (a ++ (between ++ b))
append_all (some a) between none = none
append_all none between b = none

-- The elements in their order, with commas between them.
abbrev pub join_elements : List (Option (List ℕ)) → Option (List ℕ)
join_elements [] = some []
join_elements (a ∷ []) = a
join_elements (a ∷ b ∷ r) = append_all a (b',' ∷ []) (join_elements (b ∷ r))

abbrev pub written_member : Member → Option (List ℕ)
written_member m = append_all m.written_key (b':' ∷ []) m.written_value

abbrev pub join_members : List Member → Option (List ℕ)
join_members [] = some []
join_members (m ∷ []) = written_member m
join_members (m ∷ n ∷ r) = append_all (written_member m) (b',' ∷ []) (join_members (n ∷ r))

abbrev pub enclose : ℕ → ℕ → Option (List ℕ) → Option (List ℕ)
enclose opening closing none = none
enclose opening closing (some bytes) = some (opening ∷ (bytes ++ closing ∷ []))

module _ (s : Strings) where
  -- `keys.sort_by(...)`
  unfoldable pub insert_member : Member → List Member → List Member
  insert_member m [] = m ∷ []
  insert_member m (n ∷ r) =
      let rest = insert_member m r in
      if bytes_lt (s.encode_utf16 n.key) (s.encode_utf16 m.key) then n ∷ rest else m ∷ n ∷ r

  unfoldable pub sort_members : List Member → List Member
  unfolding insert_member
  sort_members [] = []
  sort_members (m ∷ r) = insert_member m (sort_members r)

  abbrev write_number : Option ℕ → Option (List ℕ)
  write_number none = none
  write_number (some n) = some (to_decimal n)

  abbrev write_boolean : Bool → List ℕ
  write_boolean false = ascii "false"
  write_boolean true = ascii "true"

  -- `none` is the result `false`, after which the output is dropped. The values are written before
  -- the keys are sorted, which writes the same bytes.
  unfoldable mutual
    pub write_jcs_value : Value → Option (List ℕ)
    write_jcs_value null = some (ascii "null")
    write_jcs_value (boolean b) = some (write_boolean b)
    write_jcs_value (number n) = write_number n
    write_jcs_value (string text) = s.write_string text
    write_jcs_value (array values) = enclose b'[' b']' (join_elements (write_values values))
    write_jcs_value (object fields) =
        enclose b'{' b'}' (join_members (sort_members (write_fields fields)))

    pub write_values : Values → List (Option (List ℕ))
    write_values nil = []
    write_values (cons v vs) = write_jcs_value v ∷ write_values vs

    pub write_fields : Fields → List Member
    write_fields end = []
    write_fields (field k v fs) =
        record { key = k; written_key = s.write_string k; written_value = write_jcs_value v }
        ∷ write_fields fs

  unfoldable pub jcs_value_bytes : Value → Option (List ℕ)
  jcs_value_bytes v = write_jcs_value v

-- `as_object_mut()?.remove(key)?` on an object.
abbrev pub remove_field : List ℕ → Fields → Option Fields
remove_field k end = none
remove_field k (field j v fs) =
    let rest : Option Fields = elim (remove_field k fs) [
      | none ↦ none
      | some gs ↦ some (field j v gs)
    ] in
    if bytes_eq j k then some fs else rest
