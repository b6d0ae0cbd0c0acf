-- ===== src/PoolStats/Reader.antt =====
-- `Reader` of hrm.rs: a cursor over a byte slice.
pub mod Parses
use Prim.Native.String.{String}
use hns_dane_browser_extensi.Prelude.{
  ℕ, zero, suc, ◌+◌, ◌-◌, Bool, not, Option, none, some, List, [], ◌∷◌, length, take, drop, leb,
  ◌==◌, if◌then◌else◌, checked_add,
}
use hns_dane_browser_extensi.Prelude.Result.{Result, ok, err}
use hns_dane_browser_extensi.Prelude.Exec.{Exec, pure, gets, reject, ◌>>=◌, ◌>>◌}
use hns_dane_browser_extensi.PoolStats.Error.{
  HrmPoolStatsError, invalid_endpoint, invalid_snapshot, invalid_state,
}
use hns_dane_browser_extensi.PoolStats.Bytes.{from_le_bytes}

pub data ReaderKind : Type 0 where
  endpoint snapshot state : ReaderKind

pub record Reader : Type 0 where
  pub input : List ℕ
  pub offset : ℕ
  pub kind : ReaderKind

-- `Reader::endpoint`, `Reader::snapshot` and `Reader::state`
abbrev pub open_reader : ReaderKind → List ℕ → Reader
open_reader k bytes = record { input = bytes; offset = 0; kind = k }

abbrev pub error_of : ReaderKind → HrmPoolStatsError
error_of endpoint = invalid_endpoint "truncated or trailing bytes"
error_of snapshot = invalid_snapshot "truncated or trailing bytes"
error_of state = invalid_state

abbrev pub Read : Type 0 → Type 0
Read A = Exec Reader HrmPoolStatsError A

unfoldable pub read_bytes : ℕ → Read (List ℕ)
read_bytes n r = elim (checked_add r.offset n) [
  | none ↦ (err (error_of r.kind), r)
  | some end ↦
      if leb end (length r.input)
      then (ok (take (end - r.offset) (drop r.offset r.input)), record r { offset = end })
      else (err (error_of r.kind), r)
]

-- `try_into` compares the length of the slice with that of the array.
unfoldable pub read_array : ℕ → Read (List ℕ)
read_array n = do value ← read_bytes n; reject (not (length value == n)) invalid_state; pure value

-- `array[0]`, of an array of one byte
abbrev pub index_zero : List ℕ → ℕ
index_zero [] = 0
index_zero (b ∷ bs) = b

unfoldable pub read_u8 : Read ℕ
read_u8 = do value ← read_array 1; pure (index_zero value)

unfoldable pub read_u16 : Read ℕ
read_u16 = do value ← read_array 2; pure (from_le_bytes value)

unfoldable pub read_u32 : Read ℕ
read_u32 = do value ← read_array 4; pure (from_le_bytes value)

unfoldable pub read_u64 : Read ℕ
read_u64 = do value ← read_array 8; pure (from_le_bytes value)

unfoldable pub finish : Read (Unit {0})
finish r = if r.offset == length r.input then (ok tt, r) else (err (error_of r.kind), r)
