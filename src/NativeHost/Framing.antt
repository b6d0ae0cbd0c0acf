-- ===== src/NativeHost/Framing.antt =====
-- `read_native_message` and `write_native_message` of lib.rs: frames of a length and a message.
pub mod RoundTrip
pub mod Writing
use mathlib.Core.List.{reverse}
use Prim.Native.String.{String}
use hns_dane_browser_extensi.Prelude.{
  ℕ, zero, suc, ◌-◌, ◌*◌, Bool, true, false, Option, none, some, List, [], ◌∷◌, ◌++◌, length, take,
  drop, ltb, leb, ◌==◌, if◌then◌else◌,
}
use hns_dane_browser_extensi.Prelude.Result.{Result, ok, err}
use hns_dane_browser_extensi.PoolStats.Bytes.{to_le_bytes, from_le_bytes}

abbrev pub max_native_message_bytes : ℕ
max_native_message_bytes = 256 * 1024

-- An `io::Error` is a number, and a `serde_json::Error` is not told apart.
pub data NativeHostError : Type 0 where
  truncated_length truncated_message empty_message message_too_large : NativeHostError
  read write : ℕ → NativeHostError
  serialize : NativeHostError
  runtime : String → NativeHostError
  session_generation : NativeHostError
  local_ca manifest : String → NativeHostError

-- What the calls of `Read::read` meet one after the other. A read that asks for less than what
-- arrived leaves the rest to the next one; a read of an empty chunk, or past the last event,
-- returns `Ok(0)`.
pub data ReadEvent : Type 0 where
  arrives : List ℕ → ReadEvent
  interrupted : ReadEvent
  fails : ℕ → ReadEvent

abbrev pub left_over : List ℕ → List ReadEvent → List ReadEvent
left_over [] es = es
left_over (b ∷ bs) es = arrives (b ∷ bs) ∷ es

-- How the reads into a buffer end: it is full, the input ended with the buffer partly filled, or a
-- read failed.
pub data Fill : Type 0 where
  filled : List ℕ → List ReadEvent → Fill
  ended : List ℕ → List ReadEvent → Fill
  failed : ℕ → List ReadEvent → Fill

abbrev pub behind : List ℕ → Fill → Fill
behind bs (filled cs es) = filled (bs ++ cs) es
behind bs (ended cs es) = ended (bs ++ cs) es
behind bs (failed e es) = failed e es

-- The loop `while offset < n`, which is also that of `read_exact`.
unfoldable pub fill : ℕ → List ReadEvent → Fill
fill n [] = ended [] []
fill n (interrupted ∷ es) = fill n es
fill n (fails e ∷ es) = failed e es
fill n (arrives bs ∷ es) =
    let more = fill (n - length bs) es in
    if length bs == 0
    then ended [] es
    else if leb n (length bs)
    then filled (take n bs) (left_over (drop n bs) es)
    else behind bs more

-- `u32::from_ne_bytes` and `to_ne_bytes`, on a host of either byte order.
abbrev pub in_order : Bool → List ℕ → List ℕ
in_order big bs = if big then reverse bs else bs

unfoldable pub from_ne_bytes : Bool → List ℕ → ℕ
from_ne_bytes big bs = from_le_bytes (in_order big bs)

unfoldable pub to_ne_bytes : Bool → ℕ → List ℕ
to_ne_bytes big n = in_order big (to_le_bytes 4 n)

-- The number of the errors of kind `UnexpectedEof`, which `read_exact` also ends with.
abbrev pub unexpected_eof : ℕ
unexpected_eof = 0

abbrev pub message_of : Fill → Result NativeHostError (Option (List ℕ)) × List ReadEvent
message_of (filled message es) = (ok (some message), es)
message_of (ended got es) = (err truncated_message, es)
message_of (failed e es) = (err (if e == unexpected_eof then truncated_message else read e), es)

unfoldable pub read_body :
    ℕ → List ReadEvent → Result NativeHostError (Option (List ℕ)) × List ReadEvent
read_body n es =
    if n == 0
    then (err empty_message, es)
    else if ltb max_native_message_bytes n
    then (err message_too_large, es)
    else message_of (fill n es)

abbrev pub after_length : Bool → Fill → Result NativeHostError (Option (List ℕ)) × List ReadEvent
after_length big (filled length_bytes es) = read_body (from_ne_bytes big length_bytes) es
after_length big (ended [] es) = (ok none, es)
after_length big (ended (b ∷ bs) es) = (err truncated_length, es)
after_length big (failed e es) = (err (read e), es)

unfoldable pub read_native_message :
    Bool → List ReadEvent → Result NativeHostError (Option (List ℕ)) × List ReadEvent
read_native_message big es = after_length big (fill 4 es)

-- The caller's `Write`.
pub record Writer (W : Type 0) : Type 0 where
  pub write_all : List ℕ → W → Option ℕ × W
  pub flush : W → Option ℕ × W

module _ {W : Type 0} (writer : Writer W) where
  -- `.and_then(...)` and the final `map_err(NativeHostError::Write)`; `none` is success.
  abbrev pub and_then : Option ℕ × W → (W → Option ℕ × W) → Option ℕ × W
  and_then (none, w) next = next w
  and_then (some e, w) next = (some e, w)

  abbrev pub map_write : Option ℕ × W → Result NativeHostError (Unit {0}) × W
  map_write (none, w) = (ok tt, w)
  map_write (some e, w) = (err (write e), w)

  abbrev pub write_frame : Bool → List ℕ → W → Option ℕ × W
  write_frame big message w =
      and_then
        (and_then (writer.write_all (to_ne_bytes big (length message)) w)
          (writer.write_all message))
        writer.flush

  -- `to_vec` is `serde_json::to_vec` of the response. A length that passes the test fits 32 bits.
  abbrev pub write_message : Bool → Option (List ℕ) → W → Result NativeHostError (Unit {0}) × W
  write_message big none w = (err serialize, w)
  write_message big (some message) w =
      if length message == 0
      then (err empty_message, w)
      else if ltb max_native_message_bytes (length message)
      then (err message_too_large, w)
      else map_write (write_frame big message w)

  unfoldable pub write_native_message :
      {Response : Type 0}
      → (Response → Option (List ℕ))
      → Bool
      → Response
      → W
      → Result NativeHostError (Unit {0}) × W
  write_native_message to_vec big response w = write_message big (to_vec response) w
