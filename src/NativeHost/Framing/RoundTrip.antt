-- ===== src/NativeHost/Framing/RoundTrip.antt =====
-- A frame is read back whole, however its bytes arrive.
use mathlib.Core.List.{reverse-reverse}
use hns_dane_browser_extensi.Prelude.{
  ℕ, zero, suc, ◌-◌, ◌≤◌, ◌<◌, ◌^◌, ◌≡◌, refl, sym, ap, ◌∙◌, Bool, true, false, inl, inr,
  Bool-cases, leb→le, some, List, [], ◌∷◌, ◌++◌, length, length-append, take, drop, take-append,
  drop-append, ltb, leb, ◌==◌, arith,
}
use hns_dane_browser_extensi.Prelude.Result.{ok}
use hns_dane_browser_extensi.PoolStats.Bytes.{to_le_bytes, from_le_bytes, from_le_bytes-to_le_bytes}
use hns_dane_browser_extensi.NativeHost.Framing.{
  max_native_message_bytes, ReadEvent, arrives, interrupted, fails, left_over, filled, fill,
  from_ne_bytes, to_ne_bytes, read_body, after_length, read_native_message,
}

-- The bytes that a reader delivers.
unfoldable pub delivered : List ReadEvent → List ℕ
delivered [] = []
delivered (arrives bs ∷ es) = bs ++ delivered es
delivered (interrupted ∷ es) = delivered es
delivered (fails e ∷ es) = delivered es

-- A reader without failures: chunks of at least a byte, and interruptions.
abbrev pub IsSteady : List ReadEvent → Type 0
IsSteady [] = Unit
IsSteady (arrives bs ∷ es) = (0 < length bs) × IsSteady es
IsSteady (interrupted ∷ es) = IsSteady es
IsSteady (fails e ∷ es) = 0 < 0

left_over-delivered :
    (bs : List ℕ) (es : List ReadEvent) → delivered (left_over bs es) ≡ bs ++ delivered es
unfolding delivered
left_over-delivered [] es = refl
left_over-delivered (b ∷ bs) es = refl

left_over-IsSteady : (bs : List ℕ) (es : List ReadEvent) → IsSteady es → IsSteady (left_over bs es)
left_over-IsSteady [] es h = h
left_over-IsSteady (b ∷ bs) es h = (omega arith, h)

-- A prefix of two strings in a row lies in the first one, or goes into the second.
module _ (ds : List ℕ) where
  take_within : (n : ℕ) (bs : List ℕ) → n ≤ length bs → take n (bs ++ ds) ≡ take n bs
  take_within zero bs h = refl
  take_within (suc n) [] h = ground arith
  take_within (suc n) (b ∷ bs) h = ap (λ r. b ∷ r) (take_within n bs (omega (arith, h)))

  drop_within : (n : ℕ) (bs : List ℕ) → n ≤ length bs → drop n (bs ++ ds) ≡ drop n bs ++ ds
  drop_within zero bs h = refl
  drop_within (suc n) [] h = ground arith
  drop_within (suc n) (b ∷ bs) h = drop_within n bs (omega (arith, h))

  take_beyond :
      (n : ℕ) (bs : List ℕ) → length bs ≤ n → take n (bs ++ ds) ≡ bs ++ take (n - length bs) ds
  take_beyond n [] h = ap (λ k. take k ds) (omega arith)
  take_beyond zero (b ∷ bs) h = ground arith
  take_beyond (suc n) (b ∷ bs) h =
      let e : suc n - suc (length bs) ≡ n - length bs = omega arith in
      rw e (ap (λ r. b ∷ r) (take_beyond n bs (omega (arith, h))))

  drop_beyond : (n : ℕ) (bs : List ℕ) → length bs ≤ n → drop n (bs ++ ds) ≡ drop (n - length bs) ds
  drop_beyond n [] h = ap (λ k. drop k ds) (omega arith)
  drop_beyond zero (b ∷ bs) h = ground arith
  drop_beyond (suc n) (b ∷ bs) h =
      let e : suc n - suc (length bs) ≡ n - length bs = omega arith in
      rw e (drop_beyond n bs (omega (arith, h)))

-- The loop fills the buffer with `xs`, and what is left delivers `ys`.
record FillsWith (n : ℕ) (es : List ReadEvent) (xs ys : List ℕ) : Type 0 where
  rest : List ReadEvent
  fill_eq : fill n es ≡ filled xs rest
  rest_delivers : delivered rest ≡ ys
  rest_steady : IsSteady rest

-- However the bytes arrive, the loop takes the first `n` of them.
steady-FillsWith :
    (n : ℕ) (es : List ReadEvent)
    → 0 < n
    → IsSteady es
    → n ≤ length (delivered es)
    → FillsWith n es (take n (delivered es)) (drop n (delivered es))
unfolding fill delivered
steady-FillsWith n [] p h le = ground (arith, p, le)
steady-FillsWith n (interrupted ∷ es) p h le =
    let k = steady-FillsWith n es p h le in
    record {
      rest = k.rest;
      fill_eq = k.fill_eq;
      rest_delivers = k.rest_delivers;
      rest_steady = k.rest_steady;
    }
steady-FillsWith n (fails e ∷ es) p h le = ground (arith, h)
steady-FillsWith n (arrives bs ∷ es) p (some_bytes, h) le = elim (Bool-cases (leb n (length bs))) [
  | inl enough ↦
      let room = leb→le _ _ enough in
      rw (take_within (delivered es) n bs room, drop_within (delivered es) n bs room)
        (record {
          rest = left_over (drop n bs) es;
          fill_eq = rw (nonempty (length bs) some_bytes, enough) refl;
          rest_delivers = left_over-delivered (drop n bs) es;
          rest_steady = left_over-IsSteady (drop n bs) es h;
        })
  | inr short ↦
      let over : length bs ≤ n = ground (arith, short) in
      let k =
        steady-FillsWith (n - length bs) es (ground (arith, short)) h
          (ground (arith, le, over, length-append bs (delivered es))) in
      rw (take_beyond (delivered es) n bs over, drop_beyond (delivered es) n bs over)
        (record {
          rest = k.rest;
          fill_eq = rw (nonempty (length bs) some_bytes, short, k.fill_eq) refl;
          rest_delivers = k.rest_delivers;
          rest_steady = k.rest_steady;
        })
]
  where
    nonempty : (m : ℕ) → 0 < m → (m == 0) ≡ false
    nonempty m h = ground arith

ne_bytes : (big : Bool) (n : ℕ) → n < 2 ^ 32 → from_ne_bytes big (to_ne_bytes big n) ≡ n
unfolding from_ne_bytes to_ne_bytes
ne_bytes true n h =
    ap from_le_bytes (reverse-reverse (to_le_bytes 4 n)) ∙ from_le_bytes-to_le_bytes 4 n h
ne_bytes false n h = from_le_bytes-to_le_bytes 4 n h

length-to_ne_bytes : (big : Bool) (n : ℕ) → length (to_ne_bytes big n) ≡ 4
unfolding to_ne_bytes to_le_bytes
length-to_ne_bytes true n = refl
length-to_ne_bytes false n = refl

pub append_assoc : (xs ys zs : List ℕ) → (xs ++ ys) ++ zs ≡ xs ++ (ys ++ zs)
append_assoc [] ys zs = refl
append_assoc (x ∷ xs) ys zs = ap (λ r. x ∷ r) (append_assoc xs ys zs)

-- The frame of a message.
abbrev pub frame : Bool → List ℕ → List ℕ
frame big message = to_ne_bytes big (length message) ++ message

-- The read that returns `message` and leaves a reader that delivers `ys`.
pub record Returns (big : Bool) (es : List ReadEvent) (message ys : List ℕ) : Type 0 where
  pub rest : List ReadEvent
  pub read_eq : read_native_message big es ≡ (ok (some message), rest)
  pub rest_delivers : delivered rest ≡ ys
  pub rest_steady : IsSteady rest

prefix-FillsWith :
    (n : ℕ) (xs ys : List ℕ) (es : List ReadEvent)
    → length xs ≡ n
    → 0 < n
    → IsSteady es
    → delivered es ≡ xs ++ ys
    → FillsWith n es xs ys
prefix-FillsWith n xs ys es size p h e =
    let k = steady-FillsWith n es p h (rw e (omega (arith, length-append xs ys, size))) in
    let taken = ap (take n) e ∙ ap (λ m. take m (xs ++ ys)) (sym size) ∙ take-append xs ys in
    let dropped = ap (drop n) e ∙ ap (λ m. drop m (xs ++ ys)) (sym size) ∙ drop-append xs ys in
    record {
      rest = k.rest;
      fill_eq = k.fill_eq ∙ ap (λ zs. filled zs k.rest) taken;
      rest_delivers = k.rest_delivers ∙ dropped;
      rest_steady = k.rest_steady;
    }

read_body-some :
    (n : ℕ) (es rest : List ReadEvent) (message : List ℕ)
    → 0 < n
    → n ≤ max_native_message_bytes
    → fill n es ≡ filled message rest
    → read_body n es ≡ (ok (some message), rest)
unfolding read_body
read_body-some n es rest message p le h =
    let not_zero : (n == 0) ≡ false = ground (arith, p) in
    let fits : ltb max_native_message_bytes n ≡ false = ground (arith, le) in
    rw (not_zero, fits, h) refl

-- A frame of a message of 1 to 262,144 bytes is read back as that message, on a host of either byte
-- order and however its bytes arrive: in chunks of any size, with interruptions, and with other
-- frames behind it. What follows the frame is left for the next read.
pub read_native_message-frame :
    (big : Bool) (message ys : List ℕ) (es : List ReadEvent)
    → 0 < length message
    → length message ≤ max_native_message_bytes
    → IsSteady es
    → delivered es ≡ frame big message ++ ys
    → Returns big es message ys
unfolding read_native_message
read_native_message-frame big message ys es p le h e =
    let size = to_ne_bytes big (length message) in
    let joined : delivered es ≡ size ++ (message ++ ys) = e ∙ append_assoc size message ys in
    let first =
      prefix-FillsWith 4 size (message ++ ys) es (length-to_ne_bytes big (length message))
        (omega arith) h joined in
    let second =
      prefix-FillsWith (length message) message ys first.rest refl p first.rest_steady
        first.rest_delivers in
    record {
      rest = second.rest;
      read_eq =
          ap (after_length big) first.fill_eq
          ∙ ap (λ n. read_body n first.rest) (ne_bytes big (length message) (omega (arith, le)))
          ∙ read_body-some (length message) first.rest second.rest message p le second.fill_eq;
      rest_delivers = second.rest_delivers;
      rest_steady = second.rest_steady;
    }
