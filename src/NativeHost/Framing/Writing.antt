-- ===== src/NativeHost/Framing/Writing.antt =====
-- What `write_native_message` hands to a writer that keeps everything.
use hns_dane_browser_extensi.Prelude.{
  ℕ, ◌≤◌, ◌<◌, ◌≡◌, refl, ap, ◌∙◌, Bool, false, Option, none, some, List, ◌++◌, length, ltb, ◌==◌,
  arith,
}
use hns_dane_browser_extensi.Prelude.Result.{ok}
use hns_dane_browser_extensi.NativeHost.Framing.{
  max_native_message_bytes, to_ne_bytes, Writer, write_native_message,
}
use hns_dane_browser_extensi.NativeHost.Framing.RoundTrip.{frame, append_assoc}

module _ {W : Type 0} where
  -- A writer that accepts all it is given and keeps it, as `Vec<u8>` does.
  pub record IsBuffer (writer : Writer W) (contents : W → List ℕ) : Type 0 where
    pub write_all_eq :
        (bs : List ℕ) (w : W)
        → (w' : W) × (writer.write_all bs w ≡ (none, w')) × (contents w' ≡ contents w ++ bs)
    pub flush_eq : (w : W) → (w' : W) × (writer.flush w ≡ (none, w')) × (contents w' ≡ contents w)

  -- A response of 1 to 262,144 bytes of JSON is written as its frame behind what the writer holds,
  -- to a writer that accepts and keeps everything.
  pub write_native_message-frame :
      {Response : Type 0} (writer : Writer W) (contents : W → List ℕ)
      (to_vec : Response → Option (List ℕ)) (big : Bool) (response : Response) (message : List ℕ)
      (w : W)
      → IsBuffer writer contents
      → to_vec response ≡ some message
      → 0 < length message
      → length message ≤ max_native_message_bytes
      → ((write_native_message writer to_vec big response w).0 ≡ ok tt)
        × (contents (write_native_message writer to_vec big response w).1
            ≡ contents w ++ frame big message)
  unfolding write_native_message
  write_native_message-frame writer contents to_vec big response message w b e p le =
      let (w1, run1, kept1) = b.write_all_eq (to_ne_bytes big (length message)) w in
      let (w2, run2, kept2) = b.write_all_eq message w1 in
      let (w3, run3, kept3) = b.flush_eq w2 in
      let not_empty : (length message == 0) ≡ false = ground (arith, p) in
      let fits : ltb max_native_message_bytes (length message) ≡ false = ground (arith, le) in
      rw (e, not_empty, fits, run1, run2, run3)
        (
          refl,
          kept3
              ∙ kept2
              ∙ ap (λ xs. xs ++ message) kept1
              ∙ append_assoc (contents w) (to_ne_bytes big (length message)) message,
        )
