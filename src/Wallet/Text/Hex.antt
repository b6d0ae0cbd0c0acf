-- ===== src/Wallet/Text/Hex.antt =====
-- Digests in lower-case hexadecimal.
use hns_dane_browser_extensi.Prelude.{
  ℕ, ◌*◌, ◌/◌, ◌%◌, ◌<◌, ◌≡◌, refl, true, List, [], ◌∷◌, length, all, ==_iff, arith,
}
use hns_dane_browser_extensi.Wallet.Text.{lower_hex, hex_digit, is_lower_hex, is_lower_hex_byte}

pub length-lower_hex : (bs : List ℕ) → length (lower_hex bs) ≡ 2 * length bs
unfolding lower_hex
length-lower_hex [] = omega arith
length-lower_hex (b ∷ bs) = omega (arith, length-lower_hex bs)

abbrev pub AllBytes : List ℕ → Type 0
AllBytes [] = Unit
AllBytes (b ∷ bs) = (b < 256) × AllBytes bs

hex_digit-lower : (n : ℕ) → n < 16 → is_lower_hex_byte (hex_digit n) ≡ true
hex_digit-lower n h = ground arith

lower_hex-lower : (bs : List ℕ) → AllBytes bs → all is_lower_hex_byte (lower_hex bs) ≡ true
unfolding lower_hex
lower_hex-lower [] h = refl
lower_hex-lower (b ∷ bs) (h, hs) =
    let high = hex_digit-lower (b / 16) (omega (arith, h)) in
    let low = hex_digit-lower (b % 16) (omega arith) in rw (high, low) (lower_hex-lower bs hs)

-- The text of a digest of `n` bytes is accepted as a digest of `2 * n` digits.
pub lower_hex-is_lower_hex :
    (n : ℕ) (bs : List ℕ) → length bs ≡ n → AllBytes bs → is_lower_hex (lower_hex bs) (2 * n) ≡ true
unfolding is_lower_hex
lower_hex-is_lower_hex n bs size h =
    let sized =
      (==_iff (length (lower_hex bs)) (2 * n)).1 (omega (arith, length-lower_hex bs, size)) in
    rw sized (lower_hex-lower bs h)
