-- ===== src/Daemon/PinKeys/RoundTrip.antt =====
-- A key survives its text.
use rato.Prelude.{
  ℕ, ◌+◌, ◌*◌, ◌/◌, ◌%◌, ◌<◌, ◌≡◌, refl, ap, some, List, [], ◌∷◌, arith, length, All,
}
use rato.Prelude.Result.{ok}
use rato.Daemon.PinKeys.{hex_digit, encode_hex, hex_nibble, push_byte, decode_pairs, decode_hex_32}

hex_nibble-hex_digit : (d : ℕ) → d < 16 → hex_nibble (hex_digit d) ≡ some d
unfolding hex_nibble
hex_nibble-hex_digit d h = ground (arith, h)

nibbles : (b : ℕ) → b < 256 → (b / 16 < 16) × (b % 16 < 16) × (b / 16 * 16 + b % 16 ≡ b)
nibbles b h = (omega (arith, h), omega (arith, h), omega (arith, h))

length-encode_hex : (bs : List ℕ) → length (encode_hex bs) ≡ length bs + length bs
unfolding encode_hex
length-encode_hex [] = omega arith
length-encode_hex (b ∷ bs) = omega (arith, length-encode_hex bs)

decode_pairs-encode_hex :
    (bs : List ℕ) → All (λ b. b < 256) bs → decode_pairs (encode_hex bs) ≡ some bs
unfolding decode_pairs encode_hex
decode_pairs-encode_hex [] h = refl
decode_pairs-encode_hex (b ∷ bs) h =
    let (high, low, whole) = nibbles b h.0 in
    rw
      (
        hex_nibble-hex_digit (b / 16) high,
        hex_nibble-hex_digit (b % 16) low,
        decode_pairs-encode_hex bs h.1,
      )
      (unfold push_byte in ap (λ n. some (n ∷ bs)) whole)

-- A key of 32 bytes is read back as it was written.
pub decode_hex_32-encode_hex :
    (bs : List ℕ) → length bs ≡ 32 → All (λ b. b < 256) bs → decode_hex_32 (encode_hex bs) ≡ ok bs
unfolding decode_hex_32
decode_hex_32-encode_hex bs l h = rw (length-encode_hex bs, l, decode_pairs-encode_hex bs h)
