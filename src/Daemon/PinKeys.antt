-- ===== src/Daemon/PinKeys.antt =====
-- crates/rat-daemon/src/pins.rs, the key of a pin as text: 32 bytes as 64 hexadecimal digits. A text is
-- its bytes. `(hi << 4) | lo` is `hi * 16 + lo`, since both are below 16.
pub mod RoundTrip
use rato.Prelude.{
  ℕ, zero, suc, ◌+◌, ◌-◌, ◌*◌, ◌/◌, ◌%◌, Bool, ◌&&◌, Option, none, some, List, [], ◌∷◌,
  if◌then◌else◌, ltb, leb, eqb, length,
}
use rato.Prelude.Result.{Result, ok, err}

pub data HexError : Type 0 where
  wrong_length : ℕ → HexError
  invalid_character : HexError

abbrev pub hex_digit : ℕ → ℕ
hex_digit d = if ltb d 10 then 48 + d else 87 + d

-- `{b:02x}`
unfoldable pub encode_hex : List ℕ → List ℕ
encode_hex [] = []
encode_hex (b ∷ bs) = hex_digit (b / 16) ∷ hex_digit (b % 16) ∷ encode_hex bs

unfoldable pub hex_nibble : ℕ → Option ℕ
hex_nibble b =
    if leb 48 b && leb b 57
    then some (b - 48)
    else if leb 97 b && leb b 102
    then some (b - 97 + 10)
    else if leb 65 b && leb b 70
    then some (b - 65 + 10)
    else none

-- One byte of the loop, in front of the others.
unfoldable pub push_byte : Option ℕ → Option ℕ → Option (List ℕ) → Option (List ℕ)
push_byte (some hi) (some lo) (some rest) = some ((hi * 16 + lo) ∷ rest)
push_byte _ _ _ = none

unfoldable pub decode_pairs : List ℕ → Option (List ℕ)
unfolding hex_nibble push_byte
decode_pairs [] = some []
decode_pairs (c ∷ []) = some []
decode_pairs (c ∷ d ∷ s) = push_byte (hex_nibble c) (hex_nibble d) (decode_pairs s)

unfoldable pub decode_hex_32 : List ℕ → Result HexError (List ℕ)
unfolding decode_pairs
decode_hex_32 s =
    if eqb (length s) 64
    then (elim (decode_pairs s) [ none ↦ err invalid_character | some bytes ↦ ok bytes ])
    else err (wrong_length (length s))
