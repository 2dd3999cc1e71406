-- ===== src/Prelude/Utf8.antt =====
-- UTF-8 as `std::str::from_utf8` and `String::from_utf8_lossy` read it (RFC 3629): bytes in, code
-- points out, and the bytes of a string. A step takes one byte; between steps stands how many bytes the code point still needs,
-- its bits so far, and the range of the next byte, which rules out overlong forms and surrogates.
use Prim.Native.Nat.{ℕ, zero, suc, ◌+◌, ◌-◌, ◌*◌, ◌/◌, ◌%◌}
use mathlib.Core.Path.{◌≡◌, refl}
use mathlib.Core.Bool.{Bool, ◌&&◌}
use mathlib.Core.List.{List, [], ◌∷◌, ◌++◌}
use mathlib.Core.Option.{Option, none, some}
use rato.Prelude.Tests.{leb, eqb, ltb, if◌then◌else◌}

pub data Pending : Type 0 where
  ready : Pending
  -- bytes to come, bits so far, lowest and highest next byte
  needs : ℕ → ℕ → ℕ → ℕ → Pending

abbrev between : ℕ → ℕ → ℕ → Bool
between lo hi b = leb lo b && leb b hi

-- The first byte of a sequence.
lead_byte : ℕ → Option (Pending × List ℕ)
lead_byte b =
    if ltb b 128
    then some (ready, b ∷ [])
    else if between 194 223 b
    then some (needs 1 (b - 192) 128 191, [])
    else if eqb b 224
    then some (needs 2 0 160 191, [])
    else if eqb b 237
    then some (needs 2 13 128 159, [])
    else if between 225 239 b
    then some (needs 2 (b - 224) 128 191, [])
    else if eqb b 240
    then some (needs 3 0 144 191, [])
    else if between 241 243 b
    then some (needs 3 (b - 240) 128 191, [])
    else if eqb b 244
    then some (needs 3 4 128 143, [])
    else none

next_byte : Pending → ℕ → Option (Pending × List ℕ)
unfolding lead_byte
next_byte ready b = lead_byte b
next_byte (needs zero bits lo hi) b = none
next_byte (needs (suc zero) bits lo hi) b =
    if between lo hi b then some (ready, (bits * 64 + (b - 128)) ∷ []) else none
next_byte (needs (suc (suc n)) bits lo hi) b =
    if between lo hi b then some (needs (suc n) (bits * 64 + (b - 128)) 128 191, []) else none

before_text : List ℕ → Option (List ℕ) → Option (List ℕ)
before_text cs none = none
before_text cs (some text) = some (cs ++ text)

decode_bytes : Pending → List ℕ → Option (List ℕ)
unfolding next_byte before_text
decode_bytes ready [] = some []
decode_bytes (needs n bits lo hi) [] = none
decode_bytes st (b ∷ s) = elim (next_byte st b) [
  | none ↦ none
  | some (st', cs) ↦ before_text cs (decode_bytes st' s)
]

-- `std::str::from_utf8`
unfoldable pub from_utf8 : List ℕ → Option (List ℕ)
unfolding decode_bytes
from_utf8 = decode_bytes ready

-- A byte that cannot follow ends the sequence, and starts one if it can.
bad_byte : Pending → ℕ → Pending × List ℕ
unfolding lead_byte
bad_byte ready b = (ready, 65533 ∷ [])
bad_byte (needs n bits lo hi) b = elim (lead_byte b) [
  | none ↦ (ready, 65533 ∷ 65533 ∷ [])
  | some (st, cs) ↦ (st, 65533 ∷ cs)
]

lossy_step : Pending → ℕ → Option (Pending × List ℕ) → Pending × List ℕ
unfolding bad_byte
lossy_step st b none = bad_byte st b
lossy_step st b (some next) = next

decode_lossy : Pending → List ℕ → List ℕ
unfolding next_byte lossy_step
decode_lossy ready [] = []
decode_lossy (needs n bits lo hi) [] = 65533 ∷ []
decode_lossy st (b ∷ s) =
    let (st', cs) = lossy_step st b (next_byte st b) in cs ++ decode_lossy st' s

-- `String::from_utf8_lossy`
unfoldable pub from_utf8_lossy : List ℕ → List ℕ
unfolding decode_lossy
from_utf8_lossy = decode_lossy ready

unfoldable pub utf8_char : ℕ → List ℕ
utf8_char c =
    if ltb c 128
    then c ∷ []
    else if ltb c 2048
    then (192 + c / 64) ∷ (128 + c % 64) ∷ []
    else if ltb c 65536
    then (224 + c / 4096) ∷ (128 + c / 64 % 64) ∷ (128 + c % 64) ∷ []
    else (240 + c / 262144) ∷ (128 + c / 4096 % 64) ∷ (128 + c / 64 % 64) ∷ (128 + c % 64) ∷ []

-- `String::into_bytes`
unfoldable pub utf8_bytes : List ℕ → List ℕ
unfolding utf8_char
utf8_bytes [] = []
utf8_bytes (c ∷ s) = utf8_char c ++ utf8_bytes s

encodes :
    utf8_bytes (233 ∷ 8364 ∷ 128512 ∷ []) ≡ 195 ∷ 169 ∷ 226 ∷ 130 ∷ 172 ∷ 240 ∷ 159 ∷ 152 ∷ 128 ∷ []
unfolding utf8_bytes
encodes = refl

-- "é€😀", and an overlong form.
decodes :
    from_utf8 (195 ∷ 169 ∷ 226 ∷ 130 ∷ 172 ∷ 240 ∷ 159 ∷ 152 ∷ 128 ∷ [])
    ≡ some (233 ∷ 8364 ∷ 128512 ∷ [])
unfolding from_utf8
decodes = refl

decodes_lossy : from_utf8_lossy (65 ∷ 192 ∷ 226 ∷ 130 ∷ 66 ∷ []) ≡ 65 ∷ 65533 ∷ 65533 ∷ 66 ∷ []
unfolding from_utf8_lossy
decodes_lossy = refl
