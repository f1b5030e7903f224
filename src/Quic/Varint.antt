-- ===== src/Quic/Varint.antt =====
-- include/boltapi/quic/varint.h: the variable-length integers of QUIC. A buffer is the list of
-- its bytes; what a function writes to `out` is the list that it returns, and what it returns is
-- the length of that list. The asserts are hypotheses of the theorems.
pub mod RoundTrip
pub mod Decode
use bolt_api.Prelude.{
  ℕ, zero, suc, ◌+◌, ◌*◌, ◌-◌, ◌/◌, ◌%◌, ◌^◌, bit_and, bit_or, List, [], ◌∷◌, Option, none, some,
  ltb, leb, length, if◌then◌else◌,
}

abbrev pub var_int_max : ℕ
var_int_max = 2 ^ 62 - 1

abbrev pub var_int1_max : ℕ
var_int1_max = 63

abbrev pub var_int2_max : ℕ
var_int2_max = 16383

abbrev pub var_int4_max : ℕ
var_int4_max = 1073741823

unfoldable pub varint_encoded_size : ℕ → ℕ
varint_encoded_size value =
    if leb value var_int1_max
    then 1
    else if leb value var_int2_max
    then 2
    else if leb value var_int4_max
    then 4
    else 8

-- The loop of the eight-byte form, with `n` rounds left: `i` is 8 - n, so 7 - i is n - 1.
unfoldable pub encode_rest : ℕ → ℕ → List ℕ
encode_rest zero value = []
encode_rest (suc n) value = bit_and (value / 2 ^ (8 * n)) 0xFF % 256 ∷ encode_rest n value

unfoldable pub varint_encode : ℕ → List ℕ
unfolding encode_rest
varint_encode value =
    if leb value var_int1_max
    then value % 256 ∷ []
    else if leb value var_int2_max
    then bit_or 0x40 (value / 2 ^ 8) % 256 ∷ bit_and value 0xFF % 256 ∷ []
    else if leb value var_int4_max
    then bit_or 0x80 (value / 2 ^ 24) % 256
      ∷ bit_and (value / 2 ^ 16) 0xFF % 256
      ∷ bit_and (value / 2 ^ 8) 0xFF % 256
      ∷ bit_and value 0xFF % 256
      ∷ []
    else bit_or 0xC0 (value / 2 ^ 56) % 256 ∷ encode_rest 7 value

-- The loop of `varint_decode`, with `n` rounds left; the bytes are there, by the test before it.
unfoldable pub decode_rest : ℕ → ℕ → List ℕ → ℕ
decode_rest zero value bytes = value
decode_rest (suc n) value [] = value
decode_rest (suc n) value (b ∷ bytes) = decode_rest n (bit_or (value * 256 % 2 ^ 64) b) bytes

-- `none` is kVarIntNeedMore; a success has the bytes consumed and the value.
unfoldable pub varint_decode : List ℕ → Option (ℕ × ℕ)
unfolding decode_rest
varint_decode [] = none
varint_decode (b ∷ rest) =
    let bytes = 2 ^ (b / 2 ^ 6 % 256) in
    if ltb (length (b ∷ rest)) bytes
    then none
    else some (bytes, decode_rest (bytes - 1) (bit_and b 0x3F) rest)
