-- ===== src/Http2/Integer.antt =====
-- The integers of HPACK in src/http/hpack.cpp: decode_integer of HPACKDecoder and encode_integer
-- of HPACKEncoder. `none` is the result 1 of the code.
pub mod IntegerRoundTrip
use bolt_api.Prelude.{
  ℕ, zero, suc, ◌+◌, ◌-◌, ◌*◌, ◌/◌, ◌%◌, ◌^◌, Bool, ◌||◌, ltb, leb, ◌==◌, if◌then◌else◌, Option,
  none, some, List, [], ◌∷◌, bit_and, bit_or,
}

abbrev pub max_integer_bytes : ℕ
max_integer_bytes = 6

abbrev pub bad_prefix : ℕ → Bool
bad_prefix prefix_bits = ltb prefix_bits 1 || ltb 8 prefix_bits

-- The loop of the decoder, with `n` rounds left; `k` is i - 1.
unfoldable pub decode_continuation : ℕ → ℕ → ℕ → List ℕ → Option (ℕ × ℕ)
decode_continuation zero k value bytes = none
decode_continuation (suc n) k value [] = none
decode_continuation (suc n) k value (b ∷ bytes) =
    let v = (value + bit_and b 0x7F * 2 ^ (7 * k)) % 2 ^ 64 in
    let rest = decode_continuation n (k + 1) v bytes in
    if bit_and b 0x80 == 0 then some (v, k + 2) else rest

-- The value and the number of bytes consumed.
unfoldable pub decode_integer : List ℕ → ℕ → Option (ℕ × ℕ)
unfolding decode_continuation
decode_integer [] prefix_bits = none
decode_integer (b ∷ bytes) prefix_bits =
    let mask = 2 ^ prefix_bits - 1 in
    let value = bit_and b mask in
    if bad_prefix prefix_bits
    then none
    else if ltb value mask
    then some (value, 1)
    else decode_continuation (max_integer_bytes - 1) 0 value bytes

abbrev pub put_byte : ℕ → Option (List ℕ) → Option (List ℕ)
put_byte b none = none
put_byte b (some bytes) = some (b ∷ bytes)

-- The loop of the encoder, on fuel, and the last byte.
unfoldable pub encode_continuation : ℕ → ℕ → ℕ → ℕ → Option (List ℕ)
encode_continuation zero pos capacity value = none
encode_continuation (suc n) pos capacity value =
    let rest = encode_continuation n (pos + 1) capacity (value / 2 ^ 7) in
    if leb capacity pos
    then none
    else if leb 128 value
    then put_byte (bit_or (bit_and value 0x7F) 0x80) rest
    else some (value ∷ [])

-- The bytes written; `first` is the byte that the caller has set. Ten rounds are enough for a value
-- of 64 bits.
unfoldable pub encode_integer : ℕ → ℕ → ℕ → ℕ → Option (List ℕ)
unfolding encode_continuation
encode_integer value prefix_bits first capacity =
    let mask = 2 ^ prefix_bits - 1 in
    let flags = bit_and first (0xFF - mask) in
    if capacity == 0 || bad_prefix prefix_bits
    then none
    else if ltb value mask
    then some (bit_or flags value ∷ [])
    else put_byte (bit_or flags mask) (encode_continuation 10 1 capacity (value - mask))
