-- ===== src/WebSocket/Frame.antt =====
-- The frame codec of src/http/websocket_parser.cpp: parse_header, parse_frame, unmask and
-- build_frame of FrameParser. An opcode is the number of its enumerator, as the code casts it.
pub mod RoundTrip
pub mod Mask
pub mod MaskLength
use bolt_api.Prelude.{
  ℕ, zero, suc, ◌+◌, ◌-◌, ◌*◌, ◌/◌, ◌%◌, ◌^◌, ◌≡◌, Bool, true, false, not, ◌&&◌, ltb, leb, ◌==◌,
  if◌then◌else◌, List, [], ◌∷◌, ◌++◌, length, get_or, take, drop, bit_and, bit_or, bit_xor,
}
use bolt_api.Prelude.Bytes.{at, has_bit}

pub record FrameHeader : Type 0 where
  pub fin : Bool
  pub rsv1 : Bool
  pub rsv2 : Bool
  pub rsv3 : Bool
  pub opcode : ℕ
  pub mask : Bool
  pub payload_length : ℕ
  pub masking_key : List ℕ

-- The results of `parse_header`: -1, kErrorLength, and 0 with the header and its length.
pub data HeaderResult : Type 0 where
  need_more error_length : HeaderResult
  header_ok : FrameHeader → ℕ → HeaderResult

-- The loop over the eight length bytes, with `n` rounds left.
unfoldable pub read_be : ℕ → ℕ → List ℕ → ℕ
read_be zero v bytes = v
read_be (suc n) v [] = v
read_be (suc n) v (b ∷ bytes) = read_be n (bit_or (v * 256 % 2 ^ 64) b) bytes

abbrev header_of : ℕ → ℕ → ℕ → List ℕ → FrameHeader
header_of b0 b1 payload_length masking_key = record {
  fin = has_bit b0 0x80;
  rsv1 = has_bit b0 0x40;
  rsv2 = has_bit b0 0x20;
  rsv3 = has_bit b0 0x10;
  opcode = bit_and b0 0x0F;
  mask = has_bit b1 0x80;
  payload_length = payload_length;
  masking_key = masking_key;
}

-- The end of `parse_header`, behind the length field: the masking key.
unfoldable pub read_key : ℕ → ℕ → List ℕ → ℕ → ℕ → HeaderResult
read_key b0 b1 bytes payload_length pos =
    if has_bit b1 0x80
    then (if ltb (length bytes) (pos + 4)
        then need_more
        else header_ok (header_of b0 b1 payload_length (take 4 (drop pos bytes))) (pos + 4))
    else header_ok (header_of b0 b1 payload_length (0 ∷ 0 ∷ 0 ∷ 0 ∷ [])) pos

unfoldable pub parse_header : List ℕ → HeaderResult
unfolding read_be read_key
parse_header [] = need_more
parse_header (b0 ∷ []) = need_more
parse_header (b0 ∷ b1 ∷ rest) =
    let bytes = b0 ∷ b1 ∷ rest in
    let len7 = bit_and b1 0x7F in
    if ltb len7 126
    then read_key b0 b1 bytes len7 2
    else if len7 == 126
    then (if ltb (length bytes) 4
        then need_more
        else read_key b0 b1 bytes (bit_or (at bytes 2 * 256) (at bytes 3)) 4)
    else if ltb (length bytes) 10
    then need_more
    else let v = read_be 8 0 rest in
      if not (v / 2 ^ 63 == 0) then error_length else read_key b0 b1 bytes v 10

-- The results of `parse_frame`; the payload is returned still masked.
pub data FrameResult : Type 0 where
  frame_need_more frame_error_length : FrameResult
  frame_ok : FrameHeader → List ℕ → ℕ → FrameResult

-- `parse_frame` behind its call of `parse_header`.
unfoldable pub take_frame : List ℕ → HeaderResult → FrameResult
take_frame bytes need_more = frame_need_more
take_frame bytes error_length = frame_error_length
take_frame bytes (header_ok h hlen) =
    if ltb (length bytes - hlen) h.payload_length
    then frame_need_more
    else frame_ok h (take h.payload_length (drop hlen bytes)) (hlen + h.payload_length)

unfoldable pub parse_frame : List ℕ → FrameResult
unfolding parse_header take_frame
parse_frame bytes = take_frame bytes (parse_header bytes)

-- The bytes of `rot`: the key rotated to the offset, twice.
unfoldable pub rotated : List ℕ → ℕ → ℕ → List ℕ
rotated key offset zero = []
rotated key offset (suc n) = at key (offset % 4) ∷ rotated key (offset + 1) n

-- A word of `n` bytes in memory order, the first byte lowest, and its bytes.
unfoldable pub load : List ℕ → ℕ
load [] = 0
load (b ∷ bytes) = b + 256 * load bytes

unfoldable pub word_bytes : ℕ → ℕ → List ℕ
word_bytes zero w = []
word_bytes (suc n) w = w % 256 ∷ word_bytes n (w / 256)

-- The byte loop of `unmask`, from index `offset` of the payload on.
unfoldable pub unmask_bytes : List ℕ → ℕ → List ℕ → List ℕ
unmask_bytes key offset [] = []
unmask_bytes key offset (b ∷ bytes) =
    bit_xor b (at key (offset % 4)) ∷ unmask_bytes key (offset + 1) bytes

-- The word loop with the byte loop behind it, on fuel: a word is taken in each round, so the
-- number of bytes is enough. `i` is the index that the loops have reached.
unfoldable pub unmask_words : ℕ → ℕ → List ℕ → ℕ → ℕ → List ℕ → List ℕ
unfolding load word_bytes unmask_bytes
unmask_words zero mask64 key offset i bytes = unmask_bytes key (offset + i) bytes
unmask_words (suc n) mask64 key offset i bytes =
    let rest = unmask_words n mask64 key offset (i + 8) (drop 8 bytes) in
    if leb 8 (length bytes)
    then word_bytes 8 (bit_xor (load (take 8 bytes)) mask64) ++ rest
    else unmask_bytes key (offset + i) bytes

unfoldable pub unmask : List ℕ → ℕ → List ℕ → List ℕ
unfolding rotated load unmask_words
unmask key offset bytes =
    unmask_words (length bytes) (load (rotated key offset 8)) key offset 0 bytes

-- The `n` low bytes of a value, the highest first: what htons and htobe64 leave in memory.
unfoldable pub write_be : ℕ → ℕ → List ℕ
write_be zero v = []
write_be (suc n) v = v / 2 ^ (8 * n) % 256 ∷ write_be n v

abbrev pub flag : Bool → ℕ → ℕ → ℕ
flag set m b = if set then bit_or b m else b

-- The frame that `build_frame` appends to its output.
unfoldable pub build_frame : ℕ → List ℕ → Bool → Bool → List ℕ
unfolding write_be
build_frame opcode payload fin rsv1 =
    let byte0 = flag rsv1 0x40 (flag fin 0x80 opcode) in
    byte0
    ∷ ((if ltb (length payload) 126
          then length payload ∷ []
          else if leb (length payload) 0xFFFF
          then 126 ∷ write_be 2 (length payload)
          else 127 ∷ write_be 8 (length payload))
        ++ payload)
