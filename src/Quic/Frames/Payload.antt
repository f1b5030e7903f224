-- ===== src/Quic/Frames/Payload.antt =====
-- include/boltapi/quic/frames.h, StreamFrame and CryptoFrame. The view `data` is the list of the
-- bytes that it shows.
use bolt_api.Prelude.{
  ℕ, Bool, true, false, not, List, ◌∷◌, ◌++◌, bit_and, bit_or, ◌==◌, length, take, if◌then◌else◌,
}
use bolt_api.Quic.Varint.{varint_encode}
use bolt_api.Quic.Frames.Reader.{Parse, frame_ok, ◌>>=◌, read_varint, read_bytes}

pub record StreamFrame : Type 0 where
  pub stream_id : ℕ
  pub offset : ℕ
  pub length : ℕ
  pub fin : Bool
  pub data_bytes : List ℕ

-- A field that the flags may leave out.
unfoldable pub read_offset : Bool → List ℕ → Parse (ℕ × List ℕ)
read_offset true buf = read_varint buf
read_offset false buf = frame_ok (0, buf)

unfoldable pub read_length : Bool → List ℕ → Parse (ℕ × List ℕ)
read_length true buf = read_varint buf
read_length false buf = frame_ok (length buf, buf)

abbrev has_flag : ℕ → ℕ → Bool
has_flag frame_type flag = not (bit_and (bit_and frame_type 0x07) flag == 0)

-- `frame_type` is the type byte, which the caller has taken.
unfoldable pub parse_stream : ℕ → List ℕ → Parse (StreamFrame × List ℕ)
unfolding read_offset read_length
parse_stream frame_type buf = do
  (id, buf) ← read_varint buf
  (off, buf) ← read_offset (has_flag frame_type 0x04) buf
  (len, buf) ← read_length (has_flag frame_type 0x02) buf
  (bytes, buf) ← read_bytes len buf
  frame_ok (
    record {
      stream_id = id;
      offset = off;
      length = len;
      fin = has_flag frame_type 0x01;
      data_bytes = bytes;
    },
    buf,
  )

-- The type byte stands first; OFF and LEN are always there.
unfoldable pub stream_type_byte : Bool → ℕ
stream_type_byte fin =
    let type_byte = bit_or (bit_or 0x08 0x04) 0x02 in
    if fin then bit_or type_byte 0x01 else type_byte

unfoldable pub serialize_stream : StreamFrame → List ℕ
unfolding stream_type_byte
serialize_stream f =
    stream_type_byte f.fin
    ∷ (varint_encode f.stream_id
        ++ (varint_encode f.offset ++ (varint_encode f.length ++ take f.length f.data_bytes)))

pub record CryptoFrame : Type 0 where
  pub offset : ℕ
  pub length : ℕ
  pub data_bytes : List ℕ

unfoldable pub parse_crypto : List ℕ → Parse (CryptoFrame × List ℕ)
parse_crypto buf = do
  (off, buf) ← read_varint buf
  (len, buf) ← read_varint buf
  (bytes, buf) ← read_bytes len buf
  frame_ok (record { offset = off; length = len; data_bytes = bytes }, buf)

unfoldable pub serialize_crypto : CryptoFrame → List ℕ
serialize_crypto f =
    0x06 ∷ (varint_encode f.offset ++ (varint_encode f.length ++ take f.length f.data_bytes))
