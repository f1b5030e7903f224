-- ===== src/Http2/Frame.antt =====
-- The parsers of src/http/http2_frame.cpp. A frame type is the number of its enumerator, as the
-- code casts it, and so are error codes and settings; `none` is the error result. What a failed
-- call leaves in its out parameters, and the null pointers, are not modelled.
pub mod Write
pub mod WriteTo
pub mod Numbers
pub mod Layout
pub mod Payloads
pub mod Fields
pub mod RoundTrip
pub mod Buffers
pub mod Agree
pub mod Padding
use bolt_api.Prelude.{
  ℕ, zero, suc, ◌+◌, ◌-◌, ◌*◌, ◌/◌, ◌%◌, ◌^◌, Bool, true, false, not, ltb, leb, ◌==◌, if◌then◌else◌,
  Option, none, some, List, [], ◌∷◌, length, take, drop, bit_and, bit_or,
}
use bolt_api.Prelude.Bytes.{at, has_bit}

unfoldable pub read_uint16 : List ℕ → ℕ
read_uint16 bytes = bit_or (at bytes 0 * 2 ^ 8) (at bytes 1)

unfoldable pub read_uint24 : List ℕ → ℕ
read_uint24 bytes = bit_or (bit_or (at bytes 0 * 2 ^ 16) (at bytes 1 * 2 ^ 8)) (at bytes 2)

unfoldable pub read_uint32 : List ℕ → ℕ
read_uint32 bytes =
    bit_or (bit_or (bit_or (at bytes 0 * 2 ^ 24) (at bytes 1 * 2 ^ 16)) (at bytes 2 * 2 ^ 8))
      (at bytes 3)

unfoldable pub read_uint64 : List ℕ → ℕ
read_uint64 bytes =
    bit_or
      (bit_or
        (bit_or
          (bit_or
            (bit_or
              (bit_or (bit_or (at bytes 0 * 2 ^ 56) (at bytes 1 * 2 ^ 48)) (at bytes 2 * 2 ^ 40))
              (at bytes 3 * 2 ^ 32))
            (at bytes 4 * 2 ^ 24))
          (at bytes 5 * 2 ^ 16))
        (at bytes 6 * 2 ^ 8))
      (at bytes 7)

-- The frame types.
abbrev pub data_type : ℕ
data_type = 0x0

abbrev pub headers_type : ℕ
headers_type = 0x1

abbrev pub rst_stream_type : ℕ
rst_stream_type = 0x3

abbrev pub settings_type : ℕ
settings_type = 0x4

abbrev pub push_promise_type : ℕ
push_promise_type = 0x5

abbrev pub ping_type : ℕ
ping_type = 0x6

abbrev pub goaway_type : ℕ
goaway_type = 0x7

abbrev pub window_update_type : ℕ
window_update_type = 0x8

abbrev pub continuation_type : ℕ
continuation_type = 0x9

-- The flags: END_STREAM of DATA and HEADERS, ACK of SETTINGS and PING, END_HEADERS and PADDED of
-- every frame that has them, and PRIORITY of HEADERS.
abbrev pub end_stream_flag : ℕ
end_stream_flag = 0x1

abbrev pub ack_flag : ℕ
ack_flag = 0x1

abbrev pub end_headers_flag : ℕ
end_headers_flag = 0x4

abbrev pub padded_flag : ℕ
padded_flag = 0x8

abbrev pub priority_flag : ℕ
priority_flag = 0x20

pub record FrameHeader : Type 0 where
  pub payload_length : ℕ
  pub frame_type : ℕ
  pub flags : ℕ
  pub stream_id : ℕ

pub record PrioritySpec : Type 0 where
  pub exclusive : Bool
  pub stream_dependency : ℕ
  pub weight : ℕ

pub record SettingsParameter : Type 0 where
  pub id : ℕ
  pub value : ℕ

unfoldable pub parse_frame_header : List ℕ → FrameHeader
unfolding read_uint24 read_uint32
parse_frame_header bytes = record {
  payload_length = read_uint24 bytes;
  frame_type = at bytes 3;
  flags = at bytes 4;
  stream_id = bit_and (read_uint32 (drop 5 bytes)) 0x7FFFFFFF;
}

-- The bytes of the payload between `offset` and the padding.
abbrev pub body : List ℕ → ℕ → ℕ → List ℕ
body payload offset pad_length = take (length payload - offset - pad_length) (drop offset payload)

unfoldable pub parse_data_frame : FrameHeader → List ℕ → Option (List ℕ)
parse_data_frame h payload =
    if not (h.payload_length == length payload)
    then none
    else if has_bit h.flags padded_flag
    then (if ltb (length payload) 1
        then none
        else if leb (length payload) (at payload 0)
        then none
        else some (body payload 1 (at payload 0)))
    else some (body payload 0 0)

unfoldable pub priority_spec : List ℕ → PrioritySpec
unfolding read_uint32
priority_spec bytes =
    let stream_dep = read_uint32 bytes in
    record {
      exclusive = not (bit_and (stream_dep / 2 ^ 31) 1 == 0);
      stream_dependency = bit_and stream_dep 0x7FFFFFFF;
      weight = at bytes 4;
    }

-- The end of `parse_headers_frame`, behind the optional fields; the first component is what it
-- leaves behind `out_priority`.
abbrev pub header_block :
    List ℕ → Option PrioritySpec → ℕ → ℕ → Option (Option PrioritySpec × List ℕ)
header_block payload priority offset pad_length =
    if ltb (length payload) (offset + pad_length)
    then none
    else some (priority, body payload offset pad_length)

unfoldable pub read_priority : FrameHeader → List ℕ → ℕ → ℕ → Option (Option PrioritySpec × List ℕ)
unfolding priority_spec
read_priority h payload offset pad_length =
    if has_bit h.flags priority_flag
    then (if ltb (length payload) (offset + 5)
        then none
        else header_block payload (some (priority_spec (drop offset payload))) (offset + 5)
            pad_length)
    else header_block payload none offset pad_length

unfoldable pub parse_headers_frame : FrameHeader → List ℕ → Option (Option PrioritySpec × List ℕ)
unfolding read_priority
parse_headers_frame h payload =
    if not (h.payload_length == length payload)
    then none
    else if has_bit h.flags padded_flag
    then (if ltb (length payload) 1 then none else read_priority h payload 1 (at payload 0))
    else read_priority h payload 0 0

unfoldable pub parse_priority_frame : List ℕ → Option PrioritySpec
unfolding priority_spec
parse_priority_frame payload =
    if not (length payload == 5) then none else some (priority_spec payload)

unfoldable pub parse_rst_stream_frame : List ℕ → Option ℕ
unfolding read_uint32
parse_rst_stream_frame payload =
    if not (length payload == 4) then none else some (read_uint32 payload)

-- The loop of `parse_settings_frame`, with `n` parameters left.
unfoldable pub read_settings : ℕ → List ℕ → List SettingsParameter
unfolding read_uint16 read_uint32
read_settings zero bytes = []
read_settings (suc n) bytes =
    record { id = read_uint16 bytes; value = read_uint32 (drop 2 bytes) }
    ∷ read_settings n (drop 6 bytes)

unfoldable pub parse_settings_frame : FrameHeader → List ℕ → Option (List SettingsParameter)
unfolding read_settings
parse_settings_frame h payload =
    if has_bit h.flags ack_flag
    then (if not (length payload == 0) then none else some [])
    else if not (length payload % 6 == 0)
    then none
    else some (read_settings (length payload / 6) payload)

unfoldable pub parse_ping_frame : List ℕ → Option ℕ
unfolding read_uint64
parse_ping_frame payload = if not (length payload == 8) then none else some (read_uint64 payload)

-- `debug` is what the caller's `out_debug_data` holds: it is kept when there are no debug data.
unfoldable pub parse_goaway_frame : List ℕ → List ℕ → Option (ℕ × ℕ × List ℕ)
unfolding read_uint32
parse_goaway_frame payload debug =
    if ltb (length payload) 8
    then none
    else some (
      bit_and (read_uint32 payload) 0x7FFFFFFF,
      read_uint32 (drop 4 payload),
      (if ltb 8 (length payload) then take (length payload - 8) (drop 8 payload) else debug),
    )

unfoldable pub parse_window_update_frame : List ℕ → Option ℕ
unfolding read_uint32
parse_window_update_frame payload =
    let increment = bit_and (read_uint32 payload) 0x7FFFFFFF in
    if not (length payload == 4) then none else if increment == 0 then none else some increment

-- The end of `parse_push_promise_frame`, from the promised stream on.
abbrev pub read_promise : List ℕ → ℕ → ℕ → Option (ℕ × List ℕ)
read_promise payload offset pad_length =
    if ltb (length payload) (offset + 4)
    then none
    else if ltb (length payload) (offset + 4 + pad_length)
    then none
    else some (
      bit_and (read_uint32 (drop offset payload)) 0x7FFFFFFF,
      body payload (offset + 4) pad_length,
    )

unfoldable pub parse_push_promise_frame : FrameHeader → List ℕ → Option (ℕ × List ℕ)
unfolding read_uint32
parse_push_promise_frame h payload =
    if not (h.payload_length == length payload)
    then none
    else if has_bit h.flags padded_flag
    then (if ltb (length payload) 1 then none else read_promise payload 1 (at payload 0))
    else read_promise payload 0 0
