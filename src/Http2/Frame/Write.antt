-- ===== src/Http2/Frame/Write.antt =====
-- The writers of src/http/http2_frame.cpp that return a new vector, and what both kinds of writer
-- share. The list is the vector for payloads below 2^32 bytes.
use bolt_api.Prelude.{
  ℕ, ◌+◌, ◌*◌, ◌/◌, ◌%◌, ◌^◌, Bool, true, false, if◌then◌else◌, Option, none, some, List, [], ◌∷◌,
  ◌++◌, length, bit_and, bit_or,
}
use bolt_api.Http2.Frame.{
  FrameHeader, PrioritySpec, SettingsParameter, data_type, headers_type, rst_stream_type,
  settings_type, ping_type, goaway_type, window_update_type, end_stream_flag, ack_flag,
  end_headers_flag, priority_flag,
}

-- `(value >> n) & 0xff`.
abbrev pub byte : ℕ → ℕ → ℕ
byte n value = bit_and (value / 2 ^ n) 0xFF

unfoldable pub write_uint16 : ℕ → List ℕ
write_uint16 value = byte 8 value ∷ byte 0 value ∷ []

unfoldable pub write_uint24 : ℕ → List ℕ
write_uint24 value = byte 16 value ∷ byte 8 value ∷ byte 0 value ∷ []

unfoldable pub write_uint32 : ℕ → List ℕ
write_uint32 value = byte 24 value ∷ byte 16 value ∷ byte 8 value ∷ byte 0 value ∷ []

unfoldable pub write_uint64 : ℕ → List ℕ
write_uint64 value =
    byte 56 value
    ∷ byte 48 value
    ∷ byte 40 value
    ∷ byte 32 value
    ∷ byte 24 value
    ∷ byte 16 value
    ∷ byte 8 value
    ∷ byte 0 value
    ∷ []

unfoldable pub write_frame_header : FrameHeader → List ℕ
unfolding write_uint24 write_uint32
write_frame_header h =
    write_uint24 h.payload_length
    ++ (h.frame_type ∷ h.flags ∷ write_uint32 (bit_and h.stream_id 0x7FFFFFFF))

-- The header that the constructor of FrameHeader makes, with the length cast to uint32_t.
abbrev pub header : ℕ → ℕ → ℕ → ℕ → FrameHeader
header payload_length frame_type flags stream_id = record {
  payload_length = payload_length % 2 ^ 32;
  frame_type = frame_type;
  flags = flags;
  stream_id = stream_id;
}

-- `if (set) flags |= m`.
abbrev pub set_flag : Bool → ℕ → ℕ → ℕ
set_flag set m flags = if set then bit_or flags m else flags

abbrev pub has_priority : Option PrioritySpec → Bool
has_priority none = false
has_priority (some p) = true

abbrev pub headers_flags : Bool → Bool → Option PrioritySpec → ℕ
headers_flags end_stream end_headers priority =
    set_flag (has_priority priority) priority_flag
      (set_flag end_headers end_headers_flag (set_flag end_stream end_stream_flag 0))

abbrev pub priority_size : Option PrioritySpec → ℕ
priority_size priority = if has_priority priority then 5 else 0

abbrev pub stream_dep : PrioritySpec → ℕ
stream_dep p = if p.exclusive then bit_or p.stream_dependency 0x80000000 else p.stream_dependency

unfoldable pub write_priority : Option PrioritySpec → List ℕ
unfolding write_uint32
write_priority none = []
write_priority (some p) = write_uint32 (stream_dep p) ++ (p.weight ∷ [])

unfoldable pub write_setting : SettingsParameter → List ℕ
unfolding write_uint16 write_uint32
write_setting param = write_uint16 param.id ++ write_uint32 param.value

-- The loop over the parameters.
unfoldable pub write_settings : List SettingsParameter → List ℕ
unfolding write_setting
write_settings [] = []
write_settings (param ∷ params) = write_setting param ++ write_settings params

-- The size is cast to uint32_t: from 2^32 bytes on the code copies past the end of its vector,
-- which the list does not show.
unfoldable pub write_data_frame : ℕ → List ℕ → Bool → List ℕ
unfolding write_frame_header
write_data_frame stream_id bytes end_stream =
    write_frame_header
      (header (length bytes) data_type (if end_stream then end_stream_flag else 0) stream_id)
    ++ bytes

-- For less than 2^32 bytes, as above.
unfoldable pub write_headers_frame : ℕ → List ℕ → Bool → Bool → Option PrioritySpec → List ℕ
unfolding write_frame_header write_priority
write_headers_frame stream_id header_block end_stream end_headers priority =
    write_frame_header (
      header (priority_size priority + length header_block) headers_type
        (headers_flags end_stream end_headers priority) stream_id)
    ++ (write_priority priority ++ header_block)

unfoldable pub write_settings_frame : List SettingsParameter → Bool → List ℕ
unfolding write_frame_header write_settings
write_settings_frame params ack =
    if ack
    then write_frame_header (header 0 settings_type ack_flag 0)
    else write_frame_header (header (length params * 6) settings_type 0 0) ++ write_settings params

unfoldable pub write_settings_ack : List ℕ
unfolding write_settings_frame
write_settings_ack = write_settings_frame [] true

unfoldable pub write_window_update_frame : ℕ → ℕ → List ℕ
unfolding write_frame_header write_uint32
write_window_update_frame stream_id increment =
    write_frame_header (header 4 window_update_type 0 stream_id)
    ++ write_uint32 (bit_and increment 0x7FFFFFFF)

unfoldable pub write_ping_frame : ℕ → Bool → List ℕ
unfolding write_frame_header write_uint64
write_ping_frame opaque_data ack =
    write_frame_header (header 8 ping_type (if ack then ack_flag else 0) 0)
    ++ write_uint64 opaque_data

-- For less than 2^32 bytes, as above.
unfoldable pub write_goaway_frame : ℕ → ℕ → List ℕ → List ℕ
unfolding write_frame_header write_uint32
write_goaway_frame last_stream_id error_code debug_data =
    write_frame_header (header (8 + length debug_data) goaway_type 0 0)
    ++ (write_uint32 (bit_and last_stream_id 0x7FFFFFFF) ++ (write_uint32 error_code ++ debug_data))

unfoldable pub write_rst_stream_frame : ℕ → ℕ → List ℕ
unfolding write_frame_header write_uint32
write_rst_stream_frame stream_id error_code =
    write_frame_header (header 4 rst_stream_type 0 stream_id) ++ write_uint32 error_code
