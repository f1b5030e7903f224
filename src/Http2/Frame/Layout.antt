-- ===== src/Http2/Frame/Layout.antt =====
-- A frame of src/http/http2_frame.cpp as a value: the writer that its constructor names, and the
-- parser that its type selects.
use bolt_api.Prelude.{
  ℕ, ◌+◌, Bool, ◌==◌, if◌then◌else◌, Option, none, some, List, [], ◌++◌, length, take, drop,
  bit_and,
}
use bolt_api.Prelude.Bytes.{has_bit}
use bolt_api.Http2.Frame.{
  FrameHeader, PrioritySpec, SettingsParameter, data_type, headers_type, rst_stream_type,
  settings_type, push_promise_type, ping_type, goaway_type, window_update_type, continuation_type,
  end_stream_flag, ack_flag, end_headers_flag, parse_frame_header, parse_data_frame,
  parse_headers_frame, parse_rst_stream_frame, parse_settings_frame, parse_ping_frame,
  parse_goaway_frame, parse_window_update_frame, parse_push_promise_frame,
}
use bolt_api.Http2.Frame.Write.{
  write_uint32, write_frame_header, header, write_data_frame, write_headers_frame,
  write_settings_frame, write_window_update_frame, write_ping_frame, write_goaway_frame,
  write_rst_stream_frame,
}
use mathlib.Core.Option

-- The arguments of the writers.
pub data Frame : Type 0 where
  data_frame : ℕ → List ℕ → Bool → Frame
  headers_frame : ℕ → List ℕ → Bool → Bool → Option PrioritySpec → Frame
  settings_frame : List SettingsParameter → Bool → Frame
  window_update_frame : ℕ → ℕ → Frame
  ping_frame : ℕ → Bool → Frame
  goaway_frame : ℕ → ℕ → List ℕ → Frame
  rst_stream_frame : ℕ → ℕ → Frame
  push_promise_frame : ℕ → ℕ → List ℕ → Bool → Frame
  continuation_frame : ℕ → List ℕ → Bool → Frame

-- The code has no writer of a vector for the last two, only one into a buffer: here they are the
-- header followed by the fields.
unfoldable pub write_frame : Frame → List ℕ
unfolding write_data_frame write_headers_frame write_settings_frame write_window_update_frame
    write_ping_frame write_goaway_frame write_rst_stream_frame write_frame_header write_uint32
write_frame (data_frame stream_id bytes end_stream) = write_data_frame stream_id bytes end_stream
write_frame (headers_frame stream_id block end_stream end_headers priority) =
    write_headers_frame stream_id block end_stream end_headers priority
write_frame (settings_frame params ack) = write_settings_frame params ack
write_frame (window_update_frame stream_id increment) =
    write_window_update_frame stream_id increment
write_frame (ping_frame opaque_data ack) = write_ping_frame opaque_data ack
write_frame (goaway_frame last_stream_id error_code debug) =
    write_goaway_frame last_stream_id error_code debug
write_frame (rst_stream_frame stream_id error_code) = write_rst_stream_frame stream_id error_code
write_frame (push_promise_frame stream_id promised block end_headers) =
    write_frame_header (
      header (4 + length block) push_promise_type (if end_headers then end_headers_flag else 0)
        stream_id)
    ++ (write_uint32 (bit_and promised 0x7FFFFFFF) ++ block)
write_frame (continuation_frame stream_id block end_headers) =
    write_frame_header (
      header (length block) continuation_type (if end_headers then end_headers_flag else 0)
        stream_id)
    ++ block

abbrev pub read_data : FrameHeader → List ℕ → Option Frame
unfolding parse_data_frame
read_data h payload =
    Option.map (λ bytes. data_frame h.stream_id bytes (has_bit h.flags end_stream_flag))
      (parse_data_frame h payload)

abbrev pub read_headers : FrameHeader → List ℕ → Option Frame
unfolding parse_headers_frame
read_headers h payload =
    Option.map
      (λ (r : Option PrioritySpec × List ℕ).
        headers_frame h.stream_id (r.1) (has_bit h.flags end_stream_flag)
          (has_bit h.flags end_headers_flag) (r.0))
      (parse_headers_frame h payload)

abbrev pub read_settings_frame : FrameHeader → List ℕ → Option Frame
unfolding parse_settings_frame
read_settings_frame h payload =
    Option.map (λ params. settings_frame params (has_bit h.flags ack_flag))
      (parse_settings_frame h payload)

abbrev pub read_window_update : FrameHeader → List ℕ → Option Frame
unfolding parse_window_update_frame
read_window_update h payload =
    Option.map (λ increment. window_update_frame h.stream_id increment)
      (parse_window_update_frame payload)

abbrev pub read_ping : FrameHeader → List ℕ → Option Frame
unfolding parse_ping_frame
read_ping h payload =
    Option.map (λ opaque_data. ping_frame opaque_data (has_bit h.flags ack_flag))
      (parse_ping_frame payload)

abbrev pub read_goaway : FrameHeader → List ℕ → Option Frame
unfolding parse_goaway_frame
read_goaway h payload =
    Option.map (λ (r : ℕ × ℕ × List ℕ). goaway_frame (r.0) (r.1) (r.2))
      (parse_goaway_frame payload [])

abbrev pub read_rst_stream : FrameHeader → List ℕ → Option Frame
unfolding parse_rst_stream_frame
read_rst_stream h payload =
    Option.map (λ error_code. rst_stream_frame h.stream_id error_code)
      (parse_rst_stream_frame payload)

abbrev pub read_push_promise : FrameHeader → List ℕ → Option Frame
unfolding parse_push_promise_frame
read_push_promise h payload =
    Option.map
      (λ (r : ℕ × List ℕ).
        push_promise_frame h.stream_id (r.0) (r.1) (has_bit h.flags end_headers_flag))
      (parse_push_promise_frame h payload)

-- The parser for the type of the frame; `none` too for a type that has no parser. The code has none
-- for a CONTINUATION frame either, whose payload is all header block: a connection takes it as it is.
unfoldable pub dispatch : FrameHeader → List ℕ → Option Frame
dispatch h payload =
    if h.frame_type == data_type
    then read_data h payload
    else if h.frame_type == headers_type
    then read_headers h payload
    else if h.frame_type == settings_type
    then read_settings_frame h payload
    else if h.frame_type == window_update_type
    then read_window_update h payload
    else if h.frame_type == ping_type
    then read_ping h payload
    else if h.frame_type == goaway_type
    then read_goaway h payload
    else if h.frame_type == rst_stream_type
    then read_rst_stream h payload
    else if h.frame_type == push_promise_type
    then read_push_promise h payload
    else if h.frame_type == continuation_type
    then some (continuation_frame h.stream_id payload (has_bit h.flags end_headers_flag))
    else none

-- The frame at the front of the bytes.
unfoldable pub read_frame : List ℕ → Option Frame
unfolding parse_frame_header dispatch
read_frame bytes =
    let h = parse_frame_header bytes in dispatch h (take h.payload_length (drop 9 bytes))
