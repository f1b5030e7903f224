-- ===== src/Http2/Frame/RoundTrip.antt =====
-- The writers of src/http/http2_frame.cpp against its parsers, for every frame.
use bolt_api.Prelude.{
  ℕ, ◌+◌, ◌*◌, ◌^◌, ◌<◌, ◌≡◌, refl, sym, ap, ◌∙◌, true, false, if◌then◌else◌, some, List, [], ◌++◌,
  length, All, append-nil, arith,
}
use bolt_api.Http2.Frame.{
  data_type, headers_type, rst_stream_type, settings_type, push_promise_type, ping_type,
  goaway_type, window_update_type, continuation_type, end_stream_flag, ack_flag, end_headers_flag,
}
use bolt_api.Http2.Frame.Write.{
  write_uint32, write_uint64, write_frame_header, header, headers_flags, priority_size,
  write_priority, write_settings, write_data_frame, write_headers_frame, write_settings_frame,
  write_window_update_frame, write_ping_frame, write_goaway_frame, write_rst_stream_frame,
}
use bolt_api.Http2.Frame.Layout.{
  Frame, data_frame, headers_frame, settings_frame, window_update_frame, ping_frame, goaway_frame,
  rst_stream_frame, push_promise_frame, continuation_frame, write_frame, dispatch, read_frame,
}
use bolt_api.Http2.Frame.Payloads.{
  wide, low_31, read_lem, dispatch-data_frame, dispatch-continuation_frame,
  dispatch-rst_stream_frame, dispatch-window_update_frame, dispatch-push_promise_frame,
  dispatch-ping_frame, dispatch-goaway_frame,
}
use bolt_api.Http2.Frame.Fields.{
  IsSetting, length-write_settings, dispatch-settings_frame, dispatch-settings_ack, IsDependency,
  dispatch-headers_frame, length-write_priority,
}

-- The fields fit the bits that the frame has for them; a SETTINGS acknowledgement has no
-- parameters, and a window grows by one at least.
abbrev pub IsWritable : Frame → Type 0
IsWritable (data_frame stream_id bytes end_stream) = (stream_id < 2 ^ 31) × (length bytes < 2 ^ 24)
IsWritable (headers_frame stream_id block end_stream end_headers priority) =
    (stream_id < 2 ^ 31) × (priority_size priority + length block < 2 ^ 24) × IsDependency priority
IsWritable (settings_frame params true) = params ≡ []
IsWritable (settings_frame params false) = (length params * 6 < 2 ^ 24) × All IsSetting params
IsWritable (window_update_frame stream_id increment) =
    (stream_id < 2 ^ 31) × (0 < increment) × (increment < 2 ^ 31)
IsWritable (ping_frame opaque_data ack) = opaque_data < 2 ^ 64
IsWritable (goaway_frame last_stream_id error_code debug) =
    (last_stream_id < 2 ^ 31) × (error_code < 2 ^ 32) × (8 + length debug < 2 ^ 24)
IsWritable (rst_stream_frame stream_id error_code) = (stream_id < 2 ^ 31) × (error_code < 2 ^ 32)
IsWritable (push_promise_frame stream_id promised block end_headers) =
    (stream_id < 2 ^ 31) × (promised < 2 ^ 31) × (4 + length block < 2 ^ 24)
IsWritable (continuation_frame stream_id block end_headers) =
    (stream_id < 2 ^ 31) × (length block < 2 ^ 24)

-- As `read_lem`, for a length that is written another way.
read_sized :
    (len frame_type flags stream_id : ℕ) (payload rest : List ℕ) (f : Frame)
    → length payload ≡ len
    → len < 2 ^ 24
    → stream_id < 2 ^ 31
    → dispatch (wide len frame_type flags stream_id) payload ≡ some f
    → read_frame ((write_frame_header (header len frame_type flags stream_id) ++ payload) ++ rest)
      ≡ some f
read_sized len frame_type flags stream_id payload rest f e h k d =
    let enough : length payload < 2 ^ 24 = omega (arith, e) in
    ap
      (λ t.
        read_frame ((write_frame_header (header t frame_type flags stream_id) ++ payload) ++ rest))
      (sym e)
    ∙ read_lem frame_type flags stream_id payload rest enough k
    ∙ ap (λ t. dispatch (wide t frame_type flags stream_id) payload) e
    ∙ d

-- A frame whose fields fit the bits that the frame has for them, written by the writer of its type
-- and followed by any bytes, is read back the same by the parser of its type: header, flags,
-- priority, parameters and payload.
pub read_frame-write_frame :
    (f : Frame) (rest : List ℕ) → IsWritable f → read_frame (write_frame f ++ rest) ≡ some f
unfolding write_frame write_data_frame write_headers_frame write_settings_frame
    write_window_update_frame write_ping_frame write_goaway_frame write_rst_stream_frame
    write_uint32 write_uint64
read_frame-write_frame (data_frame stream_id bytes end_stream) rest (k, h) =
    read_sized (length bytes) data_type (if end_stream then end_stream_flag else 0) stream_id bytes
      rest (data_frame stream_id bytes end_stream) refl h k
      (dispatch-data_frame stream_id bytes end_stream)
read_frame-write_frame (headers_frame stream_id block end_stream end_headers priority) rest
      (k, h, d) =
    read_sized (priority_size priority + length block) headers_type
      (headers_flags end_stream end_headers priority) stream_id (write_priority priority ++ block)
      rest (headers_frame stream_id block end_stream end_headers priority)
      (length-write_priority priority block) h k
      (dispatch-headers_frame stream_id block end_stream end_headers priority d)
read_frame-write_frame (settings_frame params true) rest e =
    ap (λ t. read_frame (t ++ rest))
      (sym (append-nil (write_frame_header (header 0 settings_type ack_flag 0))))
    ∙ read_sized 0 settings_type ack_flag 0 [] rest (settings_frame [] true) refl (omega arith)
        (omega arith) dispatch-settings_ack
    ∙ ap (λ t. some (settings_frame t true)) (sym e)
read_frame-write_frame (settings_frame params false) rest (h, v) =
    read_sized (length params * 6) settings_type 0 0 (write_settings params) rest
      (settings_frame params false) (length-write_settings params) h (omega arith)
      (dispatch-settings_frame params v)
read_frame-write_frame (window_update_frame stream_id increment) rest (k, p, h) =
    rw (low_31 increment h) (
      read_sized 4 window_update_type 0 stream_id (write_uint32 increment) rest
        (window_update_frame stream_id increment) refl (omega arith) k
        (dispatch-window_update_frame stream_id increment p h))
read_frame-write_frame (ping_frame opaque_data ack) rest h =
    read_sized 8 ping_type (if ack then ack_flag else 0) 0 (write_uint64 opaque_data) rest
      (ping_frame opaque_data ack) refl (omega arith) (omega arith)
      (dispatch-ping_frame opaque_data ack h)
read_frame-write_frame (goaway_frame last_stream_id error_code debug) rest (k, e, h) =
    rw (low_31 last_stream_id k) (
      read_sized (8 + length debug) goaway_type 0 0
        (write_uint32 last_stream_id ++ (write_uint32 error_code ++ debug)) rest
        (goaway_frame last_stream_id error_code debug) (omega arith) h (omega arith)
        (dispatch-goaway_frame last_stream_id error_code debug k e))
read_frame-write_frame (rst_stream_frame stream_id error_code) rest (k, h) =
    read_sized 4 rst_stream_type 0 stream_id (write_uint32 error_code) rest
      (rst_stream_frame stream_id error_code) refl (omega arith) k
      (dispatch-rst_stream_frame stream_id error_code h)
read_frame-write_frame (push_promise_frame stream_id promised block end_headers) rest (k, p, h) =
    rw (low_31 promised p) (
      read_sized (4 + length block) push_promise_type (if end_headers then end_headers_flag else 0)
        stream_id (write_uint32 promised ++ block) rest
        (push_promise_frame stream_id promised block end_headers) (omega arith) h k
        (dispatch-push_promise_frame stream_id promised block end_headers p))
read_frame-write_frame (continuation_frame stream_id block end_headers) rest (k, h) =
    read_sized (length block) continuation_type (if end_headers then end_headers_flag else 0)
      stream_id block rest (continuation_frame stream_id block end_headers) refl h k
      (dispatch-continuation_frame stream_id block end_headers)
