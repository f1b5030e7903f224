-- ===== src/Http2/Frame/WriteTo.antt =====
-- The writers of src/http/http2_frame.cpp into a buffer of the caller. The buffer is the list of
-- its bytes, so `capacity` is its length; a call returns what the code returns and the buffer
-- that it leaves.
use bolt_api.Prelude.{
  ℕ, ◌+◌, ◌*◌, Bool, true, ◌==◌, if◌then◌else◌, ltb, Option, none, some, List, [], ◌∷◌, ◌++◌,
  length, take, drop, bit_and,
}
use bolt_api.Http2.Frame.{
  PrioritySpec, SettingsParameter, data_type, headers_type, rst_stream_type, settings_type,
  push_promise_type, ping_type, goaway_type, window_update_type, continuation_type, end_stream_flag,
  ack_flag, end_headers_flag,
}
use bolt_api.Http2.Frame.Write.{
  write_uint16, write_uint32, write_uint64, write_frame_header, header, headers_flags,
  priority_size, stream_dep,
}

-- The bytes are stored from index `offset` on.
unfoldable pub store_at : ℕ → List ℕ → List ℕ → List ℕ
store_at offset bytes buf = take offset buf ++ (bytes ++ drop (offset + length bytes) buf)

-- `memcpy` behind the test that there is something to copy.
abbrev pub copy : ℕ → List ℕ → List ℕ → List ℕ
copy offset bytes buf = if length bytes == 0 then buf else store_at offset bytes buf

unfoldable pub write_data_frame_to : List ℕ → ℕ → List ℕ → Bool → ℕ × List ℕ
unfolding write_frame_header store_at
write_data_frame_to buf stream_id bytes end_stream =
    let flags = if end_stream then end_stream_flag else 0 in
    let h = header (length bytes) data_type flags stream_id in
    if ltb (length buf) (9 + length bytes)
    then (0, buf)
    else (9 + length bytes, copy 9 bytes (store_at 0 (write_frame_header h) buf))

-- The priority, when there is one, and the offset behind it.
unfoldable pub put_priority : Option PrioritySpec → ℕ → List ℕ → ℕ × List ℕ
unfolding write_uint32 store_at
put_priority none offset buf = (offset, buf)
put_priority (some p) offset buf = (
  offset + 5,
  store_at (offset + 4) (p.weight ∷ []) (store_at offset (write_uint32 (stream_dep p)) buf),
)

unfoldable pub write_headers_frame_to :
    List ℕ → ℕ → List ℕ → Bool → Bool → Option PrioritySpec → ℕ × List ℕ
unfolding write_frame_header store_at put_priority
write_headers_frame_to buf stream_id header_block end_stream end_headers priority =
    let payload_len = priority_size priority + length header_block in
    let flags = headers_flags end_stream end_headers priority in
    let h = header payload_len headers_type flags stream_id in
    if ltb (length buf) (9 + payload_len)
    then (0, buf)
    else let r = put_priority priority 9 (store_at 0 (write_frame_header h) buf) in
      (9 + payload_len, copy (r.0) header_block (r.1))

-- The loop over the parameters, from index `i` on.
unfoldable pub put_settings : ℕ → List SettingsParameter → List ℕ → List ℕ
unfolding write_uint16 write_uint32 store_at
put_settings i [] buf = buf
put_settings i (param ∷ params) buf = put_settings (i + 1) params (
    store_at (9 + i * 6 + 2) (write_uint32 param.value)
      (store_at (9 + i * 6) (write_uint16 param.id) buf))

unfoldable pub write_settings_frame_to : List ℕ → List SettingsParameter → Bool → ℕ × List ℕ
unfolding write_frame_header store_at put_settings
write_settings_frame_to buf params ack =
    if ack
    then (if ltb (length buf) 9
        then (0, buf)
        else (9, store_at 0 (write_frame_header (header 0 settings_type ack_flag 0)) buf))
    else if ltb (length buf) (9 + length params * 6)
    then (0, buf)
    else (
      9 + length params * 6,
      put_settings 0 params
          (store_at 0 (write_frame_header (header (length params * 6) settings_type 0 0)) buf),
    )

unfoldable pub write_settings_ack_to : List ℕ → ℕ × List ℕ
unfolding write_settings_frame_to
write_settings_ack_to buf = write_settings_frame_to buf [] true

unfoldable pub write_window_update_frame_to : List ℕ → ℕ → ℕ → ℕ × List ℕ
unfolding write_frame_header write_uint32 store_at
write_window_update_frame_to buf stream_id increment =
    if ltb (length buf) (9 + 4) then (0, buf) else (
      9 + 4,
      store_at 9 (write_uint32 (bit_and increment 0x7FFFFFFF))
          (store_at 0 (write_frame_header (header 4 window_update_type 0 stream_id)) buf),
    )

unfoldable pub write_ping_frame_to : List ℕ → ℕ → Bool → ℕ × List ℕ
unfolding write_frame_header write_uint64 store_at
write_ping_frame_to buf opaque_data ack = if ltb (length buf) (9 + 8) then (0, buf) else (
  9 + 8,
  store_at 9 (write_uint64 opaque_data)
      (store_at 0 (write_frame_header (header 8 ping_type (if ack then ack_flag else 0) 0)) buf),
)

unfoldable pub write_goaway_frame_to : List ℕ → ℕ → ℕ → List ℕ → ℕ × List ℕ
unfolding write_frame_header write_uint32 store_at
write_goaway_frame_to buf last_stream_id error_code debug_data =
    let payload_len = 8 + length debug_data in
    if ltb (length buf) (9 + payload_len) then (0, buf) else (
      9 + payload_len,
      copy 17 debug_data (
          store_at 13 (write_uint32 error_code) (
            store_at 9 (write_uint32 (bit_and last_stream_id 0x7FFFFFFF))
              (store_at 0 (write_frame_header (header payload_len goaway_type 0 0)) buf))),
    )

unfoldable pub write_rst_stream_frame_to : List ℕ → ℕ → ℕ → ℕ × List ℕ
unfolding write_frame_header write_uint32 store_at
write_rst_stream_frame_to buf stream_id error_code =
    if ltb (length buf) (9 + 4) then (0, buf) else (
      9 + 4,
      store_at 9 (write_uint32 error_code)
          (store_at 0 (write_frame_header (header 4 rst_stream_type 0 stream_id)) buf),
    )

unfoldable pub write_push_promise_frame_to : List ℕ → ℕ → ℕ → List ℕ → Bool → ℕ × List ℕ
unfolding write_frame_header write_uint32 store_at
write_push_promise_frame_to buf stream_id promised_stream_id header_block end_headers =
    let payload_len = 4 + length header_block in
    let flags = if end_headers then end_headers_flag else 0 in
    let h = header payload_len push_promise_type flags stream_id in
    if ltb (length buf) (9 + payload_len) then (0, buf) else (
      9 + payload_len,
      copy 13 header_block (
          store_at 9 (write_uint32 (bit_and promised_stream_id 0x7FFFFFFF))
            (store_at 0 (write_frame_header h) buf)),
    )

unfoldable pub write_continuation_frame_to : List ℕ → ℕ → List ℕ → Bool → ℕ × List ℕ
unfolding write_frame_header store_at
write_continuation_frame_to buf stream_id header_block end_headers =
    let flags = if end_headers then end_headers_flag else 0 in
    let h = header (length header_block) continuation_type flags stream_id in
    if ltb (length buf) (9 + length header_block)
    then (0, buf)
    else (9 + length header_block, copy 9 header_block (store_at 0 (write_frame_header h) buf))
