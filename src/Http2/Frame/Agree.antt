-- ===== src/Http2/Frame/Agree.antt =====
-- The two kinds of writer of src/http/http2_frame.cpp, against each other.
use bolt_api.Prelude.{
  ℕ, ◌+◌, ◌*◌, ◌^◌, ◌<◌, ◌≡◌, refl, ap, ◌∙◌, true, false, if◌then◌else◌, List, ◌++◌, length,
  append_assoc, length-append, bit_and, arith,
}
use bolt_api.Http2.Frame.{
  FrameHeader, data_type, headers_type, rst_stream_type, settings_type, push_promise_type,
  ping_type, goaway_type, window_update_type, continuation_type, end_stream_flag, ack_flag,
  end_headers_flag,
}
use bolt_api.Http2.Frame.Write.{
  write_uint32, write_uint64, write_frame_header, header, headers_flags, priority_size,
  write_priority, write_settings, write_data_frame, write_headers_frame, write_settings_frame,
  write_window_update_frame, write_ping_frame, write_goaway_frame, write_rst_stream_frame,
}
use bolt_api.Http2.Frame.WriteTo.{
  store_at, copy, put_priority, put_settings, write_data_frame_to, write_headers_frame_to,
  write_settings_frame_to, write_window_update_frame_to, write_ping_frame_to, write_goaway_frame_to,
  write_rst_stream_frame_to, write_push_promise_frame_to, write_continuation_frame_to,
}
use bolt_api.Http2.Frame.Layout.{
  Frame, data_frame, headers_frame, settings_frame, window_update_frame, ping_frame, goaway_frame,
  rst_stream_frame, push_promise_frame, continuation_frame, write_frame,
}
use bolt_api.Http2.Frame.Fields.{length-write_settings, length-write_priority}
use bolt_api.Http2.Frame.Buffers.{
  filled, IsWritten, tested, store_at-front, store_at-filled, copy-filled, one_piece, one_copy,
  size_lem, put_settings-filled, put_priority-filled, length-write_frame_header,
}

-- The buffer writer that the constructor names.
unfoldable pub write_frame_to : List ℕ → Frame → ℕ × List ℕ
unfolding write_data_frame_to write_headers_frame_to write_settings_frame_to
    write_window_update_frame_to write_ping_frame_to write_goaway_frame_to write_rst_stream_frame_to
    write_push_promise_frame_to write_continuation_frame_to
write_frame_to buf (data_frame stream_id bytes end_stream) =
    write_data_frame_to buf stream_id bytes end_stream
write_frame_to buf (headers_frame stream_id block end_stream end_headers priority) =
    write_headers_frame_to buf stream_id block end_stream end_headers priority
write_frame_to buf (settings_frame params ack) = write_settings_frame_to buf params ack
write_frame_to buf (window_update_frame stream_id increment) =
    write_window_update_frame_to buf stream_id increment
write_frame_to buf (ping_frame opaque_data ack) = write_ping_frame_to buf opaque_data ack
write_frame_to buf (goaway_frame last_stream_id error_code debug) =
    write_goaway_frame_to buf last_stream_id error_code debug
write_frame_to buf (rst_stream_frame stream_id error_code) =
    write_rst_stream_frame_to buf stream_id error_code
write_frame_to buf (push_promise_frame stream_id promised block end_headers) =
    write_push_promise_frame_to buf stream_id promised block end_headers
write_frame_to buf (continuation_frame stream_id block end_headers) =
    write_continuation_frame_to buf stream_id block end_headers

-- A call of a buffer writer, for a frame of less than 2^32 bytes in all: in a buffer that is large
-- enough it stores the frame, byte for byte, keeps the bytes behind it and returns its length; in
-- one that is too small it returns 0 and stores nothing. The frame is what the writer of a vector
-- makes, for the seven types that have one; for PUSH_PROMISE and CONTINUATION, which have none, it
-- is the header followed by the fields in their order.
pub write_frame_to-write_frame :
    (buf : List ℕ) (f : Frame)
    → length (write_frame f) < 2 ^ 32
    → IsWritten buf (write_frame f) (write_frame_to buf f)
unfolding write_frame_to write_frame write_data_frame write_headers_frame write_settings_frame
    write_window_update_frame write_ping_frame write_goaway_frame write_rst_stream_frame
    write_data_frame_to write_headers_frame_to write_settings_frame_to write_window_update_frame_to
    write_ping_frame_to write_goaway_frame_to write_rst_stream_frame_to write_push_promise_frame_to
    write_continuation_frame_to write_uint32 write_uint64
write_frame_to-write_frame buf (data_frame stream_id bytes end_stream) short =
    let h : FrameHeader =
      header (length bytes) data_type (if end_stream then end_stream_flag else 0) stream_id in
    tested buf (write_frame_header h ++ bytes)
      (copy 9 bytes (store_at 0 (write_frame_header h) buf)) (9 + length bytes)
      (size_lem buf h bytes (length bytes) refl) (one_copy buf h bytes)
write_frame_to-write_frame buf (headers_frame stream_id block end_stream end_headers priority)
      short =
    let size : ℕ = priority_size priority + length block in
    let h : FrameHeader =
      header size headers_type (headers_flags end_stream end_headers priority) stream_id in
    let front : List ℕ = write_frame_header h in
    tested buf (front ++ (write_priority priority ++ block))
      (let r = put_priority priority 9 (store_at 0 front buf) in copy (r.0) block (r.1)) (9 + size)
      (size_lem buf h (write_priority priority ++ block) size
        (length-write_priority priority block))
      (ap (λ t. let r = put_priority priority 9 t in copy (r.0) block (r.1))
          (store_at-front buf front)
        ∙ put_priority-filled buf priority block front (length-write_frame_header buf h))
write_frame_to-write_frame buf (settings_frame params true) short =
    let h : FrameHeader = header 0 settings_type ack_flag 0 in
    tested buf (write_frame_header h) (store_at 0 (write_frame_header h) buf) 9
      (length-write_frame_header buf h) (store_at-front buf (write_frame_header h))
write_frame_to-write_frame buf (settings_frame params false) short =
    let h : FrameHeader = header (length params * 6) settings_type 0 0 in
    let front : List ℕ = write_frame_header h in
    tested buf (front ++ write_settings params) (put_settings 0 params (store_at 0 front buf))
      (9 + length params * 6)
      (size_lem buf h (write_settings params) (length params * 6) (length-write_settings params))
      (ap (put_settings 0 params) (store_at-front buf front)
        ∙ put_settings-filled buf params 0 front (length-write_frame_header buf h))
write_frame_to-write_frame buf (window_update_frame stream_id increment) short =
    let h : FrameHeader = header 4 window_update_type 0 stream_id in
    let payload : List ℕ = write_uint32 (bit_and increment 0x7FFFFFFF) in
    tested buf (write_frame_header h ++ payload)
      (store_at 9 payload (store_at 0 (write_frame_header h) buf)) 13
      (size_lem buf h payload 4 refl) (one_piece buf h payload)
write_frame_to-write_frame buf (ping_frame opaque_data ack) short =
    let h : FrameHeader = header 8 ping_type (if ack then ack_flag else 0) 0 in
    let payload : List ℕ = write_uint64 opaque_data in
    tested buf (write_frame_header h ++ payload)
      (store_at 9 payload (store_at 0 (write_frame_header h) buf)) 17
      (size_lem buf h payload 8 refl) (one_piece buf h payload)
write_frame_to-write_frame buf (goaway_frame last_stream_id error_code debug) short =
    let h : FrameHeader = header (8 + length debug) goaway_type 0 0 in
    let front : List ℕ = write_frame_header h in
    let last : List ℕ = write_uint32 (bit_and last_stream_id 0x7FFFFFFF) in
    let error : List ℕ = write_uint32 error_code in
    tested buf (front ++ (last ++ (error ++ debug)))
      (copy 17 debug (store_at 13 error (store_at 9 last (store_at 0 front buf))))
      (9 + (8 + length debug))
      (size_lem buf h (last ++ (error ++ debug)) (8 + length debug) (omega arith))
      (ap (λ t. copy 17 debug (store_at 13 error t)) (one_piece buf h last)
        ∙ ap (copy 17 debug)
            (store_at-filled buf (front ++ last) error 13 (size_lem buf h last 4 refl))
        ∙ copy-filled buf ((front ++ last) ++ error) debug 17 (
            let n : length ((front ++ last) ++ error) ≡ 17 =
              omega (arith, length-append (front ++ last) error, size_lem buf h last 4 refl) in
            n)
        ∙ ap (filled buf)
            (append_assoc (front ++ last) error debug ∙ append_assoc front last (error ++ debug)))
write_frame_to-write_frame buf (rst_stream_frame stream_id error_code) short =
    let h : FrameHeader = header 4 rst_stream_type 0 stream_id in
    let payload : List ℕ = write_uint32 error_code in
    tested buf (write_frame_header h ++ payload)
      (store_at 9 payload (store_at 0 (write_frame_header h) buf)) 13
      (size_lem buf h payload 4 refl) (one_piece buf h payload)
write_frame_to-write_frame buf (push_promise_frame stream_id promised block end_headers) short =
    let h : FrameHeader =
      header (4 + length block) push_promise_type (if end_headers then end_headers_flag else 0)
        stream_id in
    let front : List ℕ = write_frame_header h in
    let number : List ℕ = write_uint32 (bit_and promised 0x7FFFFFFF) in
    tested buf (front ++ (number ++ block))
      (copy 13 block (store_at 9 number (store_at 0 front buf))) (9 + (4 + length block))
      (size_lem buf h (number ++ block) (4 + length block) (omega arith))
      (ap (copy 13 block) (one_piece buf h number)
        ∙ copy-filled buf (front ++ number) block 13 (size_lem buf h number 4 refl)
        ∙ ap (filled buf) (append_assoc front number block))
write_frame_to-write_frame buf (continuation_frame stream_id block end_headers) short =
    let h : FrameHeader =
      header (length block) continuation_type (if end_headers then end_headers_flag else 0)
        stream_id in
    tested buf (write_frame_header h ++ block)
      (copy 9 block (store_at 0 (write_frame_header h) buf)) (9 + length block)
      (size_lem buf h block (length block) refl) (one_copy buf h block)
