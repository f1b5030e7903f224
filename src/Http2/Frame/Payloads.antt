-- ===== src/Http2/Frame/Payloads.antt =====
-- What the parsers of src/http/http2_frame.cpp read from the payloads of the writers, for the frames
-- without a list of fields.
use bolt_api.Prelude.{
  ℕ, ◌+◌, ◌-◌, ◌%◌, ◌^◌, ◌<◌, ◌≡◌, refl, sym, ap, ap₂, ◌∙◌, ltb, Bool, true, false, ◌==◌,
  if◌then◌else◌, some, List, [], ◌∷◌, ◌++◌, length, take, drop, bit_and, append_assoc, append-nil,
  take-length_append, arith,
}
use bolt_api.Prelude.Bits.{bit_and_mask}
use bolt_api.Prelude.Bytes.{has_bit}
use bolt_api.Http2.Frame.{
  FrameHeader, data_type, rst_stream_type, push_promise_type, ping_type, goaway_type,
  window_update_type, continuation_type, end_stream_flag, ack_flag, end_headers_flag,
  parse_frame_header, parse_data_frame, parse_rst_stream_frame, parse_ping_frame,
  parse_goaway_frame, parse_window_update_frame, parse_push_promise_frame, padded_flag, body,
  read_uint32,
}
use bolt_api.Http2.Frame.Write.{
  write_uint24, write_uint32, write_uint64, write_frame_header, header,
}
use bolt_api.Http2.Frame.Numbers.{
  read_uint24-write_uint24, read_uint32-write_uint32, read_uint64-write_uint64,
}
use bolt_api.Http2.Frame.Layout.{
  data_frame, window_update_frame, ping_frame, goaway_frame, rst_stream_frame, push_promise_frame,
  continuation_frame, dispatch, read_frame,
}

-- A header with 24 bits of length and 31 of stream.
abbrev pub wide : ℕ → ℕ → ℕ → ℕ → FrameHeader
wide payload_length frame_type flags stream_id = record {
  payload_length = payload_length;
  frame_type = frame_type;
  flags = flags;
  stream_id = stream_id;
}

pub low_31 : (v : ℕ) → v < 2 ^ 31 → bit_and v 0x7FFFFFFF ≡ v
low_31 v h = omega (arith, bit_and_mask 31 v)

parse_frame_header-write_frame_header :
    (len frame_type flags stream_id : ℕ) (rest : List ℕ)
    → len < 2 ^ 24
    → stream_id < 2 ^ 31
    → parse_frame_header (write_frame_header (header len frame_type flags stream_id) ++ rest)
      ≡ wide len frame_type flags stream_id
unfolding parse_frame_header write_frame_header write_uint24
parse_frame_header-write_frame_header len frame_type flags stream_id rest h k =
    let same : len % 2 ^ 32 ≡ len = omega arith in
    let tail : List ℕ = frame_type ∷ flags ∷ (write_uint32 stream_id ++ rest) in
    rw
      (
        same,
        low_31 stream_id k,
        read_uint24-write_uint24 len tail h,
        read_uint32-write_uint32 stream_id rest (omega arith),
        low_31 stream_id k,
      )
      refl

drop-write_frame_header :
    (h : FrameHeader) (rest : List ℕ) → drop 9 (write_frame_header h ++ rest) ≡ rest
unfolding write_frame_header write_uint24 write_uint32
drop-write_frame_header h rest = refl

-- A frame is read by the parser of its type, whatever follows it.
pub read_lem :
    (frame_type flags stream_id : ℕ) (payload rest : List ℕ)
    → length payload < 2 ^ 24
    → stream_id < 2 ^ 31
    → read_frame (
        (write_frame_header (header (length payload) frame_type flags stream_id) ++ payload)
        ++ rest)
      ≡ dispatch (wide (length payload) frame_type flags stream_id) payload
unfolding read_frame
read_lem frame_type flags stream_id payload rest h k =
    let hdr : FrameHeader = header (length payload) frame_type flags stream_id in
    let front : List ℕ = write_frame_header hdr in
    ap read_frame (append_assoc front payload rest)
    ∙ ap₂ (λ (h : FrameHeader) (bytes : List ℕ). dispatch h (take h.payload_length bytes))
        (parse_frame_header-write_frame_header (length payload) frame_type flags stream_id
          (payload ++ rest) h k)
        (drop-write_frame_header hdr (payload ++ rest))
    ∙ ap (dispatch (wide (length payload) frame_type flags stream_id))
        (take-length_append payload rest)

-- The bytes between the fields in front and the padding.
pub body_lem :
    (payload block padding : List ℕ) (offset : ℕ)
    → drop offset payload ≡ block ++ padding
    → length payload ≡ offset + (length block + length padding)
    → body payload offset (length padding) ≡ block
body_lem payload block padding offset d l =
    ap₂ take (let n : length payload - offset - length padding ≡ length block = omega arith in n) d
    ∙ take-length_append block padding

pub whole : (bytes : List ℕ) → body bytes 0 0 ≡ bytes
whole bytes = body_lem bytes bytes [] 0 (sym (append-nil bytes)) (omega arith)

same_length : (n : ℕ) → (n == n) ≡ true
same_length n = ground arith

module _ (stream_id : ℕ) where
  pub dispatch-data_frame :
      (bytes : List ℕ) (end_stream : Bool)
      → dispatch
          (wide (length bytes) data_type (if end_stream then end_stream_flag else 0) stream_id)
          bytes
        ≡ some (data_frame stream_id bytes end_stream)
  unfolding dispatch parse_data_frame
  dispatch-data_frame bytes true = rw (same_length (length bytes), whole bytes) refl
  dispatch-data_frame bytes false = rw (same_length (length bytes), whole bytes) refl

  pub dispatch-continuation_frame :
      (block : List ℕ) (end_headers : Bool)
      → dispatch
          (wide
            (length block)
            continuation_type
            (if end_headers then end_headers_flag else 0)
            stream_id)
          block
        ≡ some (continuation_frame stream_id block end_headers)
  unfolding dispatch
  dispatch-continuation_frame block true = refl
  dispatch-continuation_frame block false = refl

  pub dispatch-rst_stream_frame :
      (error_code : ℕ)
      → error_code < 2 ^ 32
      → dispatch (wide 4 rst_stream_type 0 stream_id) (write_uint32 error_code)
        ≡ some (rst_stream_frame stream_id error_code)
  unfolding dispatch parse_rst_stream_frame write_uint32
  dispatch-rst_stream_frame error_code h =
      ap (λ v. some (rst_stream_frame stream_id v)) (read_uint32-write_uint32 error_code [] h)

  pub dispatch-window_update_frame :
      (increment : ℕ)
      → 0 < increment
      → increment < 2 ^ 31
      → dispatch (wide 4 window_update_type 0 stream_id) (write_uint32 increment)
        ≡ some (window_update_frame stream_id increment)
  unfolding dispatch parse_window_update_frame write_uint32
  dispatch-window_update_frame increment p h =
      let nonzero : (increment == 0) ≡ false = ground arith in
      rw (read_uint32-write_uint32 increment [] (omega arith), low_31 increment h, nonzero) refl

  promise_flags :
      (promised flags : ℕ) (block : List ℕ)
      → has_bit flags padded_flag ≡ false
      → promised < 2 ^ 31
      → dispatch
          (wide (4 + length block) push_promise_type flags stream_id)
          (write_uint32 promised ++ block)
        ≡ some (push_promise_frame stream_id promised block (has_bit flags end_headers_flag))
  unfolding dispatch parse_push_promise_frame write_uint32
  promise_flags promised flags block unpadded h =
      let payload : List ℕ = write_uint32 promised ++ block in
      let number : bit_and (read_uint32 payload) 0x7FFFFFFF ≡ promised =
        ap (λ v. bit_and v 0x7FFFFFFF) (read_uint32-write_uint32 promised block (omega arith))
        ∙ low_31 promised h in
      let rest : body payload 4 0 ≡ block =
        body_lem payload block [] 4 (sym (append-nil block)) (omega arith) in
      let size : (4 + length block == length payload) ≡ true = ground arith in
      let room : ltb (length payload) 4 ≡ false = ground arith in
      rw (size, unpadded, room, number, rest) refl

  pub dispatch-push_promise_frame :
      (promised : ℕ) (block : List ℕ) (end_headers : Bool)
      → promised < 2 ^ 31
      → dispatch
          (wide
            (4 + length block)
            push_promise_type
            (if end_headers then end_headers_flag else 0)
            stream_id)
          (write_uint32 promised ++ block)
        ≡ some (push_promise_frame stream_id promised block end_headers)
  dispatch-push_promise_frame promised block true h =
      promise_flags promised end_headers_flag block refl h
  dispatch-push_promise_frame promised block false h = promise_flags promised 0 block refl h

pub dispatch-ping_frame :
    (opaque_data : ℕ) (ack : Bool)
    → opaque_data < 2 ^ 64
    → dispatch (wide 8 ping_type (if ack then ack_flag else 0) 0) (write_uint64 opaque_data)
      ≡ some (ping_frame opaque_data ack)
unfolding dispatch parse_ping_frame write_uint64
dispatch-ping_frame opaque_data true h =
    ap (λ v. some (ping_frame v true)) (read_uint64-write_uint64 opaque_data [] h)
dispatch-ping_frame opaque_data false h =
    ap (λ v. some (ping_frame v false)) (read_uint64-write_uint64 opaque_data [] h)

take_all : (bytes : List ℕ) → take (length bytes) bytes ≡ bytes
take_all [] = refl
take_all (b ∷ bytes) = ap (◌∷◌ b) (take_all bytes)

pub dispatch-goaway_frame :
    (last_stream_id error_code : ℕ) (debug : List ℕ)
    → last_stream_id < 2 ^ 31
    → error_code < 2 ^ 32
    → dispatch
        (wide (8 + length debug) goaway_type 0 0)
        (write_uint32 last_stream_id ++ (write_uint32 error_code ++ debug))
      ≡ some (goaway_frame last_stream_id error_code debug)
unfolding dispatch parse_goaway_frame write_uint32
dispatch-goaway_frame last_stream_id error_code debug h k =
    let payload : List ℕ = write_uint32 last_stream_id ++ (write_uint32 error_code ++ debug) in
    let number : bit_and (read_uint32 payload) 0x7FFFFFFF ≡ last_stream_id =
      ap (λ v. bit_and v 0x7FFFFFFF)
        (read_uint32-write_uint32 last_stream_id (write_uint32 error_code ++ debug) (omega arith))
      ∙ low_31 last_stream_id h in
    let room : ltb (length payload) 8 ≡ false = ground arith in
    let text : (if ltb 8 (length payload) then take (length payload - 8) debug else []) ≡ debug =
      debug_lem debug (length payload) (omega arith) in
    rw (room, number, read_uint32-write_uint32 error_code debug k, text) refl
  where
    debug_lem :
        (debug : List ℕ) (n : ℕ)
        → n ≡ 8 + length debug
        → (if ltb 8 n then take (n - 8) debug else []) ≡ debug
    debug_lem [] n e = let none_left : ltb 8 n ≡ false = ground arith in rw none_left refl
    debug_lem (b ∷ debug) n e =
        let some_left : ltb 8 n ≡ true = ground arith in
        let count : n - 8 ≡ length (b ∷ debug) = omega arith in
        rw (some_left, count) (take_all (b ∷ debug))
