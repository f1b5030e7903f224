-- ===== src/WebSocket/Connection.antt =====
-- The receiving state machine of src/http/websocket.cpp: feed, handle_frame, begin_frame,
-- check_header, finish_frame, handle_message and handle_control_frame of WebSocketConnection.
pub mod Callbacks
pub mod Frames
pub mod Bounds
use bolt_api.Prelude.{
  ℕ, zero, suc, ◌+◌, ◌-◌, ◌%◌, ◌^◌, Bool, true, false, not, ◌&&◌, ◌||◌, ltb, leb, ◌==◌,
  if◌then◌else◌, List, [], ◌∷◌, ◌++◌, Option, none, some, length, take, drop, bit_and,
}
use bolt_api.WebSocket.Frame.{
  FrameHeader, HeaderResult, need_more, error_length, header_ok, parse_header, unmask, build_frame,
}
use bolt_api.WebSocket.Utf8.{validate_utf8}
use bolt_api.WebSocket.Close.{
  build_close_frame, code_no_status, code_invalid_payload, CloseResult, close_error, close_ok,
  parse_close_payload,
}
use bolt_api.WebSocket.Sender.{
  message_too_big, protocol_error, invalid_close_frame, invalid_utf8, invalid_utf8_message,
  max_control_payload, Config, Event, WebSocketConnection, connect, notify, close, fail, fragments,
  send_frame, SendResult, send_binary, send_ping, send_text, pop_pending_output, send_pong,
  on_text_message, on_binary_message, on_error, on_ping, on_pong, on_close, sent, not_open,
  bad_utf8,
}

abbrev pub is_control : ℕ → Bool
is_control op = not (bit_and op 0x08 == 0)

-- 0, or the close code to fail with. The sum of the sizes is one of two uint64_t.
unfoldable pub check_header : FrameHeader → WebSocketConnection → ℕ
check_header h c =
    let op = h.opcode in
    if h.rsv1 || h.rsv2 || h.rsv3
    then 1002
    else if ltb 0x2 op && (ltb op 0x8 || ltb 0xA op)
    then 1002
    else if not h.mask
    then 1002
    else if is_control op
    then (if not h.fin || ltb max_control_payload h.payload_length then 1002 else 0)
    else if (if op == 0 then not c.in_fragment else c.in_fragment)
    then 1002
    else let have = length c.fragment_buffer in
      if ltb c.config.max_message_size h.payload_length
        || ltb c.config.max_message_size ((have + h.payload_length) % 2 ^ 64)
      then 1009
      else 0

unfoldable pub handle_message : ℕ → List ℕ → WebSocketConnection → WebSocketConnection
unfolding close
handle_message opcode data_bytes c =
    let c' = record c { messages_received = c.messages_received + 1 } in
    if opcode == 1
    then (if not (validate_utf8 data_bytes)
        then close code_invalid_payload invalid_utf8 (notify (on_error invalid_utf8_message) c')
        else notify (on_text_message data_bytes) c')
    else if opcode == 2
    then notify (on_binary_message data_bytes) c'
    else c'

-- What `c_str` hands on of a string: the bytes in front of the first null.
unfoldable pub c_str : List ℕ → List ℕ
c_str [] = []
c_str (b ∷ bytes) = let rest = c_str bytes in if b == 0 then [] else b ∷ rest

-- What `handle_control_frame` does with a close frame, by the result of its parse.
unfoldable pub finish_close : CloseResult → WebSocketConnection → WebSocketConnection
unfolding fail close c_str
finish_close (close_error code) c = fail code invalid_close_frame c
finish_close (close_ok code reason) c =
    record (if c.closing then c else close code (c_str reason) c) { is_open = false }

unfoldable pub handle_close : List ℕ → WebSocketConnection → WebSocketConnection
unfolding finish_close
handle_close data_bytes c = finish_close (parse_close_payload data_bytes) c

unfoldable pub handle_control_frame : ℕ → List ℕ → WebSocketConnection → WebSocketConnection
unfolding send_pong handle_close
handle_control_frame opcode data_bytes c =
    if opcode == 0x9
    then notify on_ping (send_pong data_bytes c)
    else if opcode == 0xA
    then notify on_pong c
    else if opcode == 0x8
    then handle_close data_bytes c
    else c

unfoldable pub finish_frame : WebSocketConnection → WebSocketConnection
unfolding handle_control_frame handle_message
finish_frame c =
    let c' = record c { in_frame = false } in
    if is_control c.frame.opcode
    then handle_control_frame c.frame.opcode c.ctrl_buf c'
    else if not c.frame.fin
    then c'
    else record (handle_message c.fragment_opcode c.fragment_buffer
        (record c' { in_fragment = false })) { fragment_buffer = [] }

-- The state behind a header that was read and passed the checks.
unfoldable pub open_frame : FrameHeader → ℕ → WebSocketConnection → WebSocketConnection
open_frame h hlen c =
    let c' = record c {
      frame = h;
      in_frame = true;
      frame_offset = 0;
      frame_remaining = h.payload_length;
      bytes_received = c.bytes_received + hlen;
    } in
    if is_control h.opcode
    then record c' { ctrl_buf = [] }
    else if not (h.opcode == 0)
    then record c' { in_fragment = true; fragment_opcode = h.opcode; fragment_buffer = [] }
    else c'

-- A frame without payload ends at once.
unfoldable pub start_frame : FrameHeader → ℕ → WebSocketConnection → WebSocketConnection
unfolding open_frame finish_frame
start_frame h hlen c =
    let c' = open_frame h hlen c in if h.payload_length == 0 then finish_frame c' else c'

-- `begin_frame` behind its call of `parse_header`: `none` when more bytes are needed, and else the
-- bytes consumed of the `length`.
unfoldable pub enter_frame :
    ℕ → HeaderResult → WebSocketConnection → Option (ℕ × WebSocketConnection)
unfolding check_header start_frame fail
enter_frame len need_more c = none
enter_frame len error_length c = some (len, fail 1002 protocol_error c)
enter_frame len (header_ok h hlen) c =
    let err = check_header h c in
    if err == 0
    then some (hlen, start_frame h hlen c)
    else some (len, fail err (if err == 1009 then message_too_big else protocol_error) c)

unfoldable pub begin_frame : List ℕ → WebSocketConnection → Option (ℕ × WebSocketConnection)
unfolding enter_frame
begin_frame bytes c = enter_frame (length bytes) (parse_header bytes) c

-- The state behind a run of payload bytes.
unfoldable pub store_run : List ℕ → WebSocketConnection → WebSocketConnection
unfolding unmask
store_run run c =
    let plain = if c.frame.mask then unmask c.frame.masking_key c.frame_offset run else run in
    let stored =
      if is_control c.frame.opcode
      then record c { ctrl_buf = c.ctrl_buf ++ plain }
      else record c { fragment_buffer = c.fragment_buffer ++ plain } in
    record stored {
      frame_offset = c.frame_offset + length run;
      frame_remaining = c.frame_remaining - length run;
      bytes_received = c.bytes_received + length run;
    }

-- A run of payload bytes, at most the rest of the frame.
unfoldable pub take_payload : List ℕ → WebSocketConnection → ℕ × WebSocketConnection
unfolding store_run finish_frame
take_payload bytes c =
    let run = take c.frame_remaining bytes in
    let c' = store_run run c in
    (length run, if c.frame_remaining - length run == 0 then finish_frame c' else c')

unfoldable pub handle_frame : List ℕ → WebSocketConnection → Option (ℕ × WebSocketConnection)
unfolding begin_frame take_payload
handle_frame [] c = none
handle_frame (b ∷ bytes) c =
    if not c.is_open
    then some (length (b ∷ bytes), c)
    else if not c.in_frame
    then begin_frame (b ∷ bytes) c
    else some (take_payload (b ∷ bytes) c)

-- The loop of `feed`, with the rounds that are left; the bytes consumed and the state.
unfoldable pub feed_rounds : ℕ → List ℕ → WebSocketConnection → ℕ × WebSocketConnection
unfolding handle_frame
feed_rounds zero bytes c = (0, c)
feed_rounds (suc n) bytes c = elim (handle_frame bytes c) [
  | none ↦ (0, c)
  | some (used, c') ↦ let (more, c'') = feed_rounds n (drop used bytes) c' in (used + more, c'')
]

unfoldable pub feed : List ℕ → WebSocketConnection → ℕ × WebSocketConnection
unfolding feed_rounds
feed bytes c = feed_rounds (length bytes + 1) bytes c
