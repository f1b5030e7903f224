-- ===== src/WebSocket/Sender.antt =====
-- The state of a WebSocketConnection (include/boltapi/http/websocket.h) and what it sends: send_text,
-- send_binary, send_ping, send_pong, close and fail of src/http/websocket.cpp. The callbacks are an
-- event log, the newest event first; the send queue is a list, the oldest frame first; clocks,
-- sockets and mutexes are left out, and one thread runs.
use bolt_api.Prelude.{
  ℕ, zero, suc, ◌+◌, Bool, true, false, not, ◌&&◌, ◌||◌, ltb, leb, ◌==◌, if◌then◌else◌, List, [],
  ◌∷◌, ◌++◌, length, take, drop,
}
use bolt_api.WebSocket.Frame.{FrameHeader, build_frame}
use bolt_api.WebSocket.Utf8.{validate_utf8}
use bolt_api.WebSocket.Close.{build_close_frame, code_no_status}

-- The texts, as bytes of ASCII.
abbrev pub message_too_big : List ℕ
message_too_big =
    77 ∷ 101 ∷ 115 ∷ 115 ∷ 97 ∷ 103 ∷ 101 ∷ 32 ∷ 116 ∷ 111 ∷ 111 ∷ 32 ∷ 98 ∷ 105 ∷ 103 ∷ []

abbrev pub protocol_error : List ℕ
protocol_error = 80 ∷ 114 ∷ 111 ∷ 116 ∷ 111 ∷ 99 ∷ 111 ∷ 108 ∷ 32 ∷ 101 ∷ 114 ∷ 114 ∷ 111 ∷ 114 ∷ []

abbrev pub invalid_close_frame : List ℕ
invalid_close_frame =
    73 ∷ 110 ∷ 118 ∷ 97 ∷ 108 ∷ 105 ∷ 100 ∷ 32 ∷ 99 ∷ 108 ∷ 111 ∷ 115 ∷ 101 ∷ 32 ∷ 102 ∷ 114 ∷ 97
    ∷ 109 ∷ 101 ∷ []

abbrev pub invalid_utf8 : List ℕ
invalid_utf8 = 73 ∷ 110 ∷ 118 ∷ 97 ∷ 108 ∷ 105 ∷ 100 ∷ 32 ∷ 85 ∷ 84 ∷ 70 ∷ 45 ∷ 56 ∷ []

abbrev pub invalid_utf8_message : List ℕ
invalid_utf8_message =
    73 ∷ 110 ∷ 118 ∷ 97 ∷ 108 ∷ 105 ∷ 100 ∷ 32 ∷ 85 ∷ 84 ∷ 70 ∷ 45 ∷ 56 ∷ 32 ∷ 105 ∷ 110 ∷ 32 ∷ 116
    ∷ 101 ∷ 120 ∷ 116 ∷ 32 ∷ 109 ∷ 101 ∷ 115 ∷ 115 ∷ 97 ∷ 103 ∷ 101 ∷ []

abbrev pub max_control_payload : ℕ
max_control_payload = 125

-- Config, as far as the receiving side and the replies use it.
pub record Config : Type 0 where
  pub max_message_size : ℕ
  pub auto_fragment : Bool
  pub fragment_size : ℕ

-- The calls of the callbacks, with what they are told.
pub data Event : Type 0 where
  on_text_message on_binary_message on_error : List ℕ → Event
  on_ping on_pong : Event
  on_close : ℕ → List ℕ → Event

pub record WebSocketConnection : Type 0 where
  pub config : Config
  pub is_open : Bool
  pub closing : Bool
  pub messages_sent : ℕ
  pub messages_received : ℕ
  pub bytes_sent : ℕ
  pub bytes_received : ℕ
  pub frame : FrameHeader
  pub in_frame : Bool
  pub frame_remaining : ℕ
  pub frame_offset : ℕ
  pub ctrl_buf : List ℕ
  pub fragment_buffer : List ℕ
  pub fragment_opcode : ℕ
  pub in_fragment : Bool
  pub send_queue : List (List ℕ)
  pub events : List Event

-- The constructor's state.
unfoldable pub connect : Config → WebSocketConnection
connect config = record {
  config = config;
  is_open = true;
  closing = false;
  messages_sent = 0;
  messages_received = 0;
  bytes_sent = 0;
  bytes_received = 0;
  frame = record {
    fin = false;
    rsv1 = false;
    rsv2 = false;
    rsv3 = false;
    opcode = 0;
    mask = false;
    payload_length = 0;
    masking_key = 0 ∷ 0 ∷ 0 ∷ 0 ∷ [];
  };
  in_frame = false;
  frame_remaining = 0;
  frame_offset = 0;
  ctrl_buf = [];
  fragment_buffer = [];
  fragment_opcode = 0;
  in_fragment = false;
  send_queue = [];
  events = [];
}

abbrev pub notify : Event → WebSocketConnection → WebSocketConnection
notify e c = record c { events = e ∷ c.events }

unfoldable pub close : ℕ → List ℕ → WebSocketConnection → WebSocketConnection
close code reason c =
    let reply =
      if code == code_no_status
      then build_frame 8 [] true false
      else build_close_frame code reason in
    if not c.is_open || c.closing then c else record c {
      closing = true;
      send_queue = c.send_queue ++ (reply ∷ []);
      is_open = false;
      events = on_close code reason ∷ c.events;
    }

unfoldable pub fail : ℕ → List ℕ → WebSocketConnection → WebSocketConnection
unfolding close
fail code reason c = record (close code reason (notify (on_error reason) c)) {
  is_open = false;
  in_frame = false;
}

-- The fragmenting loop of `send_frame`, with a round of fuel for each byte: a chunk has a byte at
-- least, as long as `fragment_size` is not 0.
unfoldable pub fragments : ℕ → ℕ → ℕ → List ℕ → List ℕ
fragments zero size opcode data_bytes = []
fragments (suc n) size opcode [] = []
fragments (suc n) size opcode (b ∷ data_bytes) =
    let all = b ∷ data_bytes in
    build_frame opcode (take size all) (leb (length all) size) false
    ++ fragments n size 0 (drop size all)

unfoldable pub send_frame : ℕ → List ℕ → Bool → WebSocketConnection → WebSocketConnection
unfolding fragments
send_frame opcode data_bytes fin c =
    let framed =
      if c.config.auto_fragment && ltb c.config.fragment_size (length data_bytes)
      then fragments (length data_bytes) c.config.fragment_size opcode data_bytes
      else build_frame opcode data_bytes fin false in
    record c {
      send_queue = c.send_queue ++ (framed ∷ []);
      bytes_sent = c.bytes_sent + length framed;
      messages_sent = if fin then c.messages_sent + 1 else c.messages_sent;
    }

unfoldable pub send_pong : List ℕ → WebSocketConnection → WebSocketConnection
unfolding send_frame
send_pong data_bytes c = if not c.is_open || c.closing then c else send_frame 0xA data_bytes true c

-- The results of the senders are 0, -1 on a connection that is not open, and -2 on bad UTF-8.
pub data SendResult : Type 0 where
  sent not_open bad_utf8 : SendResult

-- `send_binary` and `send_ping`; the clock of the last ping is left out.
unfoldable pub send_binary : List ℕ → WebSocketConnection → SendResult × WebSocketConnection
unfolding send_frame
send_binary data_bytes c =
    if not c.is_open || c.closing then (not_open, c) else (sent, send_frame 2 data_bytes true c)

unfoldable pub send_ping : List ℕ → WebSocketConnection → SendResult × WebSocketConnection
unfolding send_frame
send_ping data_bytes c =
    if not c.is_open || c.closing then (not_open, c) else (sent, send_frame 0x9 data_bytes true c)

unfoldable pub send_text : List ℕ → WebSocketConnection → SendResult × WebSocketConnection
unfolding send_frame
send_text data_bytes c =
    if not c.is_open || c.closing
    then (not_open, c)
    else if not (validate_utf8 data_bytes)
    then (bad_utf8, c)
    else (sent, send_frame 1 data_bytes true c)

unfoldable pub pop_pending_output : WebSocketConnection → WebSocketConnection
pop_pending_output c = record c { send_queue = drop 1 c.send_queue }
