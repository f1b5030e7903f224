-- ===== src/WebSocket/Connection/Callbacks.antt =====
-- The replies and callbacks of a WebSocket connection, and what they touch (src/http/websocket.cpp).
use bolt_api.Prelude.{
  All, length, ◌≤◌, arith, ℕ, ◌+◌, ◌≡◌, refl, Bool, true, false, not, ◌||◌, Bool-cases, ◌==◌,
  if◌then◌else◌, List, inl, inr,
}
use bolt_api.WebSocket.Utf8.{validate_utf8}
use bolt_api.WebSocket.Close.{
  code_invalid_payload, CloseResult, close_error, close_ok, parse_close_payload,
}
use bolt_api.WebSocket.Sender.{
  WebSocketConnection, Event, on_text_message, on_binary_message, on_ping, on_pong, on_close,
  notify, on_error, close, fail, invalid_close_frame, invalid_utf8, invalid_utf8_message,
  send_frame, send_pong,
}
use bolt_api.WebSocket.Connection.{
  c_str, finish_close, handle_message, handle_close, handle_control_frame,
}

-- A callback that gets a message of at most `max` bytes, or no message.
abbrev pub Fits : ℕ → Event → Type 0
Fits max (on_text_message data_bytes) = length data_bytes ≤ max
Fits max (on_binary_message data_bytes) = length data_bytes ≤ max
Fits max (on_error reason) = Unit
Fits max on_ping = Unit
Fits max on_pong = Unit
Fits max (on_close code reason) = Unit

-- The callbacks' side of a connection changes nothing of what is held, ends no frame that it does
-- not know of, and hands on no message above `size` bytes.
pub record Keeps (size : ℕ) (c d : WebSocketConnection) : Type 0 where
  pub config : d.config ≡ c.config
  pub buffer : d.fragment_buffer ≡ c.fragment_buffer
  pub control : d.ctrl_buf ≡ c.ctrl_buf
  pub idle : c.in_frame ≡ false → d.in_frame ≡ false
  pub calls : (max : ℕ) → size ≤ max → All (Fits max) c.events → All (Fits max) d.events

Keeps-refl : (size : ℕ) (c : WebSocketConnection) → Keeps size c c
Keeps-refl size c = record {
  config = refl;
  buffer = refl;
  control = refl;
  idle = λ i. i;
  calls = λ max h fits. fits;
}

Keeps-if :
    (b : Bool) (c d e : WebSocketConnection)
    → Keeps 0 c d
    → Keeps 0 c e
    → Keeps 0 c (if b then d else e)
Keeps-if true c d e h k = h
Keeps-if false c d e h k = k

close-Keeps :
    (code : ℕ) (reason : List ℕ) (c : WebSocketConnection) → Keeps 0 c (close code reason c)
unfolding close
close-Keeps code reason c = elim (Bool-cases (not c.is_open || c.closing)) [
  | inl done ↦ rw done (Keeps-refl 0 c)
  | inr live ↦ rw live (record {
    config = refl;
    buffer = refl;
    control = refl;
    idle = λ i. i;
    calls = λ max h fits. (tt, fits);
  })
]

pub fail-Keeps :
    (code : ℕ) (reason : List ℕ) (c : WebSocketConnection) → Keeps 0 c (fail code reason c)
unfolding fail
fail-Keeps code reason c =
    let c' : WebSocketConnection = notify (on_error reason) c in
    let k : Keeps 0 c' (close code reason c') = close-Keeps code reason c' in
    record {
      config = k.config;
      buffer = k.buffer;
      control = k.control;
      idle = λ i. refl;
      calls = λ max h fits. k.calls max h (tt, fits);
    }

send_pong-Keeps :
    (data_bytes : List ℕ) (c : WebSocketConnection) → Keeps 0 c (send_pong data_bytes c)
unfolding send_pong send_frame
send_pong-Keeps data_bytes c = elim (Bool-cases (not c.is_open || c.closing)) [
  | inl done ↦ rw done (Keeps-refl 0 c)
  | inr live ↦ rw live (record {
    config = refl;
    buffer = refl;
    control = refl;
    idle = λ i. i;
    calls = λ max h fits. fits;
  })
]

pub handle_message-Keeps :
    (opcode : ℕ) (data_bytes : List ℕ) (c : WebSocketConnection)
    → Keeps (length data_bytes) c (handle_message opcode data_bytes c)
unfolding handle_message
handle_message-Keeps opcode data_bytes c = elim (Bool-cases (opcode == 1)) [
  | inl text ↦ elim (Bool-cases (not (validate_utf8 data_bytes))) [
    | inl bad ↦
        let c' : WebSocketConnection =
          notify (on_error invalid_utf8_message)
            (record c { messages_received = c.messages_received + 1 }) in
        let k : Keeps 0 c' (close code_invalid_payload invalid_utf8 c') =
          close-Keeps code_invalid_payload invalid_utf8 c' in
        rw (text, bad)
          (record {
            config = k.config;
            buffer = k.buffer;
            control = k.control;
            idle = k.idle;
            calls = λ max h fits. k.calls max (omega arith) (tt, fits);
          })
    | inr good ↦
        rw (text, good)
          (record {
            config = refl;
            buffer = refl;
            control = refl;
            idle = λ i. i;
            calls = λ max h fits. (h, fits);
          })
  ]
  | inr other ↦ elim (Bool-cases (opcode == 2)) [
    | inl binary ↦
        rw (other, binary)
          (record {
            config = refl;
            buffer = refl;
            control = refl;
            idle = λ i. i;
            calls = λ max h fits. (h, fits);
          })
    | inr neither ↦
        rw (other, neither)
          (record {
            config = refl;
            buffer = refl;
            control = refl;
            idle = λ i. i;
            calls = λ max h fits. fits;
          })
  ]
]

handle_close-Keeps :
    (data_bytes : List ℕ) (c : WebSocketConnection) → Keeps 0 c (handle_close data_bytes c)
unfolding handle_close
handle_close-Keeps data_bytes c = close_body (parse_close_payload data_bytes)
  where
    close_body : (res : CloseResult) → Keeps 0 c (finish_close res c)
    close_body (close_error code) = fail-Keeps code invalid_close_frame c
    close_body (close_ok code reason) =
        let k : Keeps 0 c (if c.closing then c else close code (c_str reason) c) =
          Keeps-if c.closing c c (close code (c_str reason) c) (Keeps-refl 0 c)
            (close-Keeps code (c_str reason) c) in
        record {
          config = k.config;
          buffer = k.buffer;
          control = k.control;
          idle = k.idle;
          calls = λ max h fits. k.calls max h fits;
        }

pub handle_control_frame-Keeps :
    (opcode : ℕ) (data_bytes : List ℕ) (c : WebSocketConnection)
    → Keeps 0 c (handle_control_frame opcode data_bytes c)
unfolding handle_control_frame
handle_control_frame-Keeps opcode data_bytes c = elim (Bool-cases (opcode == 0x9)) [
  | inl ping ↦
      let k : Keeps 0 c (send_pong data_bytes c) = send_pong-Keeps data_bytes c in
      rw ping (record {
        config = k.config;
        buffer = k.buffer;
        control = k.control;
        idle = k.idle;
        calls = λ max h fits. (tt, k.calls max h fits);
      })
  | inr a ↦ elim (Bool-cases (opcode == 0xA)) [
    | inl pong ↦
        rw (a, pong)
          (record {
            config = refl;
            buffer = refl;
            control = refl;
            idle = λ i. i;
            calls = λ max h fits. (tt, fits);
          })
    | inr b ↦ elim (Bool-cases (opcode == 0x8)) [
      | inl closes ↦ rw (a, b, closes) (handle_close-Keeps data_bytes c)
      | inr other ↦ rw (a, b, other) (Keeps-refl 0 c)
    ]
  ]
]
