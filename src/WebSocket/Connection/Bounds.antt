-- ===== src/WebSocket/Connection/Bounds.antt =====
-- The memory that a WebSocket connection holds for its peer, over feed (src/http/websocket.cpp).
use bolt_api.Prelude.{
  ℕ, zero, suc, ◌+◌, ◌-◌, ◌^◌, ◌<◌, ◌≡◌, refl, Bool, true, false, not, Bool-cases, Option-cases,
  ◌==◌, if◌then◌else◌, List, [], ◌∷◌, Option, none, some, length, length-take, take, drop, inl, inr,
  arith,
}
use bolt_api.WebSocket.Frame.{HeaderResult, need_more, error_length, header_ok, parse_header}
use bolt_api.WebSocket.Sender.{
  Config, WebSocketConnection, connect, fail, protocol_error, message_too_big,
}
use bolt_api.WebSocket.Connection.{
  check_header, store_run, begin_frame, take_payload, enter_frame, handle_frame, feed_rounds, feed,
}
use bolt_api.WebSocket.Connection.Callbacks.{Keeps, fail-Keeps}
use bolt_api.WebSocket.Connection.Frames.{
  IsBounded, quiet-IsBounded, finish_if-IsBounded, start_frame-IsBounded, store_run-IsBounded,
}

take_payload-IsBounded :
    (bytes : List ℕ) (c : WebSocketConnection)
    → c.in_frame ≡ true
    → IsBounded c
    → IsBounded (take_payload bytes c).1
unfolding take_payload
take_payload-IsBounded bytes c i b =
    let run : List ℕ = take c.frame_remaining bytes in
    finish_if-IsBounded (c.frame_remaining - length run == 0) (store_run run c)
      (store_run-IsBounded run c i (omega (arith, length-take c.frame_remaining bytes)) b)

fail-IsBounded :
    (code : ℕ) (reason : List ℕ) (c : WebSocketConnection)
    → IsBounded c
    → IsBounded (fail code reason c)
fail-IsBounded code reason c b =
    let k : Keeps 0 c (fail code reason c) = fail-Keeps code reason c in
    quiet-IsBounded (fail code reason c) (unfold fail in refl) (rw k.config b.small)
      (rw (k.config, k.buffer) b.assembled) (rw k.control b.control)
      (rw k.config (k.calls c.config.max_message_size (omega arith) b.delivered))

-- The state behind a step, if the step had bytes enough.
abbrev after_step : Option (ℕ × WebSocketConnection) → WebSocketConnection → WebSocketConnection
after_step none c = c
after_step (some (used, d)) c = d

enter_frame-IsBounded :
    (len : ℕ) (res : HeaderResult) (c : WebSocketConnection)
    → IsBounded c
    → IsBounded (after_step (enter_frame len res c) c)
unfolding enter_frame
enter_frame-IsBounded len need_more c b = b
enter_frame-IsBounded len error_length c b = fail-IsBounded 1002 protocol_error c b
enter_frame-IsBounded len (header_ok h hlen) c b = elim (Bool-cases (check_header h c == 0)) [
  | inl good ↦ rw good (start_frame-IsBounded h hlen c good b)
  | inr bad ↦ rw bad (
      fail-IsBounded (check_header h c)
        (if check_header h c == 1009 then message_too_big else protocol_error) c b)
]

next_step-IsBounded :
    (bytes : List ℕ) (c : WebSocketConnection) (inside : Bool)
    → c.in_frame ≡ inside
    → IsBounded c
    → IsBounded
        (after_step (if not inside then begin_frame bytes c else some (take_payload bytes c)) c)
unfolding begin_frame
next_step-IsBounded bytes c true i b = take_payload-IsBounded bytes c i b
next_step-IsBounded bytes c false i b =
    enter_frame-IsBounded (length bytes) (parse_header bytes) c b

handle_frame-IsBounded :
    (bytes : List ℕ) (c : WebSocketConnection)
    → IsBounded c
    → IsBounded (after_step (handle_frame bytes c) c)
unfolding handle_frame
handle_frame-IsBounded [] c b = b
handle_frame-IsBounded (x ∷ bytes) c b = elim (Bool-cases (not c.is_open)) [
  | inl shut ↦ rw shut b
  | inr live ↦ rw live (next_step-IsBounded (x ∷ bytes) c c.in_frame refl b)
]

feed_rounds-IsBounded :
    (n : ℕ) (bytes : List ℕ) (c : WebSocketConnection)
    → IsBounded c
    → IsBounded (feed_rounds n bytes c).1
unfolding feed_rounds
feed_rounds-IsBounded zero bytes c b = b
feed_rounds-IsBounded (suc n) bytes c b = elim (Option-cases (handle_frame bytes c)) [
  | inl waits ↦ rw (waits, feed_rounds) b
  | inr ((used, d), stepped) ↦
      rw (stepped, feed_rounds)
        (feed_rounds-IsBounded n (drop used bytes) d
          (rw stepped at (handle_frame-IsBounded bytes c b)))
]

-- Whatever bytes the peer sends, in whatever pieces: a connection never holds more of a message
-- than `max_message_size`, and never more of a control frame than 125 bytes, the rest of the frame
-- in progress included, and no message that it hands to a callback is larger than
-- `max_message_size`. The limit is to be below 2^63, so that the check's sum does not wrap.
pub feed-IsBounded :
    (bytes : List ℕ) (c : WebSocketConnection) → IsBounded c → IsBounded (feed bytes c).1
unfolding feed
feed-IsBounded bytes c b = feed_rounds-IsBounded (length bytes + 1) bytes c b

pub connect-IsBounded :
    (config : Config) → config.max_message_size < 2 ^ 63 → IsBounded (connect config)
unfolding connect
connect-IsBounded config m = quiet-IsBounded (connect config) refl m (omega arith) (omega arith) tt
