-- ===== src/WebSocket/Connection/Frames.antt =====
-- The memory that a WebSocket connection holds, while a frame begins, goes on and ends
-- (src/http/websocket.cpp).
use bolt_api.Prelude.{
  ℕ, ◌+◌, ◌%◌, ◌^◌, ◌≤◌, ◌<◌, ◌≡◌, refl, Bool, true, false, not, ◌&&◌, ◌||◌, Bool-cases, ltb, ◌==◌,
  if◌then◌else◌, List, [], length, length-append, All, inl, inr, arith,
}
use bolt_api.WebSocket.Frame.{FrameHeader, unmask}
use bolt_api.WebSocket.Sender.{WebSocketConnection, max_control_payload}
use bolt_api.WebSocket.Connection.{
  is_control, check_header, handle_message, handle_control_frame, finish_frame, open_frame,
  start_frame, store_run,
}
use bolt_api.WebSocket.Connection.Callbacks.{
  Fits, Keeps, handle_message-Keeps, handle_control_frame-Keeps,
}
use bolt_api.WebSocket.Frame.MaskLength.{length-plain}

-- What is held, what the frame in progress will still add to it, and what was handed on.
pub record IsBounded (c : WebSocketConnection) : Type 0 where
  pub small : c.config.max_message_size < 2 ^ 63
  pub assembled : length c.fragment_buffer ≤ c.config.max_message_size
  pub control : length c.ctrl_buf ≤ max_control_payload
  pub delivered : All (Fits c.config.max_message_size) c.events
  pub data_frame :
      c.in_frame ≡ true
      → is_control c.frame.opcode ≡ false
      → length c.fragment_buffer + c.frame_remaining ≤ c.config.max_message_size
  pub control_frame :
      c.in_frame ≡ true
      → is_control c.frame.opcode ≡ true
      → length c.ctrl_buf + c.frame_remaining ≤ max_control_payload

clash : (b : Bool) → b ≡ true → b ≡ false → ⊥
clash b e i = cc

-- Between frames only the assembled message counts.
pub quiet-IsBounded :
    (d : WebSocketConnection)
    → d.in_frame ≡ false
    → d.config.max_message_size < 2 ^ 63
    → length d.fragment_buffer ≤ d.config.max_message_size
    → length d.ctrl_buf ≤ max_control_payload
    → All (Fits d.config.max_message_size) d.events
    → IsBounded d
quiet-IsBounded d i m l t e = record {
  small = m;
  assembled = l;
  control = t;
  delivered = e;
  data_frame = λ j. absurd (clash d.in_frame j i);
  control_frame = λ j. absurd (clash d.in_frame j i);
}

finish_frame-IsBounded :
    (c : WebSocketConnection)
    → c.config.max_message_size < 2 ^ 63
    → length c.fragment_buffer ≤ c.config.max_message_size
    → length c.ctrl_buf ≤ max_control_payload
    → All (Fits c.config.max_message_size) c.events
    → IsBounded (finish_frame c)
unfolding finish_frame
finish_frame-IsBounded c m l t e =
    let c' : WebSocketConnection = record c { in_frame = false } in
    elim (Bool-cases (is_control c.frame.opcode)) [
      | inl control ↦
          let d : WebSocketConnection = handle_control_frame c.frame.opcode c.ctrl_buf c' in
          let k : Keeps 0 c' d = handle_control_frame-Keeps c.frame.opcode c.ctrl_buf c' in
          rw control (
            quiet-IsBounded d (k.idle refl) (rw k.config m) (rw (k.config, k.buffer) l)
              (rw k.control t) (rw k.config (k.calls c.config.max_message_size (omega arith) e)))
      | inr data_bytes ↦ elim (Bool-cases (not c.frame.fin)) [
        | inl more ↦ rw (data_bytes, more) (quiet-IsBounded c' refl m l t e)
        | inr last ↦
            let c'' : WebSocketConnection = record c' { in_fragment = false } in
            let k : Keeps (length c.fragment_buffer) c''
                (handle_message c.fragment_opcode c.fragment_buffer c'') =
              handle_message-Keeps c.fragment_opcode c.fragment_buffer c'' in
            rw (data_bytes, last)
              (quiet-IsBounded
                (record (handle_message c.fragment_opcode c.fragment_buffer c'') {
                  fragment_buffer = [];
                })
                (k.idle refl) (rw k.config m) (omega arith) (rw k.control t)
                (rw k.config (k.calls c.config.max_message_size l e)))
      ]
    ]

-- A chain of tests that ends in 0 has passed the one on the length.
passed :
    (rsv reserved bare control large order big : Bool)
    → ((if rsv
          then 1002
          else if reserved
          then 1002
          else if bare
          then 1002
          else if control
          then (if large then 1002 else 0)
          else if order
          then 1002
          else if big
          then 1009
          else 0)
        == 0)
      ≡ true
    → (control ≡ true → large ≡ false) × (control ≡ false → big ≡ false)
passed rsv reserved bare control large order big e = ground arith

or_false : (a b : Bool) → (a || b) ≡ false → (a ≡ false) × (b ≡ false)
or_false a b e = ground arith

-- What the checks of a header say of its length.
check_header-bounds :
    (h : FrameHeader) (c : WebSocketConnection)
    → (check_header h c == 0) ≡ true
    → c.config.max_message_size < 2 ^ 63
    → length c.fragment_buffer ≤ c.config.max_message_size
    → (is_control h.opcode ≡ true → h.payload_length ≤ max_control_payload)
      × (is_control h.opcode ≡ false
          → (h.payload_length ≤ c.config.max_message_size)
            × (length c.fragment_buffer + h.payload_length ≤ c.config.max_message_size))
unfolding check_header
check_header-bounds h c e m l =
    let max : ℕ = c.config.max_message_size in
    let sum : ℕ = (length c.fragment_buffer + h.payload_length) % 2 ^ 64 in
    let (short, fits) =
      passed (h.rsv1 || h.rsv2 || h.rsv3)
        (ltb 0x2 h.opcode && (ltb h.opcode 0x8 || ltb 0xA h.opcode)) (not h.mask)
        (is_control h.opcode) (not h.fin || ltb max_control_payload h.payload_length)
        (if h.opcode == 0 then not c.in_fragment else c.in_fragment)
        (ltb max h.payload_length || ltb max sum) e in
    (
      λ i.
          not_less max_control_payload h.payload_length
            ((or_false (not h.fin) (ltb max_control_payload h.payload_length) (short i)).1),
      λ i.
          let (one, both) = or_false (ltb max h.payload_length) (ltb max sum) (fits i) in
          let small : h.payload_length ≤ max = not_less max h.payload_length one in
          (small, omega (arith, small, not_less max sum both)),
    )
  where
    not_less : (a b : ℕ) → ltb a b ≡ false → b ≤ a
    not_less a b f = ground arith

open_frame-IsBounded :
    (h : FrameHeader) (hlen : ℕ) (c : WebSocketConnection)
    → (check_header h c == 0) ≡ true
    → IsBounded c
    → IsBounded (open_frame h hlen c)
unfolding open_frame
open_frame-IsBounded h hlen c e b =
    let (control_fits, data_fits) = check_header-bounds h c e b.small b.assembled in
    elim (Bool-cases (is_control h.opcode)) [
      | inl control ↦ rw control (record {
        small = b.small;
        assembled = b.assembled;
        control = omega arith;
        delivered = b.delivered;
        data_frame = λ i n. absurd (clash (is_control h.opcode) control n);
        control_frame = λ i n. omega (arith, control_fits control);
      })
      | inr data_bytes ↦ elim (Bool-cases (not (h.opcode == 0))) [
        | inl first ↦
            rw (data_bytes, first)
              (record {
                small = b.small;
                assembled = omega arith;
                control = b.control;
                delivered = b.delivered;
                data_frame = λ i n. omega (arith, (data_fits data_bytes).0);
                control_frame = λ i n. absurd (clash (is_control h.opcode) n data_bytes);
              })
        | inr more ↦
            rw (data_bytes, more)
              (record {
                small = b.small;
                assembled = b.assembled;
                control = b.control;
                delivered = b.delivered;
                data_frame = λ i n. (data_fits data_bytes).1;
                control_frame = λ i n. absurd (clash (is_control h.opcode) n data_bytes);
              })
      ]
    ]

-- A frame that has all of its payload is finished.
pub finish_if-IsBounded :
    (b : Bool) (d : WebSocketConnection) → IsBounded d → IsBounded (if b then finish_frame d else d)
finish_if-IsBounded true d k = finish_frame-IsBounded d k.small k.assembled k.control k.delivered
finish_if-IsBounded false d k = k

pub start_frame-IsBounded :
    (h : FrameHeader) (hlen : ℕ) (c : WebSocketConnection)
    → (check_header h c == 0) ≡ true
    → IsBounded c
    → IsBounded (start_frame h hlen c)
unfolding start_frame
start_frame-IsBounded h hlen c e b =
    finish_if-IsBounded (h.payload_length == 0) (open_frame h hlen c)
      (open_frame-IsBounded h hlen c e b)

pub store_run-IsBounded :
    (run : List ℕ) (c : WebSocketConnection)
    → c.in_frame ≡ true
    → length run ≤ c.frame_remaining
    → IsBounded c
    → IsBounded (store_run run c)
unfolding store_run
store_run-IsBounded run c i l b =
    let plain : List ℕ =
      if c.frame.mask then unmask c.frame.masking_key c.frame_offset run else run in
    let size : length plain ≡ length run =
      length-plain c.frame.mask c.frame.masking_key c.frame_offset run in
    elim (Bool-cases (is_control c.frame.opcode)) [
      | inl control ↦ rw control (record {
        small = b.small;
        assembled = b.assembled;
        control = omega (arith, length-append c.ctrl_buf plain, size, l, b.control_frame i control);
        delivered = b.delivered;
        data_frame = λ j n. absurd (clash (is_control c.frame.opcode) control n);
        control_frame = λ j n.
            omega (arith, length-append c.ctrl_buf plain, size, l, b.control_frame i control);
      })
      | inr data_bytes ↦ rw data_bytes (record {
        small = b.small;
        assembled =
            omega
              (arith, length-append c.fragment_buffer plain, size, l, b.data_frame i data_bytes);
        control = b.control;
        delivered = b.delivered;
        data_frame = λ j n.
            omega
              (arith, length-append c.fragment_buffer plain, size, l, b.data_frame i data_bytes);
        control_frame = λ j n. absurd (clash (is_control c.frame.opcode) n data_bytes);
      })
    ]
