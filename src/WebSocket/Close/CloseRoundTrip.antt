-- ===== src/WebSocket/Close/CloseRoundTrip.antt =====
-- Close frames against their parser (src/http/websocket_parser.cpp).
use bolt_api.Prelude.{
  ℕ, ◌*◌, ◌/◌, ◌%◌, ◌^◌, ◌<◌, ◌≡◌, refl, ◌∙◌, true, false, List, ◌++◌, length, bit_or, arith,
}
use bolt_api.Prelude.Bits.{bit_or_disjoint}
use bolt_api.WebSocket.Frame.{parse_frame, frame_ok, write_be}
use bolt_api.WebSocket.Frame.RoundTrip.{built_header, parse_frame-build_frame}
use bolt_api.WebSocket.Utf8.{validate_utf8}
use bolt_api.WebSocket.Close.{is_valid_close_code, build_close_frame, close_ok, parse_close_payload}

parse_close_payload-body :
    (code : ℕ) (reason : List ℕ)
    → code < 2 ^ 16
    → is_valid_close_code code ≡ true
    → validate_utf8 reason ≡ true
    → parse_close_payload (write_be 2 code ++ reason) ≡ close_ok code reason
unfolding parse_close_payload write_be
parse_close_payload-body code reason h valid text =
    let value : bit_or (code / 2 ^ 8 % 256 * 256) (code / 2 ^ 0 % 256) ≡ code =
      bit_or_disjoint 8 (code / 2 ^ 8 % 256) (code / 2 ^ 0 % 256) (omega arith) ∙ omega arith in
    rw (value, valid, text) refl

-- A close frame with a code that may be sent and a reason in UTF-8 is read back: the frame is
-- parsed whole, whatever follows it, it is a final close frame, and its payload gives the code and
-- the reason.
pub parse_close_payload-build_close_frame :
    (code : ℕ) (reason rest : List ℕ)
    → code < 2 ^ 16
    → is_valid_close_code code ≡ true
    → validate_utf8 reason ≡ true
    → length reason < 2 ^ 62
    → (parse_frame (build_close_frame code reason ++ rest)
        ≡ frame_ok
            (built_header 8 (length (write_be 2 code ++ reason)) true false)
            (write_be 2 code ++ reason)
            (length (build_close_frame code reason)))
      × (parse_close_payload (write_be 2 code ++ reason) ≡ close_ok code reason)
unfolding build_close_frame write_be
parse_close_payload-build_close_frame code reason rest h valid text short = (
  parse_frame-build_frame 8 (write_be 2 code ++ reason) rest true false (omega arith) (omega arith),
  parse_close_payload-body code reason h valid text,
)
