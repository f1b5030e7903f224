-- ===== src/WebSocket/Tests.antt =====
-- Runs of the WebSocket codec and connection, and their theorems at concrete inputs.
use bolt_api.Prelude.{
  ℕ, ◌+◌, ◌%◌, get_elem?, bit_xor, ◌≡◌, refl, true, false, some, List, [], ◌∷◌, ◌++◌, length, arith,
}
use mathlib.Core.Option
use bolt_api.Prelude.Bytes.{at}
use bolt_api.WebSocket.Frame.{
  parse_header, parse_frame, frame_ok, build_frame, unmask, unmask_bytes, write_be,
}
use bolt_api.WebSocket.Frame.RoundTrip.{built_header, parse_frame-build_frame}
use bolt_api.WebSocket.Frame.Mask.{unmask-unmask_bytes, unmask_lem}
use bolt_api.WebSocket.Utf8.{validate_rounds, validate_utf8}
use bolt_api.WebSocket.Utf8.Rounds.{validate_utf8_rounds}
use bolt_api.WebSocket.Close.{is_valid_close_code, build_close_frame, close_ok, parse_close_payload}
use bolt_api.WebSocket.Close.CloseRoundTrip.{parse_close_payload-build_close_frame}
use bolt_api.WebSocket.Sender.{Config, connect, on_text_message}
use bolt_api.WebSocket.Connection.{feed}
use bolt_api.WebSocket.Connection.Frames.{IsBounded}
use bolt_api.WebSocket.Connection.Bounds.{feed-IsBounded, connect-IsBounded}

abbrev hi : List ℕ
hi = 72 ∷ 105 ∷ []

parse_frame-build_frame_example :
    parse_frame (build_frame 1 hi true false ++ (9 ∷ []))
    ≡ frame_ok (built_header 1 2 true false) hi (length (build_frame 1 hi true false))
parse_frame-build_frame_example =
    parse_frame-build_frame 1 hi (9 ∷ []) true false (omega arith) (omega arith)

abbrev key : List ℕ
key = 0x37 ∷ 0xfa ∷ 0x21 ∷ 0x3d ∷ []

abbrev digits : List ℕ
digits = 48 ∷ 49 ∷ 50 ∷ 51 ∷ 52 ∷ 53 ∷ 54 ∷ 55 ∷ 56 ∷ 57 ∷ []

unmask-unmask_bytes_example : unmask key 3 digits ≡ unmask_bytes key 3 digits
unmask-unmask_bytes_example = unmask-unmask_bytes key 3 digits (omega arith) (omega arith)

unmask_lem_example :
    (get_elem? (unmask key 3 digits) 2
      ≡ Option.map (λ b. bit_xor b (at key ((3 + 2) % 4))) (get_elem? digits 2))
    × (unmask key 3 (unmask key 3 digits) ≡ digits)
unmask_lem_example = unmask_lem key 3 2 digits (omega arith) (omega arith)

-- The masked "Hello" of RFC 6455, section 5.7.
unmask_hello :
    unmask key 0 (0x7f ∷ 0x9f ∷ 0x4d ∷ 0x51 ∷ 0x58 ∷ []) ≡ 72 ∷ 101 ∷ 108 ∷ 108 ∷ 111 ∷ []
unfolding unmask
unmask_hello = refl

parse_close_payload-build_close_frame_example :
    (parse_frame (build_close_frame 1000 hi ++ [])
      ≡ frame_ok
          (built_header 8 (length (write_be 2 1000 ++ hi)) true false)
          (write_be 2 1000 ++ hi)
          (length (build_close_frame 1000 hi)))
    × (parse_close_payload (write_be 2 1000 ++ hi) ≡ close_ok 1000 hi)
parse_close_payload-build_close_frame_example =
    parse_close_payload-build_close_frame 1000 hi [] (omega arith)
      (unfold is_valid_close_code in refl) (unfold validate_utf8 in refl) (omega arith)

abbrev config : Config
config = record { max_message_size = 16; auto_fragment = false; fragment_size = 4096 }

abbrev hello_frame : List ℕ
hello_frame = 0x81 ∷ 0x85 ∷ 0x37 ∷ 0xfa ∷ 0x21 ∷ 0x3d ∷ 0x7f ∷ 0x9f ∷ 0x4d ∷ 0x51 ∷ 0x58 ∷ []

feed-IsBounded_example : IsBounded (feed hello_frame (connect config)).1
feed-IsBounded_example =
    feed-IsBounded hello_frame (connect config) (connect-IsBounded config (omega arith))

-- The frame is delivered as a text message.
feed_hello :
    (feed hello_frame (connect config)).1.events
    ≡ on_text_message (72 ∷ 101 ∷ 108 ∷ 108 ∷ 111 ∷ []) ∷ []
unfolding feed connect parse_header validate_utf8
feed_hello = refl

-- An overlong encoding, a surrogate and a character of four bytes.
overlong : validate_utf8 (0xC0 ∷ 0x80 ∷ []) ≡ false
unfolding validate_utf8
overlong = refl

surrogate : validate_utf8 (0xED ∷ 0xA0 ∷ 0x80 ∷ []) ≡ false
unfolding validate_utf8
surrogate = refl

four_bytes : validate_utf8 (0xF0 ∷ 0x9F ∷ 0x98 ∷ 0x80 ∷ []) ≡ true
unfolding validate_utf8
four_bytes = refl

validate_utf8_rounds_example : validate_rounds 9 hi ≡ some (validate_utf8 hi)
validate_utf8_rounds_example = validate_utf8_rounds hi 9 (omega arith)
