-- ===== src/WebSocket/Close.antt =====
-- The close frames of src/http/websocket_parser.cpp: is_valid_close_code, build_close_frame and
-- parse_close_payload of FrameParser. A reason is the bytes of the C string, without the null.
pub mod CloseRoundTrip
use bolt_api.Prelude.{
  ℕ, ◌*◌, Bool, true, false, not, ◌&&◌, ◌||◌, leb, if◌then◌else◌, List, [], ◌∷◌, ◌++◌, bit_or,
}
use bolt_api.WebSocket.Frame.{write_be, build_frame}
use bolt_api.WebSocket.Utf8.{validate_utf8}

-- The enumerators of CloseCode that the code names.
abbrev pub code_protocol_error : ℕ
code_protocol_error = 1002

abbrev pub code_no_status : ℕ
code_no_status = 1005

abbrev pub code_invalid_payload : ℕ
code_invalid_payload = 1007

unfoldable pub is_valid_close_code : ℕ → Bool
is_valid_close_code code =
    if leb 3000 code && leb code 4999
    then true
    else leb 1000 code && leb code 1003 || leb 1007 code && leb code 1011

-- `reason` is the bytes of a C string, so there is no null among them.
unfoldable pub build_close_frame : ℕ → List ℕ → List ℕ
unfolding build_frame
build_close_frame code reason = build_frame 8 (write_be 2 code ++ reason) true false

-- The results of `parse_close_payload`: -1 with the code to fail with, or 0 with code and reason.
pub data CloseResult : Type 0 where
  close_error : ℕ → CloseResult
  close_ok : ℕ → List ℕ → CloseResult

unfoldable pub parse_close_payload : List ℕ → CloseResult
unfolding is_valid_close_code
parse_close_payload [] = close_ok code_no_status []
parse_close_payload (b ∷ []) = close_error code_protocol_error
parse_close_payload (b0 ∷ b1 ∷ rest) =
    let raw = bit_or (b0 * 256) b1 in
    if not (is_valid_close_code raw)
    then close_error code_protocol_error
    else if not (validate_utf8 rest)
    then close_error code_invalid_payload
    else close_ok raw rest
