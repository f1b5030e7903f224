-- ===== src/Quic/Frames/Close.antt =====
-- include/boltapi/quic/frames.h, ConnectionCloseFrame and the run of PADDING.
use bolt_api.Prelude.{ℕ, suc, Bool, true, false, List, [], ◌∷◌, ◌++◌, ◌==◌, take, if◌then◌else◌}
use bolt_api.Quic.Varint.{varint_encode}
use bolt_api.Quic.Frames.Reader.{Parse, frame_ok, ◌>>=◌, read_varint, read_bytes}

pub record ConnectionCloseFrame : Type 0 where
  pub error_code : ℕ
  pub frame_type : ℕ
  pub reason_length : ℕ
  pub reason_phrase : List ℕ
  pub is_application : Bool

-- The transport variant alone has the type of the frame that failed.
unfoldable pub read_frame_type : Bool → List ℕ → Parse (ℕ × List ℕ)
read_frame_type true buf = frame_ok (0, buf)
read_frame_type false buf = read_varint buf

unfoldable pub parse_close : Bool → List ℕ → Parse (ConnectionCloseFrame × List ℕ)
unfolding read_frame_type
parse_close is_app buf = do
  (code, buf) ← read_varint buf
  (type, buf) ← read_frame_type is_app buf
  (len, buf) ← read_varint buf
  (reason, buf) ← read_bytes len buf
  frame_ok (
    record {
      error_code = code;
      frame_type = type;
      reason_length = len;
      reason_phrase = reason;
      is_application = is_app;
    },
    buf,
  )

unfoldable pub serialize_close : ConnectionCloseFrame → List ℕ
serialize_close f =
    (if f.is_application then 0x1D else 0x1C)
    ∷ (varint_encode f.error_code
        ++ ((if f.is_application then [] else varint_encode f.frame_type)
            ++ (varint_encode f.reason_length ++ take f.reason_length f.reason_phrase)))

-- The number of PADDING bytes at the front.
unfoldable pub parse_padding_run : List ℕ → ℕ
parse_padding_run [] = 0
parse_padding_run (b ∷ buf) = if b == 0x00 then suc (parse_padding_run buf) else 0
