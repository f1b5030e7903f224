-- ===== src/Http2/FrameTests.antt =====
-- HTTP/2 frames, and their theorems at concrete inputs.
use bolt_api.Prelude.{ℕ, ◌≡◌, refl, true, false, some, List, [], ◌∷◌, ◌++◌, arith}
use bolt_api.Http2.Frame.{parse_data_frame, parse_headers_frame, parse_push_promise_frame}
use bolt_api.Http2.Frame.Layout.{Frame, headers_frame, goaway_frame, write_frame, read_frame}
use bolt_api.Http2.Frame.RoundTrip.{read_frame-write_frame}
use bolt_api.Http2.Frame.Buffers.{IsWritten}
use bolt_api.Http2.Frame.Agree.{write_frame_to, write_frame_to-write_frame}
use bolt_api.Http2.Frame.Payloads.{wide}
use bolt_api.Http2.Frame.Padding.{parse-padding}

-- A HEADERS frame with END_HEADERS and a priority.
abbrev request : Frame
request =
    headers_frame 5 (0x82 ∷ 0x86 ∷ []) false true
      (some (record { exclusive = true; stream_dependency = 3; weight = 15 }))

request_bytes :
    write_frame request
    ≡ 0 ∷ 0 ∷ 7 ∷ 1 ∷ 0x24 ∷ 0 ∷ 0 ∷ 0 ∷ 5 ∷ 0x80 ∷ 0 ∷ 0 ∷ 3 ∷ 15 ∷ 0x82 ∷ 0x86 ∷ []
unfolding write_frame
request_bytes = refl

read_frame-write_frame_example : read_frame (write_frame request ++ (1 ∷ 2 ∷ [])) ≡ some request
read_frame-write_frame_example =
    read_frame-write_frame request (1 ∷ 2 ∷ []) (omega arith, omega arith, omega arith)

write_frame_to-write_frame_example :
    IsWritten
      (0 ∷ 0 ∷ 0 ∷ 0 ∷ [])
      (write_frame (goaway_frame 7 1 (104 ∷ 105 ∷ [])))
      (write_frame_to (0 ∷ 0 ∷ 0 ∷ 0 ∷ []) (goaway_frame 7 1 (104 ∷ 105 ∷ [])))
write_frame_to-write_frame_example =
    write_frame_to-write_frame (0 ∷ 0 ∷ 0 ∷ 0 ∷ []) (goaway_frame 7 1 (104 ∷ 105 ∷ []))
      (unfold write_frame in omega arith)

abbrev block : List ℕ
block = 0 ∷ 0 ∷ 0 ∷ 1 ∷ 16 ∷ 0x82 ∷ []

abbrev padded_block : List ℕ
padded_block = 2 ∷ 0 ∷ 0 ∷ 0 ∷ 1 ∷ 16 ∷ 0x82 ∷ 0 ∷ 0 ∷ []

parse-padding_example :
    (parse_data_frame (wide 9 1 0x28 3) padded_block ≡ parse_data_frame (wide 6 1 0x20 3) block)
    × (parse_headers_frame (wide 9 1 0x28 3) padded_block
        ≡ parse_headers_frame (wide 6 1 0x20 3) block)
    × (parse_push_promise_frame (wide 9 1 0x28 3) padded_block
        ≡ parse_push_promise_frame (wide 6 1 0x20 3) block)
parse-padding_example = parse-padding block (0 ∷ 0 ∷ []) 1 0x20 0x28 3 refl refl refl
