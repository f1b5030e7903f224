-- ===== src/Quic/FrameTests.antt =====
-- Runs of the QUIC frames and of a stream, and their theorems at concrete inputs.
use bolt_api.Prelude.{ℕ, ◌+◌, ◌≡◌, refl, true, false, ◌||◌, List, [], ◌∷◌, ◌++◌, some, arith}
use bolt_api.Quic.Varint.{varint_encode}
use bolt_api.Quic.Frames.Reader.{frame_ok}
use bolt_api.Quic.Frames.Payload.{
  StreamFrame, CryptoFrame, parse_stream, serialize_stream, serialize_crypto,
}
use bolt_api.Quic.Frames.Close.{
  ConnectionCloseFrame, parse_close, serialize_close, parse_padding_run,
}
use bolt_api.Quic.Frames.Ack.{AckFrame, parse_ack, serialize_ack}
use bolt_api.Quic.Frames.PayloadRoundTrip.{
  parse_stream-serialize_stream, parse_close-serialize_close,
}
use bolt_api.Quic.Frames.AckRoundTrip.{parse_ack-serialize_ack}
use bolt_api.Quic.Stream.RingLaws.{Agrees}
use bolt_api.Quic.Stream.ExtentLaws.{holds}
use bolt_api.Quic.Stream.Receive.{RecvSide, open_recv, receive, recv_peek}
use bolt_api.Quic.Stream.Reassembly.{got, Holds}
use bolt_api.Quic.Stream.Delivery.{
  frame, start, more, open_recv-Holds, receive_lem, recv_peek-RecvRun,
}

abbrev hello : StreamFrame
hello = record { stream_id = 4; offset = 300; length = 2; fin = true; data_bytes = 104 ∷ 105 ∷ [] }

abbrev hello_body : List ℕ
hello_body = 4 ∷ 0x41 ∷ 0x2c ∷ 2 ∷ 104 ∷ 105 ∷ []

serialize_hello : serialize_stream hello ≡ 0x0f ∷ hello_body
unfolding serialize_stream varint_encode
serialize_hello = refl

parse_stream-serialize_stream_example :
    parse_stream 0x0f (hello_body ++ (1 ∷ [])) ≡ frame_ok (hello, 1 ∷ [])
parse_stream-serialize_stream_example =
    parse_stream-serialize_stream hello 0x0f hello_body (1 ∷ [])
      (record {
        id_fits = omega arith;
        offset_fits = omega arith;
        length_fits = omega arith;
        data_length = refl;
      })
      serialize_hello

abbrev client_hello : CryptoFrame
client_hello = record { offset = 0; length = 1; data_bytes = 1 ∷ [] }

serialize_client_hello : serialize_crypto client_hello ≡ 0x06 ∷ 0 ∷ 1 ∷ 1 ∷ []
unfolding serialize_crypto varint_encode
serialize_client_hello = refl

abbrev app_close : ConnectionCloseFrame
app_close = record {
  error_code = 256;
  frame_type = 0;
  reason_length = 1;
  reason_phrase = 120 ∷ [];
  is_application = true;
}

serialize_app_close : serialize_close app_close ≡ 0x1D ∷ 0x41 ∷ 0x00 ∷ 1 ∷ 120 ∷ []
unfolding serialize_close varint_encode
serialize_app_close = refl

parse_close-serialize_close_example :
    (◌≡◌ {A = ℕ} 0x1D 0x1D)
    × (parse_close true ((0x41 ∷ 0x00 ∷ 1 ∷ 120 ∷ []) ++ []) ≡ frame_ok (app_close, []))
parse_close-serialize_close_example =
    parse_close-serialize_close app_close 0x1D (0x41 ∷ 0x00 ∷ 1 ∷ 120 ∷ []) []
      (record {
        code_fits = omega arith;
        type_fits = omega arith;
        no_type = λ e. refl;
        length_fits = omega arith;
        reason = refl;
      })
      serialize_app_close

abbrev acks : AckFrame
acks = record {
  largest_acked = 7;
  ack_delay = 3;
  first_ack_range = 2;
  ranges = record { gap = 1; length = 1 } ∷ [];
  ecn = some (record { ect0 = 5; ect1 = 0; ecn_ce = 1 });
}

serialize_acks : serialize_ack acks ≡ 0x03 ∷ 7 ∷ 3 ∷ 1 ∷ 2 ∷ 1 ∷ 1 ∷ 5 ∷ 0 ∷ 1 ∷ []
unfolding serialize_ack varint_encode
serialize_acks = refl

parse_ack-serialize_ack_example :
    (◌≡◌ {A = ℕ} 0x03 0x03)
    × (parse_ack true ((7 ∷ 3 ∷ 1 ∷ 2 ∷ 1 ∷ 1 ∷ 5 ∷ 0 ∷ 1 ∷ []) ++ (0 ∷ []))
        ≡ frame_ok (acks, 0 ∷ []))
parse_ack-serialize_ack_example =
    parse_ack-serialize_ack acks 0x03 (7 ∷ 3 ∷ 1 ∷ 2 ∷ 1 ∷ 1 ∷ 5 ∷ 0 ∷ 1 ∷ []) (0 ∷ [])
      (record {
        largest_fits = omega arith;
        delay_fits = omega arith;
        first_fits = omega arith;
        count = omega arith;
        ranges_fit = omega arith;
        ecn_fits = omega arith;
      })
      serialize_acks

padding_run : parse_padding_run (0 ∷ 0 ∷ 1 ∷ 0 ∷ []) ≡ 2
unfolding parse_padding_run
padding_run = refl

-- The peer sends the byte 10 at offset 0, 11 at offset 1, and so on.
abbrev counting : ℕ → ℕ
counting o = o + 10

abbrev fresh : RecvSide
fresh = open_recv 1000 (λ i. 0)

-- The second frame of three comes first, and the first overlaps it.
abbrev after_gap : RecvSide
after_gap = (receive 2 (12 ∷ 13 ∷ []) false fresh).1

abbrev after_both : RecvSide
after_both = (receive 0 (10 ∷ 11 ∷ 12 ∷ []) false after_gap).1

peek_both : recv_peek after_both ≡ 10 ∷ 11 ∷ 12 ∷ 13 ∷ []
unfolding recv_peek open_recv receive
peek_both = refl

recv_peek-RecvRun_example :
    Agrees counting after_both.read_cursor (recv_peek after_both)
    × (got after_both after_both.recv_cursor ≡ false)
recv_peek-RecvRun_example =
    recv_peek-RecvRun counting 1000 (λ i. 0) (omega arith)
      (more (more start (frame fresh 2 (12 ∷ 13 ∷ []) false (omega arith)))
        (frame after_gap 0 (10 ∷ 11 ∷ 12 ∷ []) false (omega arith)))

receive_lem_example :
    Holds counting after_gap
    × ((receive 2 (12 ∷ 13 ∷ []) false fresh).0 ≡ true
        → (o : ℕ) → got after_gap o ≡ (got fresh o || holds 2 (2 + 2) o))
receive_lem_example =
    receive_lem counting fresh 2 (12 ∷ 13 ∷ []) false
      (open_recv-Holds counting 1000 (λ i. 0) (omega arith)) (omega arith)
