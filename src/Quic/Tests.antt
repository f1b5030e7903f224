-- ===== src/Quic/Tests.antt =====
-- Runs of the QUIC primitives, and their theorems at concrete inputs.
use bolt_api.Prelude.{
  ℕ, ◌*◌, ◌%◌, ◌^◌, ◌≤◌, ◌<◌, ◌≡◌, refl, true, false, ◌||◌, ◌==◌, [], ◌∷◌, ◌++◌, none, some, take,
  arith,
}
use bolt_api.Quic.Varint.{var_int_max, varint_encode, varint_encoded_size, varint_decode}
use bolt_api.Quic.Varint.RoundTrip.{varint_decode-varint_encode}
use bolt_api.Quic.Varint.Decode.{varint_decode_bounds, varint_decode_truncated}
use bolt_api.Quic.PnSpace.{
  PacketNumberSpaceState, initial, initialize, next_packet_number, on_packet_received, candidate,
  pn_decode, pn_encode_length_truncated,
}
use bolt_api.Quic.PnSpace.Truncation.{pn_decode-pn_encode_length_truncated}
use bolt_api.Quic.PnSpace.Sequence.{start, more, receives, next_packet_number-increases}
use bolt_api.Quic.Ack.{AckRangeTracker, max_tracked_ranges, record_pn, build_ack_frame, largest}
use bolt_api.Quic.Ack.Insert.{insert_pn, record_pn-insert_pn}
use bolt_api.Quic.Ack.Order.{IsTracker, record_pn-IsTracker}
use bolt_api.Quic.Ack.Contents.{covers, covers-record_pn, record_pn_limit}
use bolt_api.Quic.Ack.Frame.{acked_ranges, acked_ranges-build_ack_frame}
use bolt_api.Quic.Frames.Ack.{AckFrame}

-- The example values of RFC 9000, appendix A.1.
varint_494878333 : varint_encode 494878333 ≡ 0x9d ∷ 0x7f ∷ 0x3e ∷ 0x7d ∷ []
unfolding varint_encode
varint_494878333 = refl

varint_151288809941952652 :
    varint_decode (0xc2 ∷ 0x19 ∷ 0x7c ∷ 0x5e ∷ 0xff ∷ 0x14 ∷ 0xe8 ∷ 0x8c ∷ [])
    ≡ some (8, 151288809941952652)
unfolding varint_decode
varint_151288809941952652 = refl

varint_decode-varint_encode_example :
    varint_decode (varint_encode 15293 ++ (7 ∷ [])) ≡ some (varint_encoded_size 15293, 15293)
varint_decode-varint_encode_example = varint_decode-varint_encode 15293 (7 ∷ []) (omega arith)

varint_decode_bounds_example : (1 ≤ 2) × (2 ≤ 3) × (2 ≤ 8) × (37 ≤ var_int_max)
unfolding varint_decode
varint_decode_bounds_example = varint_decode_bounds (0x40 ∷ 0x25 ∷ 9 ∷ []) 2 37 (omega arith) refl

varint_decode_truncated_example : varint_decode (0x9d ∷ 0x7f ∷ []) ≡ none
varint_decode_truncated_example =
    varint_decode_truncated 494878333 0x3e (0x9d ∷ 0x7f ∷ []) (0x7d ∷ []) (omega arith)
      varint_494878333 (omega arith)

-- RFC 9000, appendix A.3.
pn_decode_rfc : pn_decode 0x9b32 0xa82f30ea 16 ≡ 0xa82f9b32
unfolding pn_decode candidate
pn_decode_rfc = refl

pn_decode_truncated_example :
    pn_decode
      (0xac5c02 % 2 ^ (8 * pn_encode_length_truncated 0xac5c02 0xabe8b3))
      0xabe8b3
      (8 * pn_encode_length_truncated 0xac5c02 0xabe8b3)
    ≡ 0xac5c02
pn_decode_truncated_example =
    pn_decode-pn_encode_length_truncated 0xac5c02 0xabe8b3 (omega arith) (omega arith) (omega arith)

abbrev sent_one : PacketNumberSpaceState
sent_one = (next_packet_number (initialize initial)).1

next_packet_number-increases_example :
    (next_packet_number (initialize initial)).0
    < (next_packet_number (on_packet_received 9 sent_one)).0
next_packet_number-increases_example =
    next_packet_number-increases (initialize initial) (unfold initialize in omega arith)
      (more start (receives sent_one 9 (omega arith)))

-- 5 to 7 and 1 to 2 were received.
abbrev two_ranges : AckRangeTracker
two_ranges = record { start = 5; end = 7 } ∷ record { start = 1; end = 2 } ∷ []

two_ranges-IsTracker : IsTracker two_ranges
two_ranges-IsTracker = record { under = omega arith; bounded = omega arith }

record_3_and_4 : record_pn 4 (record_pn 3 two_ranges) ≡ record { start = 1; end = 7 } ∷ []
unfolding record_pn
record_3_and_4 = refl

record_pn-IsTracker_example : IsTracker (record_pn 4 two_ranges)
record_pn-IsTracker_example = record_pn-IsTracker 4 two_ranges (omega arith) two_ranges-IsTracker

record_pn-insert_pn_example :
    record_pn 9 two_ranges ≡ take max_tracked_ranges (insert_pn 9 two_ranges)
record_pn-insert_pn_example = record_pn-insert_pn 9 100 two_ranges (omega arith) (omega arith)

covers-record_pn_example : covers (record_pn 9 two_ranges) 9 ≡ (covers two_ranges 9 || 9 == 9)
covers-record_pn_example = covers-record_pn 9 9 two_ranges two_ranges-IsTracker (omega arith)

record_pn_limit_example :
    (covers (record_pn 9 two_ranges) 1 ≡ true → (covers two_ranges 1 || 1 == 9) ≡ true)
    × ((m : ℕ)
        → (covers two_ranges 1 || 1 == 9) ≡ true
        → covers (record_pn 9 two_ranges) 1 ≡ false
        → covers (record_pn 9 two_ranges) m ≡ true
        → 1 < m)
record_pn_limit_example = record_pn_limit 9 1 two_ranges (omega arith) two_ranges-IsTracker

abbrev two_range_frame : AckFrame
two_range_frame = record {
  largest_acked = 7;
  ack_delay = 3;
  first_ack_range = 2;
  ranges = record { gap = 1; length = 1 } ∷ [];
  ecn = none;
}

acked_ranges-build_ack_frame_example :
    (acked_ranges two_range_frame ≡ two_ranges) × (largest two_ranges ≡ some 7) × (◌≡◌ {A = ℕ} 2 2)
unfolding build_ack_frame
acked_ranges-build_ack_frame_example =
    acked_ranges-build_ack_frame two_ranges 3 two_range_frame two_ranges-IsTracker refl
