-- ===== src/Quic/Frames/Ack.antt =====
-- include/boltapi/quic/frames.h, AckFrame. The array of ranges is the list of its first
-- `range_count` entries; the counts of ECN are there exactly if `has_ecn`.
use bolt_api.Prelude.{
  ℕ, zero, suc, Bool, true, false, List, [], ◌∷◌, ◌++◌, Option, none, some, ltb, if◌then◌else◌,
}
use bolt_api.Prelude
use bolt_api.Quic.Varint.{varint_encode}
use bolt_api.Quic.Frames.Reader.{Parse, frame_ok, frame_error, ◌>>=◌, read_varint}

abbrev pub max_ack_ranges : ℕ
max_ack_ranges = 256

pub record AckRange : Type 0 where
  pub gap : ℕ
  pub length : ℕ

pub record EcnCounts : Type 0 where
  pub ect0 : ℕ
  pub ect1 : ℕ
  pub ecn_ce : ℕ

pub record AckFrame : Type 0 where
  pub largest_acked : ℕ
  pub ack_delay : ℕ
  pub first_ack_range : ℕ
  pub ranges : List AckRange
  pub ecn : Option EcnCounts

-- The loop over the ranges, with `n` of them left.
unfoldable pub parse_ranges : ℕ → List ℕ → Parse (List AckRange × List ℕ)
parse_ranges zero buf = frame_ok ([], buf)
parse_ranges (suc n) buf = do
  (g, buf) ← read_varint buf
  (l, buf) ← read_varint buf
  (ranges, buf) ← parse_ranges n buf
  frame_ok (record { gap = g; length = l } ∷ ranges, buf)

unfoldable pub parse_ecn : Bool → List ℕ → Parse (Option EcnCounts × List ℕ)
parse_ecn false buf = frame_ok (none, buf)
parse_ecn true buf = do
  (a, buf) ← read_varint buf
  (b, buf) ← read_varint buf
  (c, buf) ← read_varint buf
  frame_ok (some (record { ect0 = a; ect1 = b; ecn_ce = c }), buf)

-- The rest of `parse` behind the test of the count.
unfoldable pub parse_ack_body : ℕ → ℕ → ℕ → Bool → List ℕ → Parse (AckFrame × List ℕ)
unfolding parse_ranges parse_ecn
parse_ack_body largest delay count with_ecn buf = do
  (first, buf) ← read_varint buf
  (ranges, buf) ← parse_ranges count buf
  (ecn, buf) ← parse_ecn with_ecn buf
  frame_ok (
    record {
      largest_acked = largest;
      ack_delay = delay;
      first_ack_range = first;
      ranges = ranges;
      ecn = ecn;
    },
    buf,
  )

unfoldable pub parse_ack : Bool → List ℕ → Parse (AckFrame × List ℕ)
unfolding parse_ack_body
parse_ack with_ecn buf = do
  (largest, buf) ← read_varint buf
  (delay, buf) ← read_varint buf
  (range_cnt, buf) ← read_varint buf
  if ltb max_ack_ranges range_cnt
      then frame_error
      else parse_ack_body largest delay range_cnt with_ecn buf

unfoldable pub serialize_ranges : List AckRange → List ℕ
serialize_ranges [] = []
serialize_ranges (r ∷ ranges) =
    varint_encode r.gap ++ (varint_encode r.length ++ serialize_ranges ranges)

unfoldable pub serialize_ecn : Option EcnCounts → List ℕ
serialize_ecn none = []
serialize_ecn (some e) = varint_encode e.ect0 ++ (varint_encode e.ect1 ++ varint_encode e.ecn_ce)

unfoldable pub ack_type_byte : Option EcnCounts → ℕ
ack_type_byte none = 0x02
ack_type_byte (some e) = 0x03

unfoldable pub serialize_ack : AckFrame → List ℕ
unfolding serialize_ranges serialize_ecn ack_type_byte
serialize_ack f =
    ack_type_byte f.ecn
    ∷ (varint_encode f.largest_acked
        ++ (varint_encode f.ack_delay
            ++ (varint_encode (Prelude.length f.ranges)
                ++ (varint_encode f.first_ack_range
                    ++ (serialize_ranges f.ranges ++ serialize_ecn f.ecn)))))
