-- ===== src/Quic/Frames/AckRoundTrip.antt =====
-- ACK frames: what is serialized is parsed back, and a count past the limit is refused.
use bolt_api.Prelude.{
  ℕ, zero, suc, ◌≤◌, ◌<◌, ◌≡◌, ◌+◌, refl, sym, ap, ◌∙◌, Bool, true, false, List, [], ◌∷◌, ◌++◌,
  append_assoc, Option, none, some, ltb, ◌==◌, if◌then◌else◌, arith,
}
use bolt_api.Prelude
use bolt_api.Quic.Varint.{var_int_max, varint_encode}
use bolt_api.Quic.Frames.Reader.{frame_ok, frame_error, read_varint-varint_encode, bind_ok}
use bolt_api.Quic.Frames.PayloadRoundTrip.{read_field, tail_of, head_of}
use bolt_api.Quic.Frames.Ack.{
  AckRange, EcnCounts, AckFrame, max_ack_ranges, parse_ranges, parse_ecn, parse_ack_body, parse_ack,
  serialize_ranges, serialize_ecn, ack_type_byte, serialize_ack,
}

abbrev pub RangesFit : List AckRange → Type 0
RangesFit [] = Unit
RangesFit (r ∷ ranges) = (r.gap ≤ var_int_max) × (r.length ≤ var_int_max) × RangesFit ranges

abbrev pub EcnFits : Option EcnCounts → Type 0
EcnFits none = Unit
EcnFits (some e) = (e.ect0 ≤ var_int_max) × (e.ect1 ≤ var_int_max) × (e.ecn_ce ≤ var_int_max)

abbrev pub has_ecn : Option EcnCounts → Bool
has_ecn none = false
has_ecn (some e) = true

parse_ranges-serialize_ranges :
    (ranges : List AckRange) (rest : List ℕ)
    → RangesFit ranges
    → parse_ranges (Prelude.length ranges) (serialize_ranges ranges ++ rest)
      ≡ frame_ok (ranges, rest)
unfolding parse_ranges serialize_ranges
parse_ranges-serialize_ranges [] rest h = refl
parse_ranges-serialize_ranges (r ∷ ranges) rest (g, l, h) =
    bind_ok _ _ (read_field r.gap _ rest g)
    ∙ bind_ok _ _ (read_field r.length _ rest l)
    ∙ bind_ok _ _ (parse_ranges-serialize_ranges ranges rest h)

parse_ecn-serialize_ecn :
    (ecn : Option EcnCounts) (rest : List ℕ)
    → EcnFits ecn
    → parse_ecn (has_ecn ecn) (serialize_ecn ecn ++ rest) ≡ frame_ok (ecn, rest)
unfolding parse_ecn serialize_ecn
parse_ecn-serialize_ecn none rest h = refl
parse_ecn-serialize_ecn (some e) rest (a, b, c) =
    bind_ok _ _ (read_field e.ect0 _ rest a)
    ∙ bind_ok _ _ (read_field e.ect1 _ rest b)
    ∙ bind_ok _ _ (read_varint-varint_encode e.ecn_ce rest c)

ack_type_byte_lem :
    (ecn : Option EcnCounts) → ack_type_byte ecn ≡ (if has_ecn ecn then 0x03 else 0x02)
unfolding ack_type_byte
ack_type_byte_lem none = refl
ack_type_byte_lem (some e) = refl

pub record IsAckFrame (f : AckFrame) : Type 0 where
  pub largest_fits : f.largest_acked ≤ var_int_max
  pub delay_fits : f.ack_delay ≤ var_int_max
  pub first_fits : f.first_ack_range ≤ var_int_max
  pub count : Prelude.length f.ranges ≤ max_ack_ranges
  pub ranges_fit : RangesFit f.ranges
  pub ecn_fits : EcnFits f.ecn

ack_body :
    (f : AckFrame) (rest : List ℕ)
    → IsAckFrame f
    → parse_ack_body f.largest_acked f.ack_delay (Prelude.length f.ranges) (has_ecn f.ecn) (
        (varint_encode f.first_ack_range ++ (serialize_ranges f.ranges ++ serialize_ecn f.ecn))
        ++ rest)
      ≡ frame_ok (f, rest)
unfolding parse_ack_body
ack_body f rest v =
    bind_ok _ _ (read_field f.first_ack_range _ rest v.first_fits)
    ∙ bind_ok _ _ (
        ap (parse_ranges (Prelude.length f.ranges))
          (append_assoc (serialize_ranges f.ranges) (serialize_ecn f.ecn) rest)
        ∙ parse_ranges-serialize_ranges f.ranges _ v.ranges_fit)
    ∙ bind_ok _ _ (parse_ecn-serialize_ecn f.ecn rest v.ecn_fits)

ack_fields :
    (f : AckFrame) (rest : List ℕ)
    → IsAckFrame f
    → parse_ack (has_ecn f.ecn) (
        (varint_encode f.largest_acked
          ++ (varint_encode f.ack_delay
              ++ (varint_encode (Prelude.length f.ranges)
                  ++ (varint_encode f.first_ack_range
                      ++ (serialize_ranges f.ranges ++ serialize_ecn f.ecn)))))
        ++ rest)
      ≡ frame_ok (f, rest)
unfolding parse_ack
ack_fields f rest v =
    let within : ltb max_ack_ranges (Prelude.length f.ranges) ≡ false = ground (arith, v.count) in
    bind_ok _ _ (read_field f.largest_acked _ rest v.largest_fits)
    ∙ bind_ok _ _ (read_field f.ack_delay _ rest v.delay_fits)
    ∙ bind_ok _ _ (read_field (Prelude.length f.ranges) _ rest (omega (arith, v.count)))
    ∙ rw within (ack_body f rest v)

-- An ACK frame with up to 256 further ranges, with ECN counts or without, is serialized with the
-- type byte 0x03 or 0x02, and a parser that reads counts exactly when the type byte is 0x03 gets it
-- back, whatever follows it.
pub parse_ack-serialize_ack :
    (f : AckFrame) (type_byte : ℕ) (body rest : List ℕ)
    → IsAckFrame f
    → serialize_ack f ≡ type_byte ∷ body
    → (type_byte ≡ (if has_ecn f.ecn then 0x03 else 0x02))
      × (parse_ack (type_byte == 0x03) (body ++ rest) ≡ frame_ok (f, rest))
unfolding serialize_ack
parse_ack-serialize_ack f t body rest v e =
    let typed : t ≡ (if has_ecn f.ecn then 0x03 else 0x02) =
      sym (head_of e) ∙ ack_type_byte_lem f.ecn in
    let counts : (t == 0x03) ≡ has_ecn f.ecn = ap (λ b. b == 0x03) typed ∙ is_ecn (has_ecn f.ecn) in
    (typed, rw (counts, ← tail_of e) (ack_fields f rest v))
  where
    is_ecn : (b : Bool) → ((if b then 0x03 else 0x02) == 0x03) ≡ b
    is_ecn true = refl
    is_ecn false = refl

-- A peer that announces more than 256 further ranges is refused before any of them is read,
-- whatever stands behind the count.
parse_ack_too_many :
    (largest delay count : ℕ) (with_ecn : Bool) (rest : List ℕ)
    → largest ≤ var_int_max
    → delay ≤ var_int_max
    → count ≤ var_int_max
    → max_ack_ranges < count
    → parse_ack with_ecn
        (varint_encode largest ++ (varint_encode delay ++ (varint_encode count ++ rest)))
      ≡ frame_error
unfolding parse_ack
parse_ack_too_many l d c with_ecn rest hl hd hc h =
    let past : ltb max_ack_ranges c ≡ true = ground arith in
    bind_ok _ _ (read_varint-varint_encode l _ hl)
    ∙ bind_ok _ _ (read_varint-varint_encode d _ hd)
    ∙ bind_ok _ _ (read_varint-varint_encode c _ hc)
    ∙ rw past
