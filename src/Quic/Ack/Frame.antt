-- ===== src/Quic/Ack/Frame.antt =====
-- The ACK frame that the tracker builds, against the walk over a received one.
use bolt_api.Prelude.{
  ◌^◌, ℕ, suc, ◌+◌, ◌-◌, ◌≤◌, ◌≡◌, refl, ap, subst, false, List, [], ◌∷◌, none, some, ltb, length,
  if◌then◌else◌, arith,
}
use mathlib.Core.Option.{some-injective}
use bolt_api.Prelude.Bytes.{sub64}
use bolt_api.Quic.Frames.Ack.{AckRange, AckFrame}
use bolt_api.Quic.Ack.{Range, AckRangeTracker, gap_ranges, build_ack_frame, largest}
use bolt_api.Quic.Ack.Insert.{Under}
use bolt_api.Quic.Ack.Order.{IsTracker}

-- include/boltapi/quic/connection.h, `process_ack`: the ranges that it hands to `ack_range`.
pub walk_ranges : ℕ → List AckRange → List Range
walk_ranges smallest [] = []
walk_ranges smallest (g ∷ gs) =
    let hi = smallest - (g.gap + 2) in
    let lo = hi - g.length in
    let rest = walk_ranges lo gs in
    if ltb smallest (g.gap + 2)
    then []
    else if ltb hi g.length
    then []
    else record { start = lo; end = hi } ∷ rest

pub acked_ranges : AckFrame → List Range
unfolding walk_ranges
acked_ranges ack =
    let smallest = ack.largest_acked - ack.first_ack_range in
    record { start = smallest; end = ack.largest_acked } ∷ walk_ranges smallest ack.ranges

walk_ranges-gap_ranges :
    (b : ℕ) (rs : AckRangeTracker) → b ≤ 2 ^ 62 → Under b rs → walk_ranges b (gap_ranges b rs) ≡ rs
unfolding walk_ranges gap_ranges
walk_ranges-gap_ranges b [] h u = refl
walk_ranges-gap_ranges b (r ∷ rs) h (ordered, clear, u) =
    let gap : sub64 (sub64 b r.end) 2 + 2 ≡ b - r.end = omega arith in
    let width : sub64 r.end r.start ≡ r.end - r.start = omega arith in
    let high : b - (b - r.end) ≡ r.end = omega arith in
    let low : r.end - (r.end - r.start) ≡ r.start = omega arith in
    let some_gap : ltb b (b - r.end) ≡ false = ground arith in
    let fits : ltb r.end (r.end - r.start) ≡ false = ground arith in
    rw (gap, high, width, low, some_gap, fits)
      (ap (◌∷◌ r) (walk_ranges-gap_ranges r.start rs (omega arith) u))

length-gap_ranges : (b : ℕ) (rs : AckRangeTracker) → length (gap_ranges b rs) ≡ length rs
unfolding gap_ranges
length-gap_ranges b [] = refl
length-gap_ranges b (r ∷ rs) = ap suc (length-gap_ranges r.start rs)

Same : AckRangeTracker → AckFrame → Type 0
Same rs f =
    (acked_ranges f ≡ rs)
    × (largest rs ≡ some f.largest_acked)
    × (suc (length f.ranges) ≡ length rs)

built-Same :
    (r : Range) (rs : AckRangeTracker) (ack_delay : ℕ)
    → IsTracker (r ∷ rs)
    → Same (r ∷ rs) (record {
      largest_acked = r.end;
      ack_delay = ack_delay;
      first_ack_range = sub64 r.end r.start;
      ranges = gap_ranges r.start rs;
      ecn = none;
    })
unfolding Same acked_ranges largest
built-Same r rs d t =
    let (ordered, clear, u) = t.under in
    let width : sub64 r.end r.start ≡ r.end - r.start = omega arith in
    let low : r.end - (r.end - r.start) ≡ r.start = omega arith in
    (
      rw (width, low) (ap (◌∷◌ r) (walk_ranges-gap_ranges r.start rs (omega arith) u)),
      refl,
      ap suc (length-gap_ranges r.start rs),
    )

-- A frame built of a tracker whose ranges are in order acknowledges exactly these ranges: the peer's walk over it gives them
-- back, in order, its largest number is the tracker's, and it counts one range less.
pub acked_ranges-build_ack_frame :
    (rs : AckRangeTracker) (ack_delay : ℕ) (f : AckFrame)
    → IsTracker rs
    → build_ack_frame rs ack_delay ≡ some f
    → (acked_ranges f ≡ rs)
      × (largest rs ≡ some f.largest_acked)
      × (suc (length f.ranges) ≡ length rs)
unfolding build_ack_frame Same
acked_ranges-build_ack_frame [] d f t e = cc
acked_ranges-build_ack_frame (r ∷ rs) d f t e =
    subst (Same (r ∷ rs)) (some-injective _ f e) (built-Same r rs d t)
