-- ===== src/Quic/Ack.antt =====
-- include/boltapi/quic/ack.h: the ranges of received packet numbers. The tracker is the list of
-- the first `count_` entries of its array, which stand in descending order.
pub mod Insert
pub mod Order
pub mod Contents
pub mod Frame
use bolt_api.Prelude.{
  ℕ, zero, suc, ◌+◌, ◌-◌, Bool, true, false, ◌&&◌, List, [], ◌∷◌, ◌++◌, Option, none, some, ltb,
  leb, ◌==◌, length, get_elem?, take, drop, if◌then◌else◌,
}
use bolt_api.Prelude.Bytes.{sub64}
use bolt_api.Quic.Frames.Ack.{AckRange, AckFrame}

abbrev pub max_tracked_ranges : ℕ
max_tracked_ranges = 256

pub record Range : Type 0 where
  pub start : ℕ
  pub end : ℕ

abbrev pub AckRangeTracker : Type 0
AckRangeTracker = List Range

-- The first range whose start is at most `pn`.
unfoldable pub scan : ℕ → AckRangeTracker → ℕ
scan pn [] = 0
scan pn (r ∷ rs) = if ltb pn r.start then suc (scan pn rs) else 0

-- `ranges_[i - 1]`, where there is one.
unfoldable pub get_above : AckRangeTracker → ℕ → Option Range
get_above rs zero = none
get_above rs (suc i) = get_elem? rs i

-- `ranges_[i].start = pn` and `ranges_[i].end = pn`.
unfoldable pub set_start : AckRangeTracker → ℕ → ℕ → AckRangeTracker
set_start [] i pn = []
set_start (r ∷ rs) zero pn = record r { start = pn } ∷ rs
set_start (r ∷ rs) (suc i) pn = r ∷ set_start rs i pn

unfoldable pub set_end : AckRangeTracker → ℕ → ℕ → AckRangeTracker
set_end [] i pn = []
set_end (r ∷ rs) zero pn = record r { end = pn } ∷ rs
set_end (r ∷ rs) (suc i) pn = r ∷ set_end rs i pn

-- The shifting loop of `insert_at`.
unfoldable pub shift_in : ℕ → Range → AckRangeTracker → AckRangeTracker
shift_in zero r rs = r ∷ rs
shift_in (suc idx) r [] = r ∷ []
shift_in (suc idx) r (x ∷ rs) = x ∷ shift_in idx r rs

unfoldable pub insert_at : ℕ → Range → AckRangeTracker → AckRangeTracker
unfolding shift_in
insert_at idx r rs =
    if length rs == max_tracked_ranges
    then if idx == length rs then rs else shift_in idx r (take (length rs - 1) rs)
    else shift_in idx r rs

unfoldable pub remove_at : ℕ → AckRangeTracker → AckRangeTracker
remove_at idx [] = []
remove_at zero (r ∷ rs) = rs
remove_at (suc idx) (r ∷ rs) = r ∷ remove_at idx rs

abbrev covers_here : ℕ → Option Range → Bool
covers_here pn none = false
covers_here pn (some r) = leb r.start pn && leb pn r.end

abbrev joins_above : ℕ → Option Range → Bool
joins_above pn none = false
joins_above pn (some r) = pn + 1 == r.start

abbrev joins_below : ℕ → Option Range → Bool
joins_below pn none = false
joins_below pn (some r) = pn == r.end + 1

abbrev start_of : Option Range → ℕ
start_of none = 0
start_of (some r) = r.start

-- The part of `record` behind the scan, at the index that it found.
unfoldable pub record_at : ℕ → ℕ → AckRangeTracker → AckRangeTracker
unfolding get_above set_start set_end insert_at remove_at
record_at i pn rs =
    let here = get_elem? rs i in
    let join_above = joins_above pn (get_above rs i) in
    let join_below = joins_below pn here in
    if covers_here pn here
    then rs
    else if join_above && join_below
    then remove_at i (set_start rs (i - 1) (start_of here))
    else if join_above
    then set_start rs (i - 1) pn
    else if join_below
    then set_end rs i pn
    else insert_at i (record { start = pn; end = pn }) rs

unfoldable pub record_pn : ℕ → AckRangeTracker → AckRangeTracker
unfolding scan record_at
record_pn pn rs = record_at (scan pn rs) pn rs

unfoldable pub largest : AckRangeTracker → Option ℕ
largest [] = none
largest (r ∷ rs) = some r.end

-- The loop of `build_ack_frame` over the ranges below the first.
unfoldable pub gap_ranges : ℕ → AckRangeTracker → List AckRange
gap_ranges prev_smallest [] = []
gap_ranges prev_smallest (r ∷ rs) =
    record { gap = sub64 (sub64 prev_smallest r.end) 2; length = sub64 r.end r.start }
    ∷ gap_ranges r.start rs

unfoldable pub build_ack_frame : AckRangeTracker → ℕ → Option AckFrame
unfolding gap_ranges
build_ack_frame [] ack_delay = none
build_ack_frame (r ∷ rs) ack_delay = some (record {
  largest_acked = r.end;
  ack_delay = ack_delay;
  first_ack_range = sub64 r.end r.start;
  ranges = gap_ranges r.start rs;
  ecn = none;
})
