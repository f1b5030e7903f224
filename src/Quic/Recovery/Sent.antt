-- ===== src/Quic/Recovery/Sent.antt =====
-- SentPacketTracker of include/boltapi/quic/loss.h. The ring of slots is a function from indices
-- to slots; a pointer to a slot is its position from the oldest packet on.
pub mod History
pub mod Slots
pub mod Refinement
use bolt_api.Prelude.{
  ℕ, zero, suc, ◌+◌, ◌-◌, ◌*◌, ◌%◌, ◌^◌, Bool, true, false, not, ◌&&◌, ◌||◌, ltb, leb, ◌==◌,
  if◌then◌else◌, Option, none, some, List, [],
}

abbrev pub max_sent_packets : ℕ
max_sent_packets = 256

pub record FrameRange : Type 0 where
  pub is_crypto : Bool
  pub fin : Bool
  pub id : ℕ
  pub offset : ℕ
  pub range_length : ℕ

-- The first range_count ranges are a list.
pub record SentPacketInfo : Type 0 where
  pub packet_number : ℕ
  pub time_sent_us : ℕ
  pub size : ℕ
  pub ack_eliciting : Bool
  pub in_flight : Bool
  pub acked : Bool
  pub lost : Bool
  pub ctrl_flags : ℕ
  pub ranges : List FrameRange

pub record SentPacketTracker : Type 0 where
  pub ring : ℕ → SentPacketInfo
  pub head : ℕ
  pub tail : ℕ
  pub count : ℕ
  pub next_expected : ℕ

-- What `record` leaves in its slot.
abbrev pub sent_packet : ℕ → ℕ → ℕ → Bool → SentPacketInfo
sent_packet pn now_us size ack_eliciting = record {
  packet_number = pn;
  time_sent_us = now_us;
  size = size;
  ack_eliciting = ack_eliciting;
  in_flight = ack_eliciting;
  acked = false;
  lost = false;
  ctrl_flags = 0;
  ranges = [];
}

abbrev pub empty_tracker : SentPacketTracker
empty_tracker = record {
  ring = λ i. sent_packet 0 0 0 false;
  head = 0;
  tail = 0;
  count = 0;
  next_expected = 0;
}

abbrev pub set_slot {ℓ} : {A : Type ℓ} → ℕ → A → (ℕ → A) → ℕ → A
set_slot i x ring j = if j == i then x else ring j

-- The bytes of a packet that counts in flight.
abbrev pub flight : SentPacketInfo → ℕ
flight s = if s.in_flight then s.size else 0

-- `record`, with what it leaves in `*evicted_in_flight`.
unfoldable pub record_packet : ℕ → ℕ → ℕ → Bool → SentPacketTracker → ℕ × SentPacketTracker
record_packet pn now_us size ack_eliciting t =
    let full = not (ltb t.count max_sent_packets) in
    (
      (if full then flight (t.ring t.head) else 0),
      record t {
        ring = set_slot t.head (sent_packet pn now_us size ack_eliciting) t.ring;
        head = (t.head + 1) % max_sent_packets;
        tail = if full then (t.tail + 1) % max_sent_packets else t.tail;
        count = if full then t.count else t.count + 1;
        next_expected = if leb t.next_expected pn then (pn + 1) % 2 ^ 64 else t.next_expected;
      },
    )

unfoldable pub at : SentPacketTracker → ℕ → SentPacketInfo
at t i = t.ring ((t.tail + i) % max_sent_packets)

-- A change of the slot that `at` hands out.
unfoldable pub change_at :
    ℕ → (SentPacketInfo → SentPacketInfo) → SentPacketTracker → SentPacketTracker
unfolding at
change_at i change t = record t {
  ring = set_slot ((t.tail + i) % max_sent_packets) (change (at t i)) t.ring;
}

abbrev pub is_unacked : ℕ → SentPacketInfo → Bool
is_unacked pn s = (s.packet_number == pn) && (not s.acked && not s.lost)

-- The loop of `find_unacked`, with `n` rounds left.
unfoldable pub find_loop : ℕ → SentPacketTracker → ℕ → ℕ → Option ℕ
unfolding at
find_loop pn t zero i = none
find_loop pn t (suc n) i =
    let rest = find_loop pn t n (i + 1) in if is_unacked pn (at t i) then some i else rest

unfoldable pub find_unacked : ℕ → SentPacketTracker → Option ℕ
unfolding find_loop
find_unacked pn t = find_loop pn t t.count 0

abbrev pub counts : SentPacketInfo → Bool
counts s = s.in_flight && s.ack_eliciting

unfoldable pub any_loop : SentPacketTracker → ℕ → ℕ → Bool
unfolding at
any_loop t zero i = false
any_loop t (suc n) i = let rest = any_loop t n (i + 1) in if counts (at t i) then true else rest

unfoldable pub any_ack_eliciting_in_flight : SentPacketTracker → Bool
unfolding any_loop
any_ack_eliciting_in_flight t = any_loop t t.count 0

-- One round: what was found so far, and the caller's variable.
abbrev pub earlier : SentPacketInfo → Bool × ℕ → Bool × ℕ
earlier s r =
    if counts s && (not (r.0) || ltb s.time_sent_us (r.1)) then (true, s.time_sent_us) else r

unfoldable pub earliest_loop : SentPacketTracker → ℕ → ℕ → Bool × ℕ → Bool × ℕ
unfolding at
earliest_loop t zero i r = r
earliest_loop t (suc n) i r = earliest_loop t n (i + 1) (earlier (at t i) r)

-- `out` is what the caller's variable holds.
unfoldable pub earliest_in_flight_time : SentPacketTracker → ℕ → Bool × ℕ
unfolding earliest_loop
earliest_in_flight_time t out = earliest_loop t t.count 0 (false, out)
