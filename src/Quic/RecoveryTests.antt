-- ===== src/Quic/RecoveryTests.antt =====
-- Loss recovery at concrete inputs.
use bolt_api.Prelude.{
  ℕ, ◌+◌, ◌*◌, ◌≤◌, ◌≡◌, true, false, ltb, if◌then◌else◌, some, none, List, [], ◌∷◌, length,
  get_elem?, arith,
}
use bolt_api.Quic.Recovery.Congestion.{can_send}
use bolt_api.Quic.Recovery.Window.{
  Event, sent, acked, lost, congestion, after, acked_bytes, IsBounded, after-IsBounded,
  can_send-after,
}
use bolt_api.Quic.Recovery.Rtt.{pto}
use bolt_api.Quic.Recovery.RttBounds.{sampled, pto-sampled}
use bolt_api.Quic.Recovery.Sent.{
  SentPacketInfo, SentPacketTracker, sent_packet, empty_tracker, record_packet, at, find_unacked,
  any_ack_eliciting_in_flight, earliest_in_flight_time,
}
use bolt_api.Quic.Recovery.Sent.History.{push, position, any_counts, earliest, answer}
use bolt_api.Quic.Recovery.Sent.Refinement.{Run, start, recorded, tracker_refines}

-- Two packets are sent, one is acknowledged, and congestion is met; the last event comes first.
abbrev events : List Event
events = congestion 20 30 ∷ acked 1200 10 ∷ sent 1200 ∷ sent 1200 ∷ []

after-IsBounded_example : IsBounded (acked_bytes events) (after events)
after-IsBounded_example = after-IsBounded events (omega arith)

can_send-after_example : can_send 2400 (after (lost 1200 ∷ events)) ≡ true
can_send-after_example =
    can_send-after (lost 1200 ∷ []) events 2400 (tt, tt) (unfold after in omega arith) (omega arith)
      (omega arith)

abbrev samples : List (ℕ × ℕ)
samples = (42000, 1000) ∷ (50000, 0) ∷ []

pto-sampled_example :
    (40000 ≤ (sampled samples).smoothed)
    × ((sampled samples).smoothed ≤ 50000)
    × ((sampled samples).smoothed + 25000 ≤ pto 25000 9 (sampled samples))
    × (pto 25000 9 (sampled samples) ≤ 64 * (5 * 50000 + 1000 + 25000))
pto-sampled_example =
    pto-sampled 40000 50000 (42000, 1000) ((50000, 0) ∷ []) 25000 9 (omega arith) (omega arith)
      ((omega arith, omega arith, omega arith), ((omega arith, omega arith, omega arith), tt))

abbrev packets : List SentPacketInfo
packets = sent_packet 0 100 1200 true ∷ sent_packet 1 200 40 false ∷ []

abbrev tracker : SentPacketTracker
unfolding record_packet
tracker = (record_packet 1 200 40 false ((record_packet 0 100 1200 true empty_tracker).1)).1

tracker-Run : Run tracker packets
unfolding record_packet
tracker-Run = recorded 1 200 40 false (recorded 0 100 1200 true start)

tracker_refines_example :
    (tracker.count ≡ length packets)
    × (get_elem? packets 1 ≡ (if ltb 1 tracker.count then some (at tracker 1) else none))
    × (find_unacked 1 tracker ≡ position 1 0 packets)
    × (any_ack_eliciting_in_flight tracker ≡ any_counts packets)
    × (earliest_in_flight_time tracker 7 ≡ answer 7 (earliest packets))
    × ((record_packet 1 300 1200 true tracker).0 ≡ (push (sent_packet 1 300 1200 true) packets).0)
tracker_refines_example = tracker_refines tracker packets 1 1 7 300 1200 true tracker-Run
