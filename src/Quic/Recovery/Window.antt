-- ===== src/Quic/Recovery/Window.antt =====
-- The congestion window of include/boltapi/quic/loss.h over all runs of its operations.
use bolt_api.Prelude.{
  ℕ, ◌+◌, ◌-◌, ◌*◌, ◌/◌, ◌%◌, ◌^◌, ◌≤◌, ◌<◌, ◌≡◌, Bool, true, false, if◌then◌else◌, Bool-cases, inl,
  inr, List, [], ◌∷◌, ◌++◌, All, arith,
}
use native.Mathlib.Nat.{div-le_of_le-mul, mul-le-mul_right}
use bolt_api.Quic.Recovery.Congestion.{
  max_datagram, minimum_window, NewRenoCongestion, new_reno, in_slow_start, in_recovery,
  on_packet_sent, sub_in_flight, grown, on_packet_acked, halved, on_congestion_event,
  on_packet_lost, on_persistent_congestion, can_send, reset_in_flight,
}

-- The calls that the connection makes; the numbers are the arguments of the operations.
pub data Event : Type 0 where
  sent : ℕ → Event
  acked : ℕ → ℕ → Event
  lost : ℕ → Event
  congestion : ℕ → ℕ → Event
  persistent : Event
  reset : Event

unfoldable pub step : Event → NewRenoCongestion → NewRenoCongestion
unfolding on_packet_sent on_packet_acked on_packet_lost on_congestion_event on_persistent_congestion
    reset_in_flight
step (sent bytes) c = on_packet_sent bytes c
step (acked bytes sent_time_us) c = on_packet_acked bytes sent_time_us c
step (lost bytes) c = on_packet_lost bytes c
step (congestion sent_time_us now_us) c = on_congestion_event sent_time_us now_us c
step persistent c = on_persistent_congestion c
step reset c = reset_in_flight c

-- The calls on a new connection, the last one first.
unfoldable pub after : List Event → NewRenoCongestion
unfolding step
after [] = new_reno
after (e ∷ es) = step e (after es)

abbrev pub acked_bytes : List Event → ℕ
acked_bytes [] = 0
acked_bytes (acked bytes sent_time_us ∷ es) = bytes + acked_bytes es
acked_bytes (e ∷ es) = acked_bytes es

-- The window is between the minimum and what the acknowledged bytes can make of it.
abbrev pub IsBounded : ℕ → NewRenoCongestion → Type 0
IsBounded total c =
    (minimum_window ≤ c.cwnd) × (minimum_window ≤ c.ssthresh) × (c.cwnd ≤ 12000 + total)

avoidance_lem :
    (cwnd bytes : ℕ) → 2400 ≤ cwnd → bytes < 2 ^ 50 → max_datagram * bytes % 2 ^ 64 / cwnd ≤ bytes
avoidance_lem cwnd bytes h k =
    div-le_of_le-mul cwnd (omega (arith, mul-le-mul_right {m = 2400} {n = cwnd} bytes h))

halved_lem : (cwnd : ℕ) → (2400 ≤ halved cwnd) × (2400 ≤ cwnd → halved cwnd ≤ cwnd)
halved_lem cwnd = ground arith

grown_lem :
    (bytes total : ℕ) (c : NewRenoCongestion)
    → bytes + total < 2 ^ 50
    → IsBounded total c
    → (2400 ≤ grown bytes c) × (grown bytes c ≤ 12000 + (bytes + total))
grown_lem bytes total c h (low, thresh, high) = elim (Bool-cases (in_slow_start c)) [
  | inl slow ↦ rw slow (omega arith, omega arith)
  | inr avoidance ↦
      let more : max_datagram * bytes % 2 ^ 64 / c.cwnd ≤ bytes =
        avoidance_lem c.cwnd bytes low (omega arith) in
      rw avoidance (omega (arith, more), omega (arith, more))
]

acked-IsBounded :
    (bytes sent_time_us total : ℕ) (c : NewRenoCongestion)
    → bytes + total < 2 ^ 50
    → IsBounded total c
    → IsBounded (bytes + total) (on_packet_acked bytes sent_time_us c)
unfolding on_packet_acked sub_in_flight
acked-IsBounded bytes sent_time_us total c h (low, thresh, high) =
    by_recovery (in_recovery sent_time_us c)
  where
    by_recovery :
        (b : Bool)
        → IsBounded (bytes + total) (
            if b
            then sub_in_flight bytes c
            else record (sub_in_flight bytes c) { cwnd = grown bytes (sub_in_flight bytes c) })
    by_recovery true = (low, thresh, omega (arith, high))
    by_recovery false =
        let (floor, ceiling) = grown_lem bytes total c h (low, thresh, high) in
        (floor, thresh, ceiling)

congestion-IsBounded :
    (sent_time_us now_us total : ℕ) (c : NewRenoCongestion)
    → IsBounded total c
    → IsBounded total (on_congestion_event sent_time_us now_us c)
unfolding on_congestion_event
congestion-IsBounded sent_time_us now_us total c (low, thresh, high) =
    by_recovery (in_recovery sent_time_us c)
  where
    by_recovery :
        (b : Bool)
        → IsBounded total (
            if b then c else record c {
              recovery_start_us = now_us;
              ssthresh = halved c.cwnd;
              cwnd = halved c.cwnd;
            })
    by_recovery true = (low, thresh, high)
    by_recovery false =
        let (floor, ceiling) = halved_lem c.cwnd in (floor, floor, omega (arith, high, ceiling low))

-- Whatever packets are sent, acknowledged and lost and whatever congestion is met, in any order,
-- the congestion window and the slow start threshold never fall below two datagrams, and the
-- window is at most the initial one and the bytes acknowledged, while these are below 2^50.
pub after-IsBounded :
    (es : List Event) → acked_bytes es < 2 ^ 50 → IsBounded (acked_bytes es) (after es)
unfolding after step on_packet_sent on_packet_lost sub_in_flight on_persistent_congestion
    reset_in_flight
after-IsBounded [] h = (omega arith, omega arith, omega arith)
after-IsBounded (sent bytes ∷ es) h = after-IsBounded es h
after-IsBounded (acked bytes sent_time_us ∷ es) h =
    acked-IsBounded bytes sent_time_us (acked_bytes es) (after es) h
      (after-IsBounded es (omega arith))
after-IsBounded (lost bytes ∷ es) h = after-IsBounded es h
after-IsBounded (congestion sent_time_us now_us ∷ es) h =
    congestion-IsBounded sent_time_us now_us (acked_bytes es) (after es) (after-IsBounded es h)
after-IsBounded (persistent ∷ es) h =
    let (low, thresh, high) = after-IsBounded es h in (omega arith, thresh, omega arith)
after-IsBounded (reset ∷ es) h = after-IsBounded es h

-- Packets leave the flight by an acknowledgement or a loss.
abbrev pub IsDeparture : Event → Type 0
IsDeparture (acked bytes sent_time_us) = Unit
IsDeparture (lost bytes) = Unit
IsDeparture e = ⊥

abbrev pub departed : List Event → ℕ
departed [] = 0
departed (acked bytes sent_time_us ∷ es) = bytes + departed es
departed (lost bytes ∷ es) = bytes + departed es
departed (e ∷ es) = departed es

acked-flight :
    (bytes sent_time_us : ℕ) (c : NewRenoCongestion)
    → (on_packet_acked bytes sent_time_us c).bytes_in_flight ≡ c.bytes_in_flight - bytes
unfolding on_packet_acked sub_in_flight
acked-flight bytes sent_time_us c = by_recovery (in_recovery sent_time_us c)
  where
    by_recovery :
        (b : Bool)
        → (if b then sub_in_flight bytes c else record (sub_in_flight bytes c) {
          cwnd = grown bytes (sub_in_flight bytes c);
        }).bytes_in_flight
          ≡ c.bytes_in_flight - bytes
    by_recovery true = ground arith
    by_recovery false = ground arith

departures :
    (ds es : List Event)
    → All IsDeparture ds
    → (after (ds ++ es)).bytes_in_flight ≤ (after es).bytes_in_flight - departed ds
unfolding after step on_packet_lost sub_in_flight
departures [] es h = omega arith
departures (acked bytes sent_time_us ∷ ds) es (u, h) =
    omega (arith, acked-flight bytes sent_time_us (after (ds ++ es)), departures ds es h)
departures (lost bytes ∷ ds) es (u, h) =
    let rest : (after (ds ++ es)).bytes_in_flight ≤ (after es).bytes_in_flight - departed ds =
      departures ds es h in
    ground (arith, rest)
departures (sent bytes ∷ ds) es (u, h) = absurd u
departures (congestion sent_time_us now_us ∷ ds) es (u, h) = absurd u
departures (persistent ∷ ds) es (u, h) = absurd u
departures (reset ∷ ds) es (u, h) = absurd u

-- The connection never starves: after any run of calls, once acknowledgements and losses have
-- taken the bytes in flight out of it, two full datagrams may be sent, whatever the losses did to
-- the window; the bytes acknowledged in all are below 2^50.
pub can_send-after :
    (ds es : List Event) (bytes : ℕ)
    → All IsDeparture ds
    → (after es).bytes_in_flight ≤ departed ds
    → acked_bytes (ds ++ es) < 2 ^ 50
    → bytes ≤ 2 * max_datagram
    → can_send bytes (after (ds ++ es)) ≡ true
unfolding can_send
can_send-after ds es bytes all gone small h =
    let c : NewRenoCongestion = after (ds ++ es) in
    let (low, thresh, high) = after-IsBounded (ds ++ es) small in
    let empty : c.bytes_in_flight ≡ 0 = omega (arith, departures ds es all) in
    ground (arith, empty, low)
