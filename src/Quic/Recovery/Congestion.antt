-- ===== src/Quic/Recovery/Congestion.antt =====
-- NewRenoCongestion of include/boltapi/quic/loss.h, with the wrap-around of uint64_t written out.
use bolt_api.Prelude.{
  ℕ, ◌+◌, ◌-◌, ◌*◌, ◌/◌, ◌%◌, ◌^◌, Bool, not, ◌&&◌, ltb, leb, ◌==◌, if◌then◌else◌,
}

abbrev pub max_datagram : ℕ
max_datagram = 1200

abbrev pub initial_window : ℕ
initial_window = 10 * 1200

abbrev pub minimum_window : ℕ
minimum_window = 2 * 1200

pub record NewRenoCongestion : Type 0 where
  pub cwnd : ℕ
  pub ssthresh : ℕ
  pub bytes_in_flight : ℕ
  pub recovery_start_us : ℕ

abbrev pub new_reno : NewRenoCongestion
new_reno = record {
  cwnd = initial_window;
  ssthresh = 2 ^ 64 - 1;
  bytes_in_flight = 0;
  recovery_start_us = 0;
}

abbrev pub in_slow_start : NewRenoCongestion → Bool
in_slow_start c = ltb c.cwnd c.ssthresh

abbrev pub in_recovery : ℕ → NewRenoCongestion → Bool
in_recovery sent_time_us c = not (c.recovery_start_us == 0) && leb sent_time_us c.recovery_start_us

unfoldable pub on_packet_sent : ℕ → NewRenoCongestion → NewRenoCongestion
on_packet_sent bytes c = record c { bytes_in_flight = (c.bytes_in_flight + bytes) % 2 ^ 64 }

unfoldable pub sub_in_flight : ℕ → NewRenoCongestion → NewRenoCongestion
sub_in_flight bytes c = record c {
  bytes_in_flight = if leb bytes c.bytes_in_flight then c.bytes_in_flight - bytes else 0;
}

-- The window after an acknowledgement outside of recovery.
abbrev pub grown : ℕ → NewRenoCongestion → ℕ
grown bytes c =
    if in_slow_start c
    then (c.cwnd + bytes) % 2 ^ 64
    else (c.cwnd + max_datagram * bytes % 2 ^ 64 / c.cwnd) % 2 ^ 64

unfoldable pub on_packet_acked : ℕ → ℕ → NewRenoCongestion → NewRenoCongestion
unfolding sub_in_flight
on_packet_acked bytes sent_time_us c =
    let left = sub_in_flight bytes c in
    if in_recovery sent_time_us left then left else record left { cwnd = grown bytes left }

-- Half of the window, but not below the minimum.
abbrev pub halved : ℕ → ℕ
halved cwnd = if ltb (cwnd / 2) minimum_window then minimum_window else cwnd / 2

unfoldable pub on_congestion_event : ℕ → ℕ → NewRenoCongestion → NewRenoCongestion
on_congestion_event sent_time_us now_us c =
    if in_recovery sent_time_us c
    then c
    else record c { recovery_start_us = now_us; ssthresh = halved c.cwnd; cwnd = halved c.cwnd }

unfoldable pub on_packet_lost : ℕ → NewRenoCongestion → NewRenoCongestion
unfolding sub_in_flight
on_packet_lost bytes c = sub_in_flight bytes c

unfoldable pub on_persistent_congestion : NewRenoCongestion → NewRenoCongestion
on_persistent_congestion c = record c { cwnd = minimum_window; recovery_start_us = 0 }

unfoldable pub can_send : ℕ → NewRenoCongestion → Bool
can_send bytes c = leb ((c.bytes_in_flight + bytes) % 2 ^ 64) c.cwnd

unfoldable pub reset_in_flight : NewRenoCongestion → NewRenoCongestion
reset_in_flight c = record c { bytes_in_flight = 0 }
