-- ===== src/Quic/Recovery/Rtt.antt =====
-- RttEstimator of include/boltapi/quic/loss.h, with the wrap-around of uint64_t written out.
use bolt_api.Prelude.{ℕ, ◌+◌, ◌-◌, ◌*◌, ◌/◌, ◌%◌, ◌^◌, Bool, true, false, ltb, leb, if◌then◌else◌}

abbrev pub granularity_us : ℕ
granularity_us = 1000

abbrev pub initial_rtt_us : ℕ
initial_rtt_us = 333000

abbrev pub max_pto_backoff_shift : ℕ
max_pto_backoff_shift = 6

pub record RttEstimator : Type 0 where
  pub latest : ℕ
  pub smoothed : ℕ
  pub rttvar : ℕ
  pub min_rtt : ℕ
  pub have_sample : Bool

abbrev pub new_estimator : RttEstimator
new_estimator = record {
  latest = 0;
  smoothed = initial_rtt_us;
  rttvar = initial_rtt_us / 2;
  min_rtt = 2 ^ 64 - 1;
  have_sample = false;
}

abbrev pub smaller : ℕ → ℕ → ℕ
smaller rtt_us min_rtt = if ltb rtt_us min_rtt then rtt_us else min_rtt

-- The sample without the delay, unless that takes it below the minimum.
abbrev pub adjusted : ℕ → ℕ → ℕ → ℕ
adjusted rtt_us ack_delay_us min_rtt =
    if leb ((min_rtt + ack_delay_us) % 2 ^ 64) rtt_us then rtt_us - ack_delay_us else rtt_us

abbrev pub distance : ℕ → ℕ → ℕ
distance a b = if ltb b a then a - b else b - a

unfoldable pub on_rtt_sample : ℕ → ℕ → RttEstimator → RttEstimator
on_rtt_sample rtt_us ack_delay_us r =
    let least = smaller rtt_us r.min_rtt in
    let sample = adjusted rtt_us ack_delay_us least in
    if r.have_sample
    then record r {
      latest = rtt_us;
      min_rtt = least;
      rttvar = (3 * r.rttvar % 2 ^ 64 + distance sample r.smoothed) % 2 ^ 64 / 4;
      smoothed = (7 * r.smoothed % 2 ^ 64 + sample) % 2 ^ 64 / 8;
    }
    else record {
      latest = rtt_us;
      min_rtt = least;
      smoothed = rtt_us;
      rttvar = rtt_us / 2;
      have_sample = true;
    }

abbrev pub variation : ℕ → ℕ
variation rttvar =
    let four = 4 * rttvar % 2 ^ 64 in if ltb four granularity_us then granularity_us else four

abbrev pub pto_shift : ℕ → ℕ
pto_shift backoff = if ltb max_pto_backoff_shift backoff then max_pto_backoff_shift else backoff

unfoldable pub pto : ℕ → ℕ → RttEstimator → ℕ
pto max_ack_delay_us backoff r =
    let base = ((r.smoothed + variation r.rttvar) % 2 ^ 64 + max_ack_delay_us) % 2 ^ 64 in
    base * 2 ^ pto_shift backoff % 2 ^ 64
