-- ===== src/Quic/Recovery/RttBounds.antt =====
-- The estimator of include/boltapi/quic/loss.h over all runs of samples.
use bolt_api.Prelude.{
  ℕ, zero, suc, ◌+◌, ◌-◌, ◌*◌, ◌/◌, ◌%◌, ◌^◌, ◌≤◌, ◌<◌, ◌≡◌, refl, sym, subst, true, List, [], ◌∷◌,
  All, arith,
}
use native.Mathlib.Nat.{mul-le-mul, one-le-pow}
use bolt_api.Quic.Recovery.Rtt.{
  RttEstimator, new_estimator, smaller, adjusted, distance, on_rtt_sample, variation, pto_shift,
  pto,
}

-- The samples of a connection with their delays, the last one first.
unfoldable pub sampled : List (ℕ × ℕ) → RttEstimator
unfolding on_rtt_sample
sampled [] = new_estimator
sampled ((rtt_us, ack_delay_us) ∷ xs) = on_rtt_sample rtt_us ack_delay_us (sampled xs)

module _ (lo hi : ℕ) where
  abbrev pub IsSample : ℕ × ℕ → Type 0
  IsSample (rtt_us, ack_delay_us) = (lo ≤ rtt_us) × (rtt_us ≤ hi) × (ack_delay_us < 2 ^ 56)

  -- The estimate after a sample; before, nothing is known but the minimum.
  record Estimates (r : RttEstimator) : Type 0 where
    sampled_once : r.have_sample ≡ true
    smoothed_low : lo ≤ r.smoothed
    smoothed_high : r.smoothed ≤ hi
    rttvar_high : r.rttvar ≤ hi
    min_low : lo ≤ r.min_rtt
    min_high : r.min_rtt ≤ hi

  first_sample :
      (rtt_us ack_delay_us : ℕ)
      → hi < 2 ^ 56
      → IsSample (rtt_us, ack_delay_us)
      → Estimates (on_rtt_sample rtt_us ack_delay_us new_estimator)
  unfolding on_rtt_sample
  first_sample rtt_us ack_delay_us small (low, high, delay) =
      let least : smaller rtt_us (2 ^ 64 - 1) ≡ rtt_us = ground arith in
      record {
        sampled_once = refl;
        smoothed_low = low;
        smoothed_high = high;
        rttvar_high = omega arith;
        min_low = omega (arith, least);
        min_high = omega (arith, least);
      }

  adjusted_lem :
      (rtt_us ack_delay_us least : ℕ)
      → hi < 2 ^ 56
      → ack_delay_us < 2 ^ 56
      → lo ≤ least
      → least ≤ rtt_us
      → rtt_us ≤ hi
      → (lo ≤ adjusted rtt_us ack_delay_us least) × (adjusted rtt_us ack_delay_us least ≤ hi)
  adjusted_lem rtt_us ack_delay_us least small delay a b c = (ground arith, ground arith)

  smaller_lem :
      (rtt_us least : ℕ)
      → lo ≤ rtt_us
      → lo ≤ least
      → (lo ≤ smaller rtt_us least)
        × (smaller rtt_us least ≤ rtt_us)
        × (smaller rtt_us least ≤ least)
  smaller_lem rtt_us least a b = (ground arith, ground arith, ground arith)

  distance_lem : (a b : ℕ) → a ≤ hi → b ≤ hi → distance a b ≤ hi
  distance_lem a b h k = ground arith

  next_sample :
      (rtt_us ack_delay_us : ℕ) (r : RttEstimator)
      → hi < 2 ^ 56
      → IsSample (rtt_us, ack_delay_us)
      → Estimates r
      → Estimates (on_rtt_sample rtt_us ack_delay_us r)
  unfolding on_rtt_sample
  next_sample rtt_us ack_delay_us r small (low, high, delay) e =
      let least : ℕ = smaller rtt_us r.min_rtt in
      let sample : ℕ = adjusted rtt_us ack_delay_us least in
      let spread : ℕ = distance sample r.smoothed in
      let (a, b, c) = smaller_lem rtt_us r.min_rtt low e.min_low in
      let (above, below) = adjusted_lem rtt_us ack_delay_us least small delay a b high in
      let near : spread ≤ hi = distance_lem sample r.smoothed below e.smoothed_high in
      let updated : RttEstimator = record r {
        latest = rtt_us;
        min_rtt = least;
        rttvar = (3 * r.rttvar % 2 ^ 64 + spread) % 2 ^ 64 / 4;
        smoothed = (7 * r.smoothed % 2 ^ 64 + sample) % 2 ^ 64 / 8;
      } in
      let done : on_rtt_sample rtt_us ack_delay_us r ≡ updated = rw e.sampled_once refl in
      subst Estimates (sym done) (record {
        sampled_once = e.sampled_once;
        smoothed_low = omega (arith, e.smoothed_low, e.smoothed_high, above, below);
        smoothed_high = omega (arith, e.smoothed_low, e.smoothed_high, above, below);
        rttvar_high = omega (arith, e.rttvar_high, near);
        min_low = a;
        min_high = omega (arith, b, high);
      })

  sampled-Estimates :
      (x : ℕ × ℕ) (xs : List (ℕ × ℕ))
      → hi < 2 ^ 56
      → All IsSample (x ∷ xs)
      → Estimates (sampled (x ∷ xs))
  unfolding sampled
  sampled-Estimates (rtt_us, ack_delay_us) [] small (v, all) =
      first_sample rtt_us ack_delay_us small v
  sampled-Estimates (rtt_us, ack_delay_us) (y ∷ xs) small (v, all) =
      next_sample rtt_us ack_delay_us (sampled (y ∷ xs)) small v (sampled-Estimates y xs small all)

  variation_lem : (rttvar : ℕ) → rttvar ≤ hi → hi < 2 ^ 56 → variation rttvar ≤ 4 * hi + 1000
  variation_lem rttvar h small = ground arith

shift_lem : (backoff : ℕ) → (1 ≤ 2 ^ pto_shift backoff) × (2 ^ pto_shift backoff ≤ 64)
shift_lem backoff =
    (one-le-pow (pto_shift backoff) 2 (omega arith), at_most (pto_shift backoff) (ground arith))
  where
    at_most : (n : ℕ) → n ≤ 6 → 2 ^ n ≤ 64
    at_most zero h = omega arith
    at_most (suc zero) h = omega arith
    at_most (suc (suc zero)) h = omega arith
    at_most (suc (suc (suc zero))) h = omega arith
    at_most (suc (suc (suc (suc zero)))) h = omega arith
    at_most (suc (suc (suc (suc (suc zero))))) h = omega arith
    at_most (suc (suc (suc (suc (suc (suc zero)))))) h = omega arith
    at_most (suc (suc (suc (suc (suc (suc (suc n))))))) h = absurd (omega (arith, h))

scaled_lem :
    (base bound power : ℕ)
    → base ≤ bound
    → bound < 2 ^ 58
    → 1 ≤ power
    → power ≤ 64
    → (base ≤ base * power % 2 ^ 64) × (base * power % 2 ^ 64 ≤ 64 * bound)
scaled_lem base bound power h small one most =
    let upper : base * power ≤ bound * 64 = mul-le-mul h most in
    let lower : base * 1 ≤ base * power = mul-le-mul (omega arith) one in
    (omega (arith, upper, lower), omega (arith, upper, lower))

-- After any run of RTT samples that all lie between two bounds, one sample at least, the smoothed
-- RTT lies between them too, and the probe timeout is at least it and the peer's delay and at most
-- 64 times the sum of five upper bounds, a millisecond and the delay: no word overflows, and the
-- back-off is capped. The upper bound and the delays are below 2^55.
pub pto-sampled :
    (lo hi : ℕ) (x : ℕ × ℕ) (xs : List (ℕ × ℕ)) (max_ack_delay_us backoff : ℕ)
    → hi < 2 ^ 55
    → max_ack_delay_us < 2 ^ 55
    → All (IsSample lo hi) (x ∷ xs)
    → let r = sampled (x ∷ xs) in
      (lo ≤ r.smoothed)
      × (r.smoothed ≤ hi)
      × (r.smoothed + max_ack_delay_us ≤ pto max_ack_delay_us backoff r)
      × (pto max_ack_delay_us backoff r ≤ 64 * (5 * hi + 1000 + max_ack_delay_us))
unfolding pto
pto-sampled lo hi x xs max_ack_delay_us backoff small delay all =
    let r : RttEstimator = sampled (x ∷ xs) in
    let e : Estimates lo hi r = sampled-Estimates lo hi x xs (omega arith) all in
    let var : variation r.rttvar ≤ 4 * hi + 1000 =
      variation_lem lo hi r.rttvar e.rttvar_high (omega arith) in
    let base : ℕ = ((r.smoothed + variation r.rttvar) % 2 ^ 64 + max_ack_delay_us) % 2 ^ 64 in
    let bound : ℕ = 5 * hi + 1000 + max_ack_delay_us in
    let within : base ≤ bound = omega (arith, var, e.smoothed_high) in
    let least : r.smoothed + max_ack_delay_us ≤ base = omega (arith, var, e.smoothed_high) in
    let (one, most) = shift_lem backoff in
    let (above, below) =
      scaled_lem base bound (2 ^ pto_shift backoff) within (omega arith) one most in
    (e.smoothed_low, e.smoothed_high, omega (arith, least, above), below)
