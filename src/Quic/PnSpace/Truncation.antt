-- ===== src/Quic/PnSpace/Truncation.antt =====
-- A truncated packet number against the full one.
use bolt_api.Prelude.{
  ℕ, ◌+◌, ◌*◌, ◌-◌, ◌/◌, ◌%◌, ◌^◌, ◌≤◌, ◌<◌, ◌≡◌, ◌⊎◌, inl, inr, ap, ◌∙◌, bit_and, arith,
}
use bolt_api.Prelude.Bits.{bit_and_mask, bit_and_high, bit_or_disjoint}
use bolt_api.Quic.PnSpace.{packet_number_max, pn_encode_length_truncated, candidate, pn_decode}
use native.Mathlib.Nat.{mod-eq_of_lt}

-- The candidate has the high part of the expected number and the low part that was sent. The
-- width is `k` bits; `high` ones stand above them in 64 bits.
candidate_lem :
    (k high full expected : ℕ)
    → 2 ^ 64 - 1 - (2 ^ k - 1) ≡ (2 ^ high - 1) * 2 ^ k
    → full % 2 ^ k < 2 ^ k
    → expected / 2 ^ k < 2 ^ high
    → candidate (full % 2 ^ k) expected (2 ^ k) ≡ expected / 2 ^ k * 2 ^ k + full % 2 ^ k
unfolding candidate
candidate_lem k high full expected mask low fits =
    let top : bit_and expected ((2 ^ high - 1) * 2 ^ k) ≡ expected / 2 ^ k * 2 ^ k =
      bit_and_high k (2 ^ high - 1) expected
      ∙ ap (λ t. t * 2 ^ k) (bit_and_mask high (expected / 2 ^ k) ∙ mod-eq_of_lt fits) in
    rw (mask, top) (bit_or_disjoint k (expected / 2 ^ k) (full % 2 ^ k) low)

-- Full numbers that stand within half a window of the expected one.
record Near (full largest_acked hwin : ℕ) : Type 0 where
  legal : full ≤ packet_number_max
  acked : largest_acked ≤ packet_number_max
  above : full ≤ largest_acked + 1 + hwin
  below : largest_acked + 1 < full + hwin

module _ (full largest_acked : ℕ) where
  decode_8 : Near full largest_acked (2 ^ 7) → pn_decode (full % 2 ^ 8) largest_acked 8 ≡ full
  unfolding pn_decode
  decode_8 h = ground (arith, candidate_lem 8 56 full (largest_acked + 1))

  decode_16 : Near full largest_acked (2 ^ 15) → pn_decode (full % 2 ^ 16) largest_acked 16 ≡ full
  unfolding pn_decode
  decode_16 h = ground (arith, candidate_lem 16 48 full (largest_acked + 1))

  decode_24 : Near full largest_acked (2 ^ 23) → pn_decode (full % 2 ^ 24) largest_acked 24 ≡ full
  unfolding pn_decode
  decode_24 h = ground (arith, candidate_lem 24 40 full (largest_acked + 1))

  decode_32 : Near full largest_acked (2 ^ 31) → pn_decode (full % 2 ^ 32) largest_acked 32 ≡ full
  unfolding pn_decode
  decode_32 h = ground (arith, candidate_lem 32 32 full (largest_acked + 1))

-- What the chosen length says of the distance to the largest acknowledged number.
module _ (full largest_acked : ℕ) (f : full ≤ packet_number_max) (l : largest_acked ≤ full) where
  difference : (full + 2 ^ 64 - largest_acked) % 2 ^ 64 * 4 % 2 ^ 64 ≡ (full - largest_acked) * 4
  difference = omega arith

  length-cases :
      let n = pn_encode_length_truncated full largest_acked in
      ((n ≡ 1) × (full < largest_acked + 32))
      ⊎ (((n ≡ 2) × (full < largest_acked + 4096))
          ⊎ (((n ≡ 3) × (full < largest_acked + 524288)) ⊎ (n ≡ 4)))
  unfolding pn_encode_length_truncated
  length-cases = ground (arith, difference)

-- A packet number cut to the length that the sender chooses is read back in full, for every
-- sender that is less than 2^31 packets ahead of what was acknowledged.
pub pn_decode-pn_encode_length_truncated :
    (full largest_acked : ℕ)
    → full ≤ packet_number_max
    → largest_acked ≤ full
    → full < largest_acked + 2 ^ 31
    → let n = pn_encode_length_truncated full largest_acked in
      pn_decode (full % 2 ^ (8 * n)) largest_acked (8 * n) ≡ full
pn_decode-pn_encode_length_truncated full la f l d = elim (length-cases full la f l) [
  | inl (e, h) ↦ rw e (decode_8 full la (omega arith))
  | inr (inl (e, h)) ↦ rw e (decode_16 full la (omega arith))
  | inr (inr (inl (e, h))) ↦ rw e (decode_24 full la (omega arith))
  | inr (inr (inr e)) ↦ rw e (decode_32 full la (omega arith))
]
