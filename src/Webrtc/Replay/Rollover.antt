-- ===== src/Webrtc/Replay/Rollover.antt =====
-- The estimate of the rollover counter in include/boltapi/webrtc/srtp.h.
use bolt_api.Prelude.{
  ℕ, ◌+◌, ◌-◌, ◌*◌, ◌/◌, ◌%◌, ◌^◌, ◌<◌, ◌≡◌, refl, ap, ◌∙◌, true, ◌&&◌, ltb, if◌then◌else◌, arith,
}
use bolt_api.Prelude.Bits.{bit_or_disjoint}
use bolt_api.Webrtc.Replay.{SsrcState, guess_roc, packet_index}

packet_index_lem : (roc seq : ℕ) → seq < 2 ^ 16 → packet_index roc seq ≡ roc * 65536 + seq
unfolding packet_index
packet_index_lem roc seq h = bit_or_disjoint 16 roc seq h

-- The guess, over the two fields that it reads.
abbrev guess : ℕ → ℕ → ℕ → ℕ
guess roc s_l seq =
    if ltb s_l 32768
    then (if ltb (s_l + 32768) seq && ltb 0 roc then roc - 1 else roc)
    else if ltb (seq + 32768) s_l
    then (roc + 1) % 2 ^ 32
    else roc

guess_lem :
    (roc s_l r seq : ℕ)
    → s_l < 65536
    → seq < 65536
    → roc < 2 ^ 32 - 1
    → roc * 65536 + s_l < r * 65536 + seq + 32768
    → r * 65536 + seq < roc * 65536 + s_l + 32768
    → guess roc s_l seq ≡ r
guess_lem roc s_l r seq h k b above below = ground arith

guess_roc-guess :
    (s : SsrcState) (seq : ℕ) → s.seen ≡ true → guess_roc s seq ≡ guess s.roc s.s_l seq
unfolding guess_roc
guess_roc-guess s seq seen = rw seen refl

-- Once a packet was seen, the index of a packet is found from its 16-bit sequence number alone,
-- whenever it is less than 2^15 from the newest one on either side; the rollover counter is below
-- its last value.
pub packet_index-guess_roc :
    (s : SsrcState) (idx : ℕ)
    → s.seen ≡ true
    → s.s_l < 2 ^ 16
    → s.roc < 2 ^ 32 - 1
    → packet_index s.roc s.s_l < idx + 2 ^ 15
    → idx < packet_index s.roc s.s_l + 2 ^ 15
    → packet_index (guess_roc s (idx % 2 ^ 16)) (idx % 2 ^ 16) ≡ idx
packet_index-guess_roc s idx seen h b above below =
    let seq : ℕ = idx % 2 ^ 16 in
    let newest : packet_index s.roc s.s_l ≡ s.roc * 65536 + s.s_l =
      packet_index_lem s.roc s.s_l h in
    let right : guess s.roc s.s_l seq ≡ idx / 2 ^ 16 =
      guess_lem s.roc s.s_l (idx / 2 ^ 16) seq h (omega arith) b (omega (arith, newest))
        (omega (arith, newest)) in
    ap (λ r. packet_index r seq) (guess_roc-guess s seq seen ∙ right)
    ∙ packet_index_lem (idx / 2 ^ 16) seq (omega arith)
    ∙ omega arith
