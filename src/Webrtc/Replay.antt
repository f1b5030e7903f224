-- ===== src/Webrtc/Replay.antt =====
-- The rollover counter and the replay window of include/boltapi/webrtc/srtp.h: SsrcState with
-- guess_roc, packet_index, replay_ok and replay_commit, and the part of unprotect_rtp for one
-- SsrcState. What the cryptographic library (HMAC and AES) makes of a packet is an argument.
pub mod Window
pub mod History
pub mod Refinement
pub mod Runs
pub mod Rollover
use bolt_api.Prelude.{
  ℕ, ◌+◌, ◌-◌, ◌*◌, ◌/◌, ◌%◌, ◌^◌, Bool, true, false, ◌&&◌, ltb, leb, ◌==◌, if◌then◌else◌, bit_and,
  bit_or,
}

abbrev pub replay_window_bits : ℕ
replay_window_bits = 128

pub record SsrcState : Type 0 where
  pub ssrc : ℕ
  pub roc : ℕ
  pub s_l : ℕ
  pub window : ℕ
  pub window_hi : ℕ
  pub seen : Bool
  pub in_use : Bool

-- The slot that `slot_for` hands out for a new source.
abbrev pub new_slot : ℕ → SsrcState
new_slot ssrc = record {
  ssrc = ssrc;
  roc = 0;
  s_l = 0;
  window = 0;
  window_hi = 0;
  seen = false;
  in_use = true;
}

unfoldable pub guess_roc : SsrcState → ℕ → ℕ
guess_roc s seq =
    if s.seen
    then (if ltb s.s_l 32768
        then (if ltb (s.s_l + 32768) seq && ltb 0 s.roc then s.roc - 1 else s.roc)
        else if ltb (seq + 32768) s.s_l
        then (s.roc + 1) % 2 ^ 32
        else s.roc)
    else s.roc

unfoldable pub packet_index : ℕ → ℕ → ℕ
packet_index roc seq = bit_or (roc * 2 ^ 16) seq

unfoldable pub replay_ok : SsrcState → ℕ → Bool
unfolding packet_index
replay_ok s idx =
    let top = packet_index s.roc s.s_l in
    if s.seen
    then (if ltb top idx
        then true
        else if leb replay_window_bits (top - idx)
        then false
        else if ltb (top - idx) 64
        then bit_and s.window (2 ^ (top - idx)) == 0
        else bit_and s.window_hi (2 ^ (top - idx - 64)) == 0)
    else true

-- The two words of the window, moved up by `shift`.
unfoldable pub shift_window : ℕ → ℕ → ℕ → ℕ × ℕ
shift_window shift window_hi window =
    if leb replay_window_bits shift
    then (0, 0)
    else if leb 64 shift
    then (window * 2 ^ (shift - 64) % 2 ^ 64, 0)
    else (
      bit_or (window_hi * 2 ^ shift % 2 ^ 64) (if shift == 0 then 0 else window / 2 ^ (64 - shift)),
      window * 2 ^ shift % 2 ^ 64,
    )

-- The two words with bit `delta` set.
unfoldable pub mark_window : ℕ → ℕ → ℕ → ℕ × ℕ
mark_window delta window_hi window =
    if ltb delta 64
    then (window_hi, bit_or window (2 ^ delta))
    else if ltb delta replay_window_bits
    then (bit_or window_hi (2 ^ (delta - 64)), window)
    else (window_hi, window)

unfoldable pub replay_commit : SsrcState → ℕ → ℕ → ℕ → SsrcState
unfolding packet_index shift_window mark_window
replay_commit s roc seq idx =
    let top = packet_index s.roc s.s_l in
    let moved = shift_window (idx - top) s.window_hi s.window in
    let marked = mark_window (top - idx) s.window_hi s.window in
    if s.seen
    then (if ltb top idx
        then record s { roc = roc; s_l = seq; window_hi = moved.0; window = bit_or (moved.1) 1 }
        else record s { window_hi = marked.0; window = marked.1 })
    else record s { roc = roc; s_l = seq; seen = true; window = 1; window_hi = 0 }

-- The results of `unprotect_rtp` behind the tests of the lengths and of the slot.
pub data Unprotected : Type 0 where
  replay_error auth_fail crypto_fail unprotected : Unprotected

-- What the calls of the cryptographic library on a packet come to: it is deciphered, its tag is not
-- the right one, or a call fails.
pub data Opened : Type 0 where
  deciphered wrong_tag failed_call : Opened

-- `cm_unprotect_rtp` and `gcm_unprotect_rtp` behind these calls: the result, and the state with or
-- without the packet. The GCM one takes a failed call for a wrong tag.
abbrev pub settle : Opened → SsrcState → SsrcState → Unprotected × SsrcState
settle deciphered committed s = (unprotected, committed)
settle wrong_tag committed s = (auth_fail, s)
settle failed_call committed s = (crypto_fail, s)

-- `verify` is what the library makes of this packet under an index.
unfoldable pub unprotect_rtp : (ℕ → Opened) → SsrcState → ℕ → Unprotected × SsrcState
unfolding guess_roc packet_index replay_ok replay_commit
unprotect_rtp verify s seq =
    let roc = guess_roc s seq in
    let idx = packet_index roc seq in
    if replay_ok s idx
    then settle (verify idx) (replay_commit s roc seq idx) s
    else (replay_error, s)
