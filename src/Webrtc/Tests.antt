-- ===== src/Webrtc/Tests.antt =====
-- Packets of one source, and the theorems on the replay window at concrete inputs.
use bolt_api.Prelude.{ℕ, ◌%◌, ◌^◌, ◌≡◌, refl, true, [], ◌∷◌, arith}
use bolt_api.Webrtc.Replay.{
  SsrcState, new_slot, guess_roc, packet_index, unprotect_rtp, replay_error, Opened, deciphered,
  wrong_tag,
}
use bolt_api.Webrtc.Replay.History.{accepts, IsDistinct}
use bolt_api.Webrtc.Replay.Runs.{Run, start, packet, verdict, unprotect_rtp-accepts, Run-IsDistinct}
use bolt_api.Webrtc.Replay.Rollover.{packet_index-guess_roc}

abbrev genuine : ℕ → Opened
genuine idx = deciphered

abbrev forged : ℕ → Opened
forged idx = wrong_tag

-- Packets 7 and 100, then 9 forged and genuine.
abbrev first : SsrcState
unfolding unprotect_rtp
first = (unprotect_rtp genuine (new_slot 5) 7).1

abbrev second : SsrcState
unfolding unprotect_rtp
second = (unprotect_rtp genuine first 100).1

abbrev attacked : SsrcState
unfolding unprotect_rtp
attacked = (unprotect_rtp forged second 9).1

abbrev third : SsrcState
unfolding unprotect_rtp
third = (unprotect_rtp genuine attacked 9).1

third-Run : Run third (9 ∷ 100 ∷ 7 ∷ [])
unfolding unprotect_rtp
third-Run = packet genuine 9 (packet forged 9 (packet genuine 100 (packet genuine 7 (start 5))))

again : (unprotect_rtp genuine third 100).0 ≡ replay_error
unfolding unprotect_rtp
again = refl

unprotect_rtp-accepts_example :
    (unprotect_rtp genuine third 9).0
    ≡ verdict
        (accepts (9 ∷ 100 ∷ 7 ∷ []) (packet_index (guess_roc third 9) 9))
        (genuine (packet_index (guess_roc third 9) 9))
unprotect_rtp-accepts_example = unprotect_rtp-accepts genuine third (9 ∷ 100 ∷ 7 ∷ []) 9 third-Run

Run-IsDistinct_example : IsDistinct (9 ∷ 100 ∷ 7 ∷ [])
Run-IsDistinct_example = Run-IsDistinct third (9 ∷ 100 ∷ 7 ∷ []) third-Run

-- A source whose sequence numbers are about to wrap.
abbrev wrapping : SsrcState
wrapping = record {
  ssrc = 5;
  roc = 2;
  s_l = 65530;
  window = 1;
  window_hi = 0;
  seen = true;
  in_use = true;
}

packet_index-guess_roc_example :
    packet_index (guess_roc wrapping (196613 % 2 ^ 16)) (196613 % 2 ^ 16) ≡ 196613
packet_index-guess_roc_example =
    packet_index-guess_roc wrapping 196613 refl (omega arith) (omega arith)
      (unfold packet_index in omega arith) (unfold packet_index in omega arith)
