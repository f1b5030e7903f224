-- ===== src/Quic/Recovery/Sent/History.antt =====
-- What the tracker of sent packets promises: a list of the last packets, the oldest first.
use bolt_api.Prelude.{
  ℕ, zero, suc, ◌+◌, Bool, true, false, not, ◌&&◌, ◌||◌, ◌==◌, leb, ltb, if◌then◌else◌, Option,
  none, some, List, [], ◌∷◌, ◌++◌, length,
}
use bolt_api.Quic.Recovery.Sent.{max_sent_packets, SentPacketInfo}

-- A new packet behind the others; with 256 of them the oldest one goes, and what it counted in
-- flight is reported.
abbrev pub push : SentPacketInfo → List SentPacketInfo → ℕ × List SentPacketInfo
push packet [] = (0, packet ∷ [])
push packet (x ∷ xs) =
    if ltb (length (x ∷ xs)) max_sent_packets
    then (0, (x ∷ xs) ++ (packet ∷ []))
    else ((if x.in_flight then x.size else 0), xs ++ (packet ∷ []))

abbrev pub change_nth {ℓ} : {A : Type ℓ} → ℕ → (A → A) → List A → List A
change_nth i change [] = []
change_nth zero change (x ∷ xs) = change x ∷ xs
change_nth (suc i) change (x ∷ xs) = x ∷ change_nth i change xs

-- The position, from `i` on, of the packet with this number that is neither acknowledged nor lost.
abbrev pub position : ℕ → ℕ → List SentPacketInfo → Option ℕ
position pn i [] = none
position pn i (x ∷ xs) =
    if (x.packet_number == pn) && not (x.acked || x.lost) then some i else position pn (i + 1) xs

abbrev pub any_counts : List SentPacketInfo → Bool
any_counts [] = false
any_counts (x ∷ xs) = (x.ack_eliciting && x.in_flight) || any_counts xs

-- The smaller of a time and of one that there may be.
abbrev pub sooner : ℕ → Option ℕ → ℕ
sooner t none = t
sooner t (some u) = if leb t u then t else u

-- The smallest send time of the packets that ask for an acknowledgement and are in flight.
abbrev pub earliest : List SentPacketInfo → Option ℕ
earliest [] = none
earliest (x ∷ xs) =
    if x.ack_eliciting && x.in_flight
    then some (sooner x.time_sent_us (earliest xs))
    else earliest xs

-- Whether there is a time, and the time or else what the caller had.
abbrev pub answer : ℕ → Option ℕ → Bool × ℕ
answer out none = (false, out)
answer out (some t) = (true, t)
