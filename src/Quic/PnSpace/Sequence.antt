-- ===== src/Quic/PnSpace/Sequence.antt =====
-- The sequencing of a packet number space, and the independence of the three spaces.
use bolt_api.Prelude.{
  ℕ, ◌+◌, ◌≤◌, ◌<◌, ◌≡◌, ◌≢◌, refl, Option, none, some, List, [], ◌∷◌, All, ◌⊎◌, arith,
}
use bolt_api.Quic.PnSpace.{
  PacketNumberSpace, initial, handshake, application, PacketNumberSpaceState,
  PacketNumberSpaceManager, packet_number_max, next_packet_number, on_packet_received,
  on_largest_acked, initialize, get_space, update_space,
}

-- What happens to a space. An acknowledgement is taken in only if it is of a number that was
-- issued, which the caller tests against `peek_next_packet_number`.
pub data SpaceStep : PacketNumberSpaceState → PacketNumberSpaceState → Type 0 where
  sends :
      (s : PacketNumberSpaceState)
      → s.next_pn ≤ packet_number_max
      → SpaceStep s (next_packet_number s).1
  receives :
      (s : PacketNumberSpaceState) (pn : ℕ)
      → pn ≤ packet_number_max
      → SpaceStep s (on_packet_received pn s)
  acked :
      (s : PacketNumberSpaceState) (pn : ℕ) → pn < s.next_pn → SpaceStep s (on_largest_acked pn s)

pub data SpaceRun (s : PacketNumberSpaceState) : PacketNumberSpaceState → Type 0 where
  start : SpaceRun s s
  more : {t u : PacketNumberSpaceState} → SpaceRun s t → SpaceStep t u → SpaceRun s u

-- A state with the packet numbers that it took in so far, and those that were acknowledged.
pub data SpaceHistory : PacketNumberSpaceState → List ℕ → List ℕ → Type 0 where
  fresh : (space : PacketNumberSpace) → SpaceHistory (initialize space) [] []
  issued_one :
      {s : PacketNumberSpaceState} {took acked_pns : List ℕ}
      → s.next_pn ≤ packet_number_max
      → SpaceHistory s took acked_pns
      → SpaceHistory (next_packet_number s).1 took acked_pns
  took_one :
      {s : PacketNumberSpaceState} {took acked_pns : List ℕ} (pn : ℕ)
      → SpaceHistory s took acked_pns
      → SpaceHistory (on_packet_received pn s) (pn ∷ took) acked_pns
  acked_one :
      {s : PacketNumberSpaceState} {took acked_pns : List ℕ} (pn : ℕ)
      → pn < s.next_pn
      → SpaceHistory s took acked_pns
      → SpaceHistory (on_largest_acked pn s) took (pn ∷ acked_pns)

abbrev pub Occurs : ℕ → List ℕ → Type 0
Occurs m [] = ⊥
Occurs m (x ∷ xs) = (m ≡ x) ⊎ Occurs m xs

-- `o` is the largest number of the list, or no number when the list is empty.
abbrev pub IsLargest : Option ℕ → List ℕ → Type 0
IsLargest none xs = xs ≡ []
IsLargest (some m) xs = Occurs m xs × All (λ x. x ≤ m) xs

pub record IsSequenced (s : PacketNumberSpaceState) (took acked_pns : List ℕ) : Type 0 where
  pub issued : s.next_pn ≤ packet_number_max + 1
  pub received : IsLargest s.largest_received_pn took
  pub acked_largest : IsLargest s.largest_acked_pn acked_pns
  pub acked_issued : All (λ x. x < s.next_pn) acked_pns

pub next_pn-step : {s t : PacketNumberSpaceState} → SpaceStep s t → s.next_pn ≤ t.next_pn
unfolding next_packet_number on_packet_received on_largest_acked
next_pn-step (sends s h) = omega arith
next_pn-step (receives s pn h) = omega arith
next_pn-step (acked s pn h) = omega arith

next_pn-run : {s t : PacketNumberSpaceState} → SpaceRun s t → s.next_pn ≤ t.next_pn
next_pn-run start = omega arith
next_pn-run (more r st) = omega (arith, next_pn-run r, next_pn-step st)

-- No packet number is issued twice: what a space that is not exhausted issues after any further
-- run is larger than what it issued before.
pub next_packet_number-increases :
    (s : PacketNumberSpaceState) {t : PacketNumberSpaceState}
    → s.next_pn ≤ packet_number_max
    → SpaceRun (next_packet_number s).1 t
    → (next_packet_number s).0 < (next_packet_number t).0
unfolding next_packet_number
next_packet_number-increases s h r = omega (arith, next_pn-run r)

-- The spaces are independent: a change through one index is seen at that index, and at no other.
pub get_space-update_space :
    (a b : PacketNumberSpace) (f : PacketNumberSpaceState → PacketNumberSpaceState)
    (m : PacketNumberSpaceManager)
    → (get_space a (update_space a f m) ≡ f (get_space a m))
      × (a ≢ b → get_space b (update_space a f m) ≡ get_space b m)
unfolding get_space update_space
get_space-update_space initial initial f m = (refl, λ h. absurd (h refl))
get_space-update_space initial handshake f m = (refl, λ h. refl)
get_space-update_space initial application f m = (refl, λ h. refl)
get_space-update_space handshake initial f m = (refl, λ h. refl)
get_space-update_space handshake handshake f m = (refl, λ h. absurd (h refl))
get_space-update_space handshake application f m = (refl, λ h. refl)
get_space-update_space application initial f m = (refl, λ h. refl)
get_space-update_space application handshake f m = (refl, λ h. refl)
get_space-update_space application application f m = (refl, λ h. absurd (h refl))
