-- ===== src/Quic/PnSpace.antt =====
-- include/boltapi/quic/pn_space.h: packet numbers, their truncated form, and the sequencing of
-- each packet number space. Numbers are uint64_t; the asserts are hypotheses of the theorems.
pub mod Truncation
pub mod Sequence
use bolt_api.Prelude.{
  ℕ, suc, ◌+◌, ◌*◌, ◌-◌, ◌/◌, ◌%◌, ◌^◌, bit_and, bit_or, Bool, Option, none, some, ltb, leb, ◌&&◌,
  if◌then◌else◌,
}

pub data PacketNumberSpace : Type 0 where
  initial handshake application : PacketNumberSpace

abbrev pub packet_number_max : ℕ
packet_number_max = 2 ^ 62 - 1

unfoldable pub pn_encode_length : ℕ → ℕ
pn_encode_length pn =
    if ltb pn 0x100 then 1 else if ltb pn 0x10000 then 2 else if ltb pn 0x1000000 then 3 else 4

unfoldable pub pn_encode_length_truncated : ℕ → ℕ → ℕ
pn_encode_length_truncated full_pn largest_acked =
    let diff = (full_pn + 2 ^ 64 - largest_acked) % 2 ^ 64 in
    let range = diff * 4 % 2 ^ 64 in
    if ltb range 0x80
    then 1
    else if ltb range 0x4000
    then 2
    else if ltb range 0x200000
    then 3
    else 4

-- `expected_pn & ~pn_mask` over 64 bits, with the truncated number put in its low bits.
unfoldable pub candidate : ℕ → ℕ → ℕ → ℕ
candidate truncated_pn expected_pn pn_win =
    bit_or (bit_and expected_pn (2 ^ 64 - 1 - (pn_win - 1))) truncated_pn

unfoldable pub pn_decode : ℕ → ℕ → ℕ → ℕ
pn_decode truncated_pn largest_acked pn_nbits =
    let expected_pn = largest_acked + 1 in
    let pn_win = 2 ^ pn_nbits in
    let pn_hwin = pn_win / 2 in
    let candidate_pn = candidate truncated_pn expected_pn pn_win in
    if leb pn_hwin expected_pn
      && leb candidate_pn (expected_pn - pn_hwin)
      && ltb candidate_pn (2 ^ 62 - pn_win)
    then (candidate_pn + pn_win) % 2 ^ 64
    else if ltb (expected_pn + pn_hwin) candidate_pn && leb pn_win candidate_pn
    then candidate_pn - pn_win
    else candidate_pn

-- `none` is the -1 of the source: no packet yet.
pub record PacketNumberSpaceState : Type 0 where
  pub space : PacketNumberSpace
  pub next_pn : ℕ
  pub largest_received_pn : Option ℕ
  pub largest_acked_pn : Option ℕ

unfoldable pub initialize : PacketNumberSpace → PacketNumberSpaceState
initialize s = record {
  space = s;
  next_pn = 0;
  largest_received_pn = none;
  largest_acked_pn = none;
}

unfoldable pub next_packet_number : PacketNumberSpaceState → ℕ × PacketNumberSpaceState
next_packet_number s = (s.next_pn, record s { next_pn = (s.next_pn + 1) % 2 ^ 64 })

-- The larger of the two, for a signed comparison with -1 for `none`.
unfoldable pub raise : ℕ → Option ℕ → Option ℕ
raise pn none = some pn
raise pn (some old) = if ltb old pn then some pn else some old

unfoldable pub on_packet_received : ℕ → PacketNumberSpaceState → PacketNumberSpaceState
unfolding raise
on_packet_received pn s = record s { largest_received_pn = raise pn s.largest_received_pn }

unfoldable pub on_largest_acked : ℕ → PacketNumberSpaceState → PacketNumberSpaceState
unfolding raise
on_largest_acked pn s = record s { largest_acked_pn = raise pn s.largest_acked_pn }

-- The three spaces, indexed by the enum.
pub record PacketNumberSpaceManager : Type 0 where
  pub initial_space : PacketNumberSpaceState
  pub handshake_space : PacketNumberSpaceState
  pub application_space : PacketNumberSpaceState

unfoldable pub new_manager : PacketNumberSpaceManager
unfolding initialize
new_manager = record {
  initial_space = initialize initial;
  handshake_space = initialize handshake;
  application_space = initialize application;
}

unfoldable pub get_space : PacketNumberSpace → PacketNumberSpaceManager → PacketNumberSpaceState
get_space initial m = m.initial_space
get_space handshake m = m.handshake_space
get_space application m = m.application_space

-- What a caller does to a space through the reference that `operator[]` returns.
unfoldable pub update_space :
    PacketNumberSpace
    → (PacketNumberSpaceState → PacketNumberSpaceState)
    → PacketNumberSpaceManager
    → PacketNumberSpaceManager
update_space initial f m = record m { initial_space = f m.initial_space }
update_space handshake f m = record m { handshake_space = f m.handshake_space }
update_space application f m = record m { application_space = f m.application_space }
