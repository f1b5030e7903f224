-- ===== src/Quic/Robustness/Negotiation.antt =====
-- Version negotiation packets of include/boltapi/quic/robustness.h, built and parsed.
use bolt_api.Prelude.{
  ℕ, ◌+◌, ◌-◌, ◌*◌, ◌/◌, ◌%◌, ◌^◌, ◌≤◌, ◌<◌, ◌≡◌, refl, sym, ap, ap₂, ◌∙◌, true, false, ltb, ◌==◌,
  List, [], ◌∷◌, ◌++◌, length, drop, All, append_assoc, length-append, drop-length_append, bit_and,
  arith,
}
use bolt_api.Http2.Frame.{read_uint32}
use bolt_api.Http2.Frame.Write.{write_uint32}
use bolt_api.Http2.Frame.Numbers.{read_uint32-write_uint32}
use bolt_api.Quic.Robustness.{
  version_bytes, write_versions, build_version_negotiation, read_version, read_versions,
  parse_version_negotiation_versions,
}

abbrev pub IsVersion : ℕ → Type 0
IsVersion v = v < 2 ^ 32

read_version-version_bytes :
    (v : ℕ) (rest : List ℕ) → v < 2 ^ 32 → read_version (version_bytes v ++ rest) ≡ v
unfolding read_uint32 write_uint32
read_version-version_bytes v rest h =
    ap
      (λ t. read_uint32 (
        bit_and (v / 2 ^ 24) 0xFF
        ∷ bit_and (v / 2 ^ 16) 0xFF
        ∷ bit_and (v / 2 ^ 8) 0xFF
        ∷ bit_and t 0xFF
        ∷ rest))
      (let e : v ≡ v / 2 ^ 0 = omega arith in e)
    ∙ read_uint32-write_uint32 v rest h

read_versions-write_versions :
    (vs : List ℕ) → All IsVersion vs → read_versions (length vs) (write_versions vs) ≡ vs
read_versions-write_versions [] h = refl
read_versions-write_versions (v ∷ vs) (small, h) =
    ap₂ ◌∷◌ (read_version-version_bytes v (write_versions vs) small)
      (read_versions-write_versions vs h)

length-write_versions : (vs : List ℕ) → length (write_versions vs) ≡ 4 * length vs
length-write_versions [] = omega arith
length-write_versions (v ∷ vs) = omega (arith, length-write_versions vs)

-- The versions of a negotiation packet are read back, all and in order, from behind the two
-- connection ids: one version at least, all of 32 bits, and buffers that have room for them.
pub parse-build_version_negotiation :
    (client_dcid client_scid versions : List ℕ) (v cap cap_versions : ℕ)
    → All IsVersion (v ∷ versions)
    → 7 + length client_scid + length client_dcid + 4 * length (v ∷ versions) ≤ cap
    → length (v ∷ versions) ≤ cap_versions
    → parse_version_negotiation_versions
        (build_version_negotiation client_dcid client_scid (v ∷ versions) cap)
        (7 + length client_scid + length client_dcid)
        cap_versions
      ≡ v ∷ versions
unfolding parse_version_negotiation_versions build_version_negotiation
parse-build_version_negotiation client_dcid client_scid versions v cap cap_versions small room
      enough =
    let vs : List ℕ = v ∷ versions in
    let words : List ℕ = write_versions vs in
    let ids : List ℕ = client_scid ++ (length client_dcid ∷ client_dcid) in
    let front : List ℕ = 0xC0 ∷ 0 ∷ 0 ∷ 0 ∷ 0 ∷ length client_scid ∷ ids in
    let off : ℕ = 7 + length client_scid + length client_dcid in
    let off_lem : off ≡ length front =
      omega (arith, length-append client_scid (length client_dcid ∷ client_dcid)) in
    let total : length (front ++ words) ≡ off + 4 * length vs =
      omega (arith, length-append front words, length-write_versions vs, off_lem) in
    let fits : ltb cap (1 + 4 + 1 + length client_scid + 1 + length client_dcid + 4 * length vs)
        ≡ false =
      ground (arith, room) in
    let inside : ltb (length (front ++ words)) off ≡ false = ground (arith, total) in
    let avail : length (front ++ words) - off ≡ 4 * length vs = omega (arith, total) in
    let one : ltb (4 * length vs) 4 ≡ false = ground arith in
    let whole_words : (4 * length vs % 4 == 0) ≡ true = ground arith in
    let count : 4 * length vs / 4 ≡ length vs = omega arith in
    let all : ltb cap_versions (length vs) ≡ false = ground (arith, enough) in
    let rest : drop off (front ++ words) ≡ words =
      ap (λ t. drop t (front ++ words)) off_lem ∙ drop-length_append front words in
    let joined : client_scid ++ (length client_dcid ∷ (client_dcid ++ words)) ≡ ids ++ words =
      sym (append_assoc client_scid (length client_dcid ∷ client_dcid) words) in
    rw (fits, joined, inside, avail, one, whole_words, count, all, rest)
      (read_versions-write_versions vs small)
