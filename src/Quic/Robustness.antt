-- ===== src/Quic/Robustness.antt =====
-- include/boltapi/quic/robustness.h: version negotiation, Retry packets and their tokens, and the
-- anti-amplification limit. A connection id is the list of its bytes; what a builder writes to
-- `out` is the list that it returns, empty where the code returns 0.
pub mod Tokens
pub mod Negotiation
pub mod Amplification
use bolt_api.Prelude.{
  ℕ, zero, suc, ◌+◌, ◌-◌, ◌*◌, ◌/◌, ◌%◌, ◌^◌, ◌≡◌, ◌↔◌, Bool, true, false, not, ◌&&◌, ◌||◌, ltb,
  leb, ◌==◌, if◌then◌else◌, Option, none, some, List, [], ◌∷◌, ◌++◌, length, take, drop, bit_and,
  bit_or,
}
use bolt_api.Prelude.Bytes.{at}

abbrev pub retry_integrity_tag_len : ℕ
retry_integrity_tag_len = 16

abbrev pub max_retry_token : ℕ
max_retry_token = 256

abbrev pub retry_token_mac_len : ℕ
retry_token_mac_len = 16

abbrev pub max_retry_packet_len : ℕ
max_retry_packet_len = 512

abbrev pub max_connection_id_len : ℕ
max_connection_id_len = 20

abbrev pub quic_version_1 : ℕ
quic_version_1 = 1

-- The calls of the cryptographic library: HMAC-SHA256 under the validator's secret, the AES-GCM tag
-- over additional data under the fixed Retry key, both with `none` for a failure, and
-- `CRYPTO_memcmp(a, b, n) == 0`.
pub record Crypto : Type 0 where
  pub hmac : List ℕ → Option (List ℕ)
  pub gcm_tag : List ℕ → Option (List ℕ)
  pub equal : List ℕ → List ℕ → Bool

-- What the code relies on: the calls succeed, a tag has 16 bytes and a MAC 32, and the comparison
-- is equality.
pub record IsCrypto (c : Crypto) : Type 0 where
  pub hmac_lem : (bytes : List ℕ) → (mac : List ℕ) × (c.hmac bytes ≡ some mac) × (length mac ≡ 32)
  pub gcm_tag_lem :
      (bytes : List ℕ) → (tag : List ℕ) × (c.gcm_tag bytes ≡ some tag) × (length tag ≡ 16)
  pub equal_lem : (xs ys : List ℕ) → (c.equal xs ys ≡ true) ↔ (xs ≡ ys)

-- The four bytes of a version.
abbrev pub version_bytes : ℕ → List ℕ
version_bytes v =
    bit_and (v / 2 ^ 24) 0xFF
    ∷ bit_and (v / 2 ^ 16) 0xFF
    ∷ bit_and (v / 2 ^ 8) 0xFF
    ∷ bit_and v 0xFF
    ∷ []

-- The loop over the versions.
abbrev pub write_versions : List ℕ → List ℕ
write_versions [] = []
write_versions (v ∷ versions) = version_bytes v ++ write_versions versions

unfoldable pub build_version_negotiation : List ℕ → List ℕ → List ℕ → ℕ → List ℕ
build_version_negotiation client_dcid client_scid versions cap =
    let need = 1 + 4 + 1 + length client_scid + 1 + length client_dcid + 4 * length versions in
    if ltb cap need
    then []
    else bit_or 0x80 0x40
      ∷ 0
      ∷ 0
      ∷ 0
      ∷ 0
      ∷ length client_scid
      ∷ (client_scid ++ (length client_dcid ∷ (client_dcid ++ write_versions versions)))

abbrev pub read_version : List ℕ → ℕ
read_version bytes =
    bit_or (bit_or (bit_or (at bytes 0 * 2 ^ 24) (at bytes 1 * 2 ^ 16)) (at bytes 2 * 2 ^ 8))
      (at bytes 3)

-- The loop of the parser, with `n` versions left.
abbrev pub read_versions : ℕ → List ℕ → List ℕ
read_versions zero bytes = []
read_versions (suc n) bytes = read_version bytes ∷ read_versions n (drop 4 bytes)

unfoldable pub parse_version_negotiation_versions : List ℕ → ℕ → ℕ → List ℕ
parse_version_negotiation_versions bytes body_off cap_versions =
    let avail = length bytes - body_off in
    if ltb (length bytes) body_off
    then []
    else if ltb avail 4 || not (avail % 4 == 0)
    then []
    else read_versions (if ltb cap_versions (avail / 4) then cap_versions else avail / 4)
        (drop body_off bytes)

abbrev pub is_supported_version : ℕ → Bool
is_supported_version v = v == quic_version_1

unfoldable pub retry_integrity_tag : Crypto → List ℕ → List ℕ → Option (List ℕ)
retry_integrity_tag c odcid retry_wo_tag =
    if ltb max_retry_packet_len (length retry_wo_tag)
    then none
    else c.gcm_tag (length odcid ∷ (odcid ++ retry_wo_tag))

-- The Retry packet without its tag.
abbrev pub retry_front : List ℕ → List ℕ → List ℕ → List ℕ
retry_front client_scid server_scid token =
    bit_or 0xC0 (3 * 2 ^ 4)
    ∷ (version_bytes quic_version_1
        ++ (length client_scid ∷ (client_scid ++ (length server_scid ∷ (server_scid ++ token)))))

-- `build_retry` behind its call of `retry_integrity_tag`.
abbrev pub append_tag : List ℕ → Option (List ℕ) → List ℕ
append_tag front none = []
append_tag front (some tag) = front ++ tag

unfoldable pub build_retry : Crypto → List ℕ → List ℕ → List ℕ → List ℕ → ℕ → List ℕ
unfolding retry_integrity_tag
build_retry c odcid client_scid server_scid token cap =
    let need =
      1
      + 4
      + 1
      + length client_scid
      + 1
      + length server_scid
      + length token
      + retry_integrity_tag_len in
    let front = retry_front client_scid server_scid token in
    if ltb cap need || ltb max_retry_packet_len need
    then []
    else append_tag front (retry_integrity_tag c odcid front)

-- The comparison with a value that may be missing.
abbrev pub matches : Crypto → Option (List ℕ) → List ℕ → Bool
matches c none bytes = false
matches c (some tag) bytes = c.equal tag bytes

unfoldable pub verify_retry_integrity : Crypto → List ℕ → List ℕ → Bool
unfolding retry_integrity_tag
verify_retry_integrity c odcid retry =
    let body = length retry - retry_integrity_tag_len in
    if ltb (length retry) (retry_integrity_tag_len + 1)
    then false
    else matches c (retry_integrity_tag c odcid (take body retry)) (drop body retry)

-- `compute_mac` behind the call of HMAC.
abbrev pub cut_mac : Option (List ℕ) → Option (List ℕ)
cut_mac none = none
cut_mac (some full) =
    if ltb (length full) retry_token_mac_len then none else some (take retry_token_mac_len full)

unfoldable pub compute_mac : Crypto → List ℕ → Option (List ℕ)
compute_mac c odcid = cut_mac (c.hmac odcid)

-- `mint_token` behind its call of `compute_mac`.
abbrev pub join_mac : List ℕ → Option (List ℕ) → List ℕ
join_mac odcid none = []
join_mac odcid (some mac) = mac ++ odcid

unfoldable pub mint_token : Crypto → List ℕ → ℕ → List ℕ
unfolding compute_mac
mint_token c odcid cap =
    let need = retry_token_mac_len + length odcid in
    if ltb cap need || ltb max_retry_token need then [] else join_mac odcid (compute_mac c odcid)

-- `some` has the recovered connection id.
unfoldable pub verify_token : Crypto → List ℕ → Option (List ℕ)
unfolding compute_mac
verify_token c token =
    let odcid = drop retry_token_mac_len token in
    if ltb (length token) retry_token_mac_len
    then none
    else if ltb max_connection_id_len (length token - retry_token_mac_len)
    then none
    else if matches c (compute_mac c odcid) (take retry_token_mac_len token)
    then some odcid
    else none

abbrev pub min_stateless_reset_len : ℕ
min_stateless_reset_len = 21

-- `random` is what RAND_bytes leaves in the first bytes, as many as are asked for.
abbrev pub shape : List ℕ → List ℕ
shape [] = []
shape (b ∷ bytes) = bit_or (bit_and b 0x3F) 0x40 ∷ bytes

unfoldable pub build_stateless_reset : (ℕ → List ℕ) → List ℕ → ℕ → ℕ → List ℕ
build_stateless_reset random token pad_len cap =
    let pad = if ltb pad_len 5 then 5 else pad_len in
    let total = pad + 16 in
    if ltb cap total || ltb total min_stateless_reset_len then [] else shape (random pad) ++ token

unfoldable pub is_stateless_reset : Crypto → List ℕ → List ℕ → Bool
is_stateless_reset c dgram expected_token =
    if ltb (length dgram) min_stateless_reset_len
    then false
    else c.equal (drop (length dgram - 16) dgram) expected_token

pub record AntiAmplification : Type 0 where
  pub received : ℕ
  pub sent : ℕ
  pub validated : Bool

abbrev pub unvalidated : AntiAmplification
unvalidated = record { received = 0; sent = 0; validated = false }

unfoldable pub on_received : ℕ → AntiAmplification → AntiAmplification
on_received n a = record a { received = (a.received + n) % 2 ^ 64 }

unfoldable pub on_sent : ℕ → AntiAmplification → AntiAmplification
on_sent n a = record a { sent = (a.sent + n) % 2 ^ 64 }

unfoldable pub validate : AntiAmplification → AntiAmplification
validate a = record a { validated = true }

unfoldable pub budget : AntiAmplification → ℕ
budget a =
    let cap = a.received * 3 % 2 ^ 64 in
    if a.validated then 2 ^ 64 - 1 else if leb cap a.sent then 0 else cap - a.sent

unfoldable pub can_send : ℕ → AntiAmplification → Bool
unfolding budget
can_send n a = a.validated || leb n (budget a)
