-- ===== src/Http2/Frame/Numbers.antt =====
-- The numbers in network byte order of src/http/http2_frame.cpp, written and read back.
use bolt_api.Prelude.{
  ℕ, ◌+◌, ◌*◌, ◌/◌, ◌%◌, ◌^◌, ◌<◌, ◌≡◌, sym, ap, ap₂, ◌∙◌, List, ◌++◌, bit_or, arith,
}
use bolt_api.Prelude.Bits.{bit_and_mask, bit_or_disjoint}
use bolt_api.Quic.Varint.RoundTrip.{pow_plus_8}
use native.Mathlib.Nat.{div-div-eq-div-mul, mul-le-mul_right, one-le-pow}
use bolt_api.Http2.Frame.{read_uint16, read_uint24, read_uint32, read_uint64}
use bolt_api.Http2.Frame.Write.{byte, write_uint16, write_uint24, write_uint32, write_uint64}

byte_lem : (n v : ℕ) → byte n v ≡ v / 2 ^ n % 256
byte_lem n v = bit_and_mask 8 (v / 2 ^ n)

-- The number without its `s` low bits, from the number without `s + 8` and the next byte.
next_byte :
    (s v : ℕ) → bit_or (v / 2 ^ (s + 8) * 2 ^ (s + 8)) (byte s v * 2 ^ s) ≡ v / 2 ^ s * 2 ^ s
next_byte s v =
    let p : ℕ = 2 ^ s in
    let q : ℕ = v / p in
    let power : 2 ^ (s + 8) ≡ p * 256 = pow_plus_8 s in
    let upper : v / 2 ^ (s + 8) ≡ q / 256 =
      ap (λ t. v / t) power ∙ sym (div-div-eq-div-mul v p 256) in
    let small : q % 256 * p < 2 ^ (s + 8) = omega (
      arith,
      power,
      one-le-pow s 2 (omega arith),
      mul-le-mul_right {m = q % 256} {n = 255} p (omega arith),
    ) in
    ap₂ (λ t u. bit_or (t * 2 ^ (s + 8)) (u * p)) upper (byte_lem s v)
    ∙ bit_or_disjoint (s + 8) (q / 256) (q % 256 * p) small
    ∙ ap (λ t. q / 256 * t + q % 256 * p) power
    ∙ digits (q / 256) (q % 256) p
    ∙ ap (λ t. t * p) (omega arith)
  where
    digits : (a b p : ℕ) → a * (p * 256) + b * p ≡ (a * 256 + b) * p
    digits a b p = omega arith

last_byte : (v : ℕ) → bit_or (v / 2 ^ 8 * 2 ^ 8) (byte 0 v) ≡ v
last_byte v =
    rw byte_lem (bit_or_disjoint 8 (v / 2 ^ 8) (v / 2 ^ 0 % 256) (omega arith) ∙ omega arith)

module _ (v : ℕ) (rest : List ℕ) where
  pub read_uint16-write_uint16 : v < 2 ^ 16 → read_uint16 (write_uint16 v ++ rest) ≡ v
  unfolding read_uint16 write_uint16
  read_uint16-write_uint16 h =
      let top : byte 8 v ≡ v / 2 ^ 8 = omega (arith, byte_lem 8 v) in rw top (last_byte v)

  pub read_uint24-write_uint24 : v < 2 ^ 24 → read_uint24 (write_uint24 v ++ rest) ≡ v
  unfolding read_uint24 write_uint24
  read_uint24-write_uint24 h =
      let top : byte 16 v ≡ v / 2 ^ 16 = omega (arith, byte_lem 16 v) in
      rw (top, next_byte 8 v) (last_byte v)

  pub read_uint32-write_uint32 : v < 2 ^ 32 → read_uint32 (write_uint32 v ++ rest) ≡ v
  unfolding read_uint32 write_uint32
  read_uint32-write_uint32 h =
      let top : byte 24 v ≡ v / 2 ^ 24 = omega (arith, byte_lem 24 v) in
      rw (top, next_byte 16 v, next_byte 8 v) (last_byte v)

  pub read_uint64-write_uint64 : v < 2 ^ 64 → read_uint64 (write_uint64 v ++ rest) ≡ v
  unfolding read_uint64 write_uint64
  read_uint64-write_uint64 h =
      let top : byte 56 v ≡ v / 2 ^ 56 = omega (arith, byte_lem 56 v) in
      rw
        (
          top,
          next_byte 48 v,
          next_byte 40 v,
          next_byte 32 v,
          next_byte 24 v,
          next_byte 16 v,
          next_byte 8 v,
        )
        (last_byte v)
