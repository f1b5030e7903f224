-- ===== src/Quic/Varint/Decode.antt =====
-- The decoder of the variable-length integers on any input, well formed or not.
use bolt_api.Prelude.{
  ℕ, zero, suc, ◌+◌, ◌*◌, ◌-◌, ◌/◌, ◌%◌, ◌^◌, ◌≤◌, ◌<◌, ◌≡◌, ◌⊎◌, refl, ap, bit_and, List, [], ◌∷◌,
  ◌++◌, none, some, ltb, length, All, if◌then◌else◌, arith, length-append, Option-cases, append-nil,
  inl, inr,
}
use bolt_api.Prelude.Bits.{bit_and_mask}
use bolt_api.Prelude.Bytes.{IsByte}
use bolt_api.Quic.Varint.{
  var_int_max, varint_encode, varint_encoded_size, encode_rest, decode_rest, varint_decode,
}
use bolt_api.Quic.Varint.RoundTrip.{push_byte, varint_decode-varint_encode}
use native.Mathlib.Nat.{pow-suc, one-le-pow}

-- Each round multiplies the bound on the value by 256.
decode_rest-lt :
    (n v bound : ℕ) (bytes : List ℕ)
    → All IsByte bytes
    → bound * 256 ^ n ≤ 2 ^ 62
    → v < bound
    → decode_rest n v bytes < bound * 256 ^ n
unfolding decode_rest
decode_rest-lt zero v bound bytes h m l = omega arith
decode_rest-lt (suc n) v bound [] h m l = grind (arith, one-le-pow (suc n) 256 (omega arith))
decode_rest-lt (suc n) v bound (b ∷ bytes) (hb, h) m l =
    let more : bound * 256 ^ suc n ≡ bound * 256 * 256 ^ n =
      omega (arith, ap (λ (t : ℕ). bound * t) (pow-suc 256 n)) in
    let one : bound * 256 ≤ bound * 256 * 256 ^ n = grind (arith, one-le-pow n 256 (omega arith)) in
    rw (more, push_byte v b (omega arith) hb)
      (decode_rest-lt n (v * 256 + b) (bound * 256) bytes h (omega arith) (omega arith))

record Bounds (bytes : List ℕ) (n v : ℕ) : Type 0 where
  some_byte : 1 ≤ n
  in_input : n ≤ length bytes
  eight : n ≤ 8
  value : v ≤ var_int_max

-- A success takes a length that two bits can say.
prefix-cases :
    (b : ℕ)
    → b < 256
    → (2 ^ (b / 2 ^ 6 % 256) ≡ 1)
      ⊎ ((2 ^ (b / 2 ^ 6 % 256) ≡ 2) ⊎ ((2 ^ (b / 2 ^ 6 % 256) ≡ 4) ⊎ (2 ^ (b / 2 ^ 6 % 256) ≡ 8)))
prefix-cases b h = go (b / 2 ^ 6 % 256) (omega arith)
  where
    go : (p : ℕ) → p < 4 → (2 ^ p ≡ 1) ⊎ ((2 ^ p ≡ 2) ⊎ ((2 ^ p ≡ 4) ⊎ (2 ^ p ≡ 8)))
    go zero h = inl refl
    go (suc zero) h = inr (inl refl)
    go (suc (suc zero)) h = inr (inr (inl refl))
    go (suc (suc (suc zero))) h = inr (inr (inr refl))
    go (suc (suc (suc (suc p)))) h = absurd (omega arith)

module _ (b : ℕ) (rest : List ℕ) (hb : b < 256) (hr : All IsByte rest) where
  -- The value after `m` further bytes.
  after-le : (m : ℕ) → 64 * 256 ^ m ≤ 2 ^ 62 → decode_rest m (bit_and b 0x3F) rest ≤ var_int_max
  after-le m h =
      omega
        (arith, decode_rest-lt m (bit_and b 0x3F) 64 rest hr h (omega (arith, bit_and_mask 6 b)))

  prefix-Bounds :
      (m n v : ℕ)
      → m ≤ 7
      → 64 * 256 ^ m ≤ 2 ^ 62
      → 2 ^ (b / 2 ^ 6 % 256) ≡ suc m
      → varint_decode (b ∷ rest) ≡ some (n, v)
      → Bounds (b ∷ rest) n v
  unfolding varint_decode
  prefix-Bounds m n v seven h e d =
      let one_less : suc m - 1 ≡ m = omega arith in
      let shown : (if ltb (suc (length rest)) (suc m)
            then none
            else some (suc m, decode_rest m (bit_and b 0x3F) rest))
          ≡ some (n, v) =
        rw (e, one_less) at d in
      ground (arith, after-le m h, shown)

-- Whatever bytes come in, a success takes 1 to 8 of them, no more than there are, and its value
-- is at most 2^62 - 1.
pub varint_decode_bounds :
    (bytes : List ℕ) (n v : ℕ)
    → All IsByte bytes
    → varint_decode bytes ≡ some (n, v)
    → (1 ≤ n) × (n ≤ length bytes) × (n ≤ 8) × (v ≤ var_int_max)
varint_decode_bounds [] n v h e = unfold varint_decode in cc
varint_decode_bounds (b ∷ rest) n v (hb, hr) e =
    let r : Bounds (b ∷ rest) n v = elim (prefix-cases b hb) [
      | inl c ↦ prefix-Bounds b rest hb hr 0 n v (omega arith) (omega arith) c e
      | inr (inl c) ↦ prefix-Bounds b rest hb hr 1 n v (omega arith) (omega arith) c e
      | inr (inr (inl c)) ↦ prefix-Bounds b rest hb hr 3 n v (omega arith) (omega arith) c e
      | inr (inr (inr c)) ↦ prefix-Bounds b rest hb hr 7 n v (omega arith) (omega arith) c e
    ] in
    (r.some_byte, r.in_input, r.eight, r.value)

decode_rest-append :
    (n v : ℕ) (bytes more : List ℕ)
    → n ≤ length bytes
    → decode_rest n v (bytes ++ more) ≡ decode_rest n v bytes
unfolding decode_rest
decode_rest-append zero v bytes more h = refl
decode_rest-append (suc n) v [] more h = absurd (omega arith)
decode_rest-append (suc n) v (b ∷ bytes) more h = decode_rest-append n _ bytes more (omega arith)

-- A number that was read stays as it is when more input comes.
pub varint_decode-append :
    (bytes more : List ℕ) (r : ℕ × ℕ)
    → varint_decode bytes ≡ some r
    → varint_decode (bytes ++ more) ≡ some r
unfolding varint_decode
varint_decode-append [] more r e = cc
varint_decode-append (b ∷ rest) more r e = ground (
  arith,
  length-append rest more,
  decode_rest-append (2 ^ (b / 2 ^ 6 % 256) - 1) (bit_and b 0x3F) rest more,
)

pub length-varint_encode :
    (v : ℕ) → v ≤ var_int_max → length (varint_encode v) ≡ varint_encoded_size v
unfolding varint_encode varint_encoded_size encode_rest
length-varint_encode v h = ground arith

-- Every proper prefix of an encoded value asks for more bytes: a reader never takes a truncated
-- number for a whole one.
pub varint_decode_truncated :
    (v x : ℕ) (front back : List ℕ)
    → v ≤ var_int_max
    → varint_encode v ≡ front ++ (x ∷ back)
    → All IsByte front
    → varint_decode front ≡ none
varint_decode_truncated v x front back h e bytes = elim (Option-cases (varint_decode front)) [
  | inl missing ↦ missing
  | inr ((n, w), found) ↦
      let whole : varint_decode (front ++ (x ∷ back)) ≡ some (varint_encoded_size v, v) =
        rw (append-nil, e) at (varint_decode-varint_encode v [] h) in
      let size : n ≡ varint_encoded_size v =
        cc (whole, varint_decode-append front (x ∷ back) (n, w) found) in
      absurd (
        omega (
          arith,
          (varint_decode_bounds front n w bytes found).1,
          size,
          length-varint_encode v h,
          ap length e,
          length-append front (x ∷ back),
        ))
]
