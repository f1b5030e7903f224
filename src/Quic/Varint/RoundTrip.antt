-- ===== src/Quic/Varint/RoundTrip.antt =====
-- Encoding and decoding of the variable-length integers, against each other.
use bolt_api.Prelude.{
  ℕ, zero, suc, ◌+◌, ◌*◌, ◌-◌, ◌/◌, ◌%◌, ◌^◌, ◌≤◌, ◌<◌, ◌≡◌, refl, ap, ◌∙◌, bit_and, bit_or, List,
  [], ap₂, sym, Bool-cases, inl, inr, false, length-append, ◌∷◌, ◌++◌, some, ltb, leb, length,
  arith,
}
use bolt_api.Prelude.Bits.{bit_and_mask, bit_or_disjoint}
use bolt_api.Quic.Varint.{
  var_int_max, varint_encoded_size, encode_rest, varint_encode, decode_rest, varint_decode,
}
use native.Mathlib.Nat.{div-div-eq-div-mul, div-le_self}
use native.Mathlib.Numerals.{towards_suc}

low_byte : (v : ℕ) → bit_and v 0xFF % 256 ≡ v % 256
low_byte v = omega (arith, bit_and_mask 8 v)

-- One round of the decoding loop.
pub push_byte : (v b : ℕ) → v < 2 ^ 56 → b < 256 → bit_or (v * 256 % 2 ^ 64) b ≡ v * 256 + b
push_byte v b h k =
    let e : v * 256 % 2 ^ 64 ≡ v * 2 ^ 8 = omega arith in rw e (bit_or_disjoint 8 v b (omega arith))

pub pow_plus_8 : (s : ℕ) → 2 ^ (s + 8) ≡ 2 ^ s * 256
pow_plus_8 s = simp towards_suc (omega arith)

pub shift_byte : (w n : ℕ) → w / 2 ^ (8 * suc n) ≡ w / 2 ^ (8 * n) / 256
shift_byte w n =
    ap (λ t. w / 2 ^ t) (omega arith)
    ∙ ap (λ t. w / t) (pow_plus_8 (8 * n))
    ∙ sym (div-div-eq-div-mul w (2 ^ (8 * n)) 256)

-- The loop of the decoder reads back what the loop of the encoder wrote.
decode_rest-encode_rest :
    (n w : ℕ) (rest : List ℕ)
    → w < 2 ^ 62
    → decode_rest n (w / 2 ^ (8 * n)) (encode_rest n w ++ rest) ≡ w
unfolding decode_rest encode_rest
decode_rest-encode_rest zero w rest h = omega arith
decode_rest-encode_rest (suc n) w rest h =
    let x : ℕ = w / 2 ^ (8 * n) in
    let small : x ≤ w = div-le_self w (2 ^ (8 * n)) in
    ap (λ t. decode_rest n t (encode_rest n w ++ rest))
      (ap₂ (λ u v. bit_or (u * 256 % 2 ^ 64) v) (shift_byte w n) (low_byte x)
        ∙ push_byte (x / 256) (x % 256) (omega arith) (omega arith)
        ∙ omega arith)
    ∙ decode_rest-encode_rest n w rest h

pub length-encode_rest : (n w : ℕ) → length (encode_rest n w) ≡ n
unfolding encode_rest
length-encode_rest zero w = refl
length-encode_rest (suc n) w = ap suc (length-encode_rest n w)

-- Two bits that say how many bytes follow, and the value behind them.
form : ℕ → ℕ → ℕ → List ℕ
form p n w = bit_or (p * 2 ^ 6) (w / 2 ^ (8 * n)) % 256 ∷ encode_rest n w

record Form (w p n : ℕ) : Type 0 where
  prefix : p < 4
  count : 2 ^ p ≡ suc n
  top : w / 2 ^ (8 * n) < 64
  written : varint_encode w ≡ form p n w
  size : varint_encoded_size w ≡ suc n

encode-Form : (w : ℕ) → w ≤ var_int_max → (p : ℕ) × (n : ℕ) × Form w p n
unfolding varint_encode varint_encoded_size form
encode-Form w h =
    let same : w ≡ w / 1 = omega arith in
    elim (Bool-cases (leb w 63)) [
      | inl a ↦ (
        0,
        0,
        record {
          prefix = omega arith;
          count = refl;
          top = ground arith;
          written = rw a (ground (arith, bit_or_disjoint 6 0 w));
          size = rw a;
        },
      )
      | inr a ↦ elim (Bool-cases (leb w 16383)) [
        | inl b ↦ (
          1,
          1,
          record {
            prefix = omega arith;
            count = refl;
            top = ground arith;
            written =
                rw (a, b)
                  (ap (λ t. bit_or 0x40 (w / 2 ^ 8) % 256 ∷ bit_and t 0xFF % 256 ∷ []) same);
            size = rw (a, b);
          },
        )
        | inr b ↦ elim (Bool-cases (leb w 1073741823)) [
          | inl c ↦ (
            2,
            3,
            record {
              prefix = omega arith;
              count = refl;
              top = ground arith;
              written =
                  rw (a, b, c)
                    (ap
                      (λ t.
                        bit_or 0x80 (w / 2 ^ 24) % 256
                        ∷ bit_and (w / 2 ^ 16) 0xFF % 256
                        ∷ bit_and (w / 2 ^ 8) 0xFF % 256
                        ∷ bit_and t 0xFF % 256
                        ∷ [])
                      same);
              size = rw (a, b, c);
            },
          )
          | inr c ↦ (
            3,
            7,
            record {
              prefix = omega arith;
              count = refl;
              top = omega arith;
              written = rw (a, b, c);
              size = rw (a, b, c);
            },
          )
        ]
      ]
    ]

-- The first byte of a form holds the two bits and the top of the value.
first_byte :
    (p x : ℕ)
    → p < 4
    → x < 64
    → ((bit_or (p * 2 ^ 6) x % 256) / 2 ^ 6 % 256 ≡ p)
      × (bit_and (bit_or (p * 2 ^ 6) x % 256) 0x3F ≡ x)
first_byte p x hp hx =
    let sum : bit_or (p * 2 ^ 6) x ≡ p * 64 + x = bit_or_disjoint 6 p x hx in
    rw sum (omega arith, bit_and_mask 6 ((p * 64 + x) % 256) ∙ omega arith)

decode-form :
    (w p n : ℕ) (rest : List ℕ)
    → w ≤ var_int_max
    → Form w p n
    → varint_decode (form p n w ++ rest) ≡ some (suc n, w)
unfolding varint_decode form
decode-form w p n rest h f =
    let (two_bits, top_bits) = first_byte p (w / 2 ^ (8 * n)) f.prefix f.top in
    let one_less : suc n - 1 ≡ n = omega arith in
    let enough : ltb (suc (length (encode_rest n w ++ rest))) (suc n) ≡ false =
      ground (arith, length-append (encode_rest n w) rest, length-encode_rest n w) in
    rw (two_bits, f.count, enough, top_bits, one_less)
      (ap (λ t. some (suc n, t)) (decode_rest-encode_rest n w rest (omega arith)))

-- The decoder reads an encoded value back, with the length that `varint_encoded_size` says, and
-- looks at nothing behind it.
pub varint_decode-varint_encode :
    (v : ℕ) (rest : List ℕ)
    → v ≤ var_int_max
    → varint_decode (varint_encode v ++ rest) ≡ some (varint_encoded_size v, v)
varint_decode-varint_encode v rest h =
    let (p, n, f) = encode-Form v h in rw (f.written, f.size) (decode-form v p n rest h f)
