-- ===== src/Http2/Integer/IntegerRoundTrip.antt =====
-- The integers of HPACK (src/http/hpack.cpp), encoded and decoded.
use bolt_api.Prelude.{
  ℕ, zero, suc, ◌+◌, ◌-◌, ◌*◌, ◌/◌, ◌%◌, ◌^◌, ◌≤◌, ◌<◌, ◌≡◌, refl, ap, ap₂, ◌∙◌, true, false, ltb,
  ltb→lt, leb, ◌==◌, Bool-cases, inl, inr, some, List, [], ◌∷◌, ◌++◌, length, bit_and, bit_or,
  arith,
}
use bolt_api.Prelude.Bits.{bit_and_mask, bit_and_high, bit_or_disjoint, bit_or_comm, low_field}
use native.Mathlib.Nat.{one-le-pow}
use native.Mathlib.Numerals.{towards_suc}
use native.Mathlib.Decide.{dec_lt}
use bolt_api.Http2.Integer.{
  bad_prefix, decode_continuation, decode_integer, encode_continuation, encode_integer,
}

-- A byte that more bytes follow.
more_byte : (w : ℕ) → bit_or (bit_and w 0x7F) 0x80 ≡ 128 + w % 128
more_byte w =
    let low : bit_and w 0x7F ≡ w % 128 = bit_and_mask 7 w in
    ap (λ t. bit_or t 0x80) low
    ∙ bit_or_comm (w % 128) 0x80
    ∙ bit_or_disjoint 7 1 (w % 128) (omega arith)

more_low : (r : ℕ) → r < 128 → bit_and (128 + r) 0x7F ≡ r
more_low r h = omega (arith, bit_and_mask 7 (128 + r))

more_high : (r : ℕ) → r < 128 → bit_and (128 + r) 0x80 ≡ 128
more_high r h =
    bit_and_high 7 1 (128 + r)
    ∙ ap (λ t. bit_and t 1 * 2 ^ 7) (let e : (128 + r) / 2 ^ 7 ≡ 1 = omega arith in e)

last_high : (w : ℕ) → w < 128 → bit_and w 0x80 ≡ 0
last_high w h =
    bit_and_high 7 1 w ∙ ap (λ t. bit_and t 1 * 2 ^ 7) (let e : w / 2 ^ 7 ≡ 0 = omega arith in e)

plus_7 : (t : ℕ) → 2 ^ (t + 7) ≡ 2 ^ t * 128
plus_7 t = simp towards_suc (omega arith)

power_7 : (k : ℕ) → 2 ^ (7 * suc k) ≡ 128 * 2 ^ (7 * k)
power_7 k =
    ap (λ t. 2 ^ t) (let e : 7 * suc k ≡ 7 * k + 7 = omega arith in e)
    ∙ plus_7 (7 * k)
    ∙ swap (2 ^ (7 * k))
  where
    swap : (t : ℕ) → t * 128 ≡ 128 * t
    swap t = omega arith

-- The value of a byte and of the bytes behind it.
digits_7 : (w k : ℕ) → w % 128 * 2 ^ (7 * k) + w / 128 * 2 ^ (7 * (k + 1)) ≡ w * 2 ^ (7 * k)
digits_7 w k =
    let p : ℕ = 2 ^ (7 * k) in
    let next : 2 ^ (7 * (k + 1)) ≡ 128 * p =
      ap (λ t. 2 ^ (7 * t)) (let e : k + 1 ≡ suc k = omega arith in e) ∙ power_7 k in
    ap (λ t. w % 128 * p + w / 128 * t) next
    ∙ collect (w % 128) (w / 128) p
    ∙ ap (λ t. t * p) (omega arith)
  where
    collect : (r q p : ℕ) → r * p + q * (128 * p) ≡ (q * 128 + r) * p
    collect r q p = omega arith

-- What the loops do with `w`, the decoder with `n` rounds and `acc` so far.
abbrev Loops : ℕ → ℕ → ℕ → ℕ → ℕ → ℕ → ℕ → List ℕ → Type 0
Loops n m k pos capacity acc w rest =
    (bytes : List ℕ) × (encode_continuation m pos capacity w ≡ some bytes)
    × (decode_continuation n k acc (bytes ++ rest)
        ≡ some (acc + w * 2 ^ (7 * k), k + 1 + length bytes))

last_round :
    (n m k pos capacity acc w : ℕ) (rest : List ℕ)
    → w < 128
    → pos < capacity
    → acc + w * 2 ^ (7 * k) < 2 ^ 64
    → Loops (suc n) (suc m) k pos capacity acc w rest
unfolding encode_continuation decode_continuation
last_round n m k pos capacity acc w rest low room fits =
    let space : leb capacity pos ≡ false = ground (arith, room) in
    let last : leb 128 w ≡ false = ground (arith, low) in
    let low_bits : bit_and w 0x7F ≡ w = omega (arith, bit_and_mask 7 w) in
    let whole : (acc + w * 2 ^ (7 * k)) % 2 ^ 64 ≡ acc + w * 2 ^ (7 * k) = omega (arith, fits) in
    let count : k + 2 ≡ k + 1 + 1 = omega arith in
    (w ∷ [], rw (space, last) refl, rw (low_bits, last_high w low, whole, count) refl)

more_round :
    (n m k pos capacity acc w : ℕ) (rest : List ℕ)
    → 128 ≤ w
    → pos < capacity
    → acc + w * 2 ^ (7 * k) < 2 ^ 64
    → Loops n m (k + 1) (pos + 1) capacity (acc + w % 128 * 2 ^ (7 * k)) (w / 128) rest
    → Loops (suc n) (suc m) k pos capacity acc w rest
unfolding encode_continuation decode_continuation
more_round n m k pos capacity acc w rest high room fits (bytes, written, read) =
    let space : leb capacity pos ≡ false = ground (arith, room) in
    let more : leb 128 w ≡ true = ground (arith, high) in
    let r : ℕ = w % 128 in
    let p : ℕ = 2 ^ (7 * k) in
    let small : r < 128 = omega arith in
    let part : acc + r * p + w / 128 * 2 ^ (7 * (k + 1)) ≡ acc + w * p =
      omega (arith, digits_7 w k) in
    let whole : (acc + r * p) % 2 ^ 64 ≡ acc + r * p = omega (arith, fits, part) in
    let count : k + 1 + 1 + length bytes ≡ k + 1 + suc (length bytes) = omega arith in
    (
      bit_or (bit_and w 0x7F) 0x80 ∷ bytes,
      rw (space, more, written) refl,
      rw (more_byte w, more_low r small, more_high r small, whole)
          (read ∙ ap₂ (λ u v. some (u, v)) part count),
    )

-- What the encoder's loop writes, the decoder's loop reads with one round for each byte.
loops_lem :
    (n m k pos capacity acc w : ℕ) (rest : List ℕ)
    → w < 2 ^ (7 * suc n)
    → n < m
    → pos + n < capacity
    → acc + w * 2 ^ (7 * k) < 2 ^ 64
    → Loops (suc n) m k pos capacity acc w rest
loops_lem n zero k pos capacity acc w rest small rounds room fits = absurd (omega (arith, rounds))
loops_lem zero (suc m) k pos capacity acc w rest small rounds room fits =
    last_round zero m k pos capacity acc w rest small (omega arith) fits
loops_lem (suc n) (suc m) k pos capacity acc w rest small rounds room fits = elim (dec_lt w 128) [
  | yes low ↦ last_round (suc n) m k pos capacity acc w rest low (omega arith) fits
  | no high ↦ more_round (suc n) m k pos capacity acc w rest (omega arith) (omega arith) fits (
      loops_lem n m (k + 1) (pos + 1) capacity (acc + w % 128 * 2 ^ (7 * k)) (w / 128) rest
        (omega (arith, small, power_7 (suc n))) (omega arith) (omega arith)
        (omega (arith, fits, digits_7 w k)))
]

-- The bits that the caller set are above the prefix.
flags_lem :
    (p first : ℕ) → 1 ≤ p → p ≤ 8 → (q : ℕ) × (bit_and first (0xFF - (2 ^ p - 1)) ≡ q * 2 ^ p)
flags_lem zero first h l = absurd (omega (arith, h))
flags_lem (suc zero) first h l = (bit_and (first / 2 ^ 1) 127, bit_and_high 1 127 first)
flags_lem (suc (suc zero)) first h l = (bit_and (first / 2 ^ 2) 63, bit_and_high 2 63 first)
flags_lem (suc (suc (suc zero))) first h l = (bit_and (first / 2 ^ 3) 31, bit_and_high 3 31 first)
flags_lem (suc (suc (suc (suc zero)))) first h l =
    (bit_and (first / 2 ^ 4) 15, bit_and_high 4 15 first)
flags_lem (suc (suc (suc (suc (suc zero))))) first h l =
    (bit_and (first / 2 ^ 5) 7, bit_and_high 5 7 first)
flags_lem (suc (suc (suc (suc (suc (suc zero)))))) first h l =
    (bit_and (first / 2 ^ 6) 3, bit_and_high 6 3 first)
flags_lem (suc (suc (suc (suc (suc (suc (suc zero))))))) first h l =
    (bit_and (first / 2 ^ 7) 1, bit_and_high 7 1 first)
flags_lem (suc (suc (suc (suc (suc (suc (suc (suc zero)))))))) first h l =
    (bit_and (first / 2 ^ 8) 0, bit_and_high 8 0 first)
flags_lem (suc (suc (suc (suc (suc (suc (suc (suc (suc p))))))))) first h l =
    absurd (omega (arith, l))

-- The prefix of the first byte.
prefix_lem :
    (p first v : ℕ)
    → 1 ≤ p
    → p ≤ 8
    → v < 2 ^ p
    → bit_and (bit_or (bit_and first (0xFF - (2 ^ p - 1))) v) (2 ^ p - 1) ≡ v
prefix_lem p first v h l small =
    let (q, e) = flags_lem p first h l in
    ap (λ t. bit_and (bit_or t v) (2 ^ p - 1)) e
    ∙ ap (λ t. bit_and t (2 ^ p - 1)) (bit_or_disjoint p q v small)
    ∙ low_field p q v small

-- An integer is decoded as it was encoded, with any prefix of 1 to 8 bits, whatever the caller set
-- in front of the prefix and whatever follows, and all its bytes are consumed: any value below
-- 2^35, in a buffer of six bytes or more.
pub decode_integer-encode_integer :
    (value prefix_bits first capacity : ℕ) (rest : List ℕ)
    → value < 2 ^ 35
    → 1 ≤ prefix_bits
    → prefix_bits ≤ 8
    → 6 ≤ capacity
    → (bytes : List ℕ) × (encode_integer value prefix_bits first capacity ≡ some bytes)
      × (decode_integer (bytes ++ rest) prefix_bits ≡ some (value, length bytes))
unfolding encode_integer decode_integer loops_lem
decode_integer-encode_integer value p first capacity rest small h l room =
    let mask : ℕ = 2 ^ p - 1 in
    let some_room : (capacity == 0) ≡ false = ground (arith, room) in
    let legal : bad_prefix p ≡ false = ground (arith, h, l) in
    let positive : 1 ≤ 2 ^ p = one-le-pow p 2 (omega arith) in
    let flags : ℕ = bit_and first (0xFF - mask) in
    elim (Bool-cases (ltb value mask)) [
      | inl short ↦
          let prefix : bit_and (bit_or flags value) mask ≡ value =
            prefix_lem p first value h l (omega (arith, ltb→lt value mask short)) in
          (
            bit_or flags value ∷ [],
            rw (some_room, legal, short) refl,
            rw (legal, prefix, short) refl,
          )
      | inr long ↦
          let prefix : bit_and (bit_or flags mask) mask ≡ mask =
            prefix_lem p first mask h l (omega (arith, positive)) in
          let full : ltb mask mask ≡ false = ground arith in
          let above : mask ≤ value = ground (arith, long) in
          let (bytes, written, read) =
            loops_lem 4 10 0 1 capacity mask (value - mask) rest (omega (arith, small))
              (omega arith) (omega arith) (omega (arith, small, above)) in
          let total : mask + (value - mask) * 2 ^ (7 * 0) ≡ value = omega (arith, above) in
          (
            bit_or flags mask ∷ bytes,
            rw (some_room, legal, long, written) refl,
            rw (legal, prefix, full) (read ∙ ap₂ (λ u v. some (u, v)) total (omega arith)),
          )
    ]
