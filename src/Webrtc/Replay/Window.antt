-- ===== src/Webrtc/Replay/Window.antt =====
-- The two words of the replay window of include/boltapi/webrtc/srtp.h as 128 bits.
use bolt_api.Prelude.{
  ℕ, ◌+◌, ◌-◌, ◌*◌, ◌/◌, ◌%◌, ◌^◌, ◌≤◌, ◌<◌, ◌≡◌, ◌≢◌, subst, refl, sym, ap, ap₂, ◌∙◌, Bool, true,
  false, ltb, leb, ◌==◌, if◌then◌else◌, bit_or, arith,
}
use Prim.Native.Nat.{max}
use native.Mathlib.Decide.{dec_lt}
use bolt_api.Prelude.Digits.{
  bit, bit-zero, bit-bit_or, bit-shift_low, bit-shift_high, bit-down, bit-above, bit-mod, power-lt,
  set-same, set-other, bit_or-lt,
}
use bolt_api.Webrtc.Replay.{shift_window, mark_window}

-- Bit `d` of the window.
abbrev pub window_bit : ℕ → ℕ × ℕ → ℕ
window_bit d w = if ltb d 64 then bit d (w.1) else bit (d - 64) (w.0)

-- 1 for true.
abbrev pub indicator : Bool → ℕ
indicator true = 1
indicator false = 0

in_low : (d hi lo : ℕ) → d < 64 → window_bit d (hi, lo) ≡ bit d lo
in_low d hi lo h = let low : ltb d 64 ≡ true = ground arith in rw low refl

in_high : (d hi lo : ℕ) → 64 ≤ d → window_bit d (hi, lo) ≡ bit (d - 64) hi
in_high d hi lo h = let high : ltb d 64 ≡ false = ground arith in rw high refl

-- The index of a bit, written another way.
at_bit : (w : ℕ) {i j : ℕ} → i ≡ j → bit i w ≡ bit j w
at_bit w e = ap (λ t. bit t w) e

module _ (shift hi lo : ℕ) where
  shift_far : 128 ≤ shift → shift_window shift hi lo ≡ (0, 0)
  unfolding shift_window
  shift_far h = let far : leb 128 shift ≡ true = ground arith in rw far refl

  shift_mid :
      64 ≤ shift → shift < 128 → shift_window shift hi lo ≡ (lo * 2 ^ (shift - 64) % 2 ^ 64, 0)
  unfolding shift_window
  shift_mid h k =
      let near : leb 128 shift ≡ false = ground arith in
      let mid : leb 64 shift ≡ true = ground arith in rw (near, mid) refl

  shift_near :
      0 < shift
      → shift < 64
      → shift_window shift hi lo
        ≡ (bit_or (hi * 2 ^ shift % 2 ^ 64) (lo / 2 ^ (64 - shift)), lo * 2 ^ shift % 2 ^ 64)
  unfolding shift_window
  shift_near h k =
      let near : leb 128 shift ≡ false = ground arith in
      let mid : leb 64 shift ≡ false = ground arith in
      let some_shift : (shift == 0) ≡ false = ground arith in rw (near, mid, some_shift) refl

pub bits_of_zero : (d : ℕ) → window_bit d (0, 0) ≡ 0
bits_of_zero d = elim (dec_lt d 64) [
  | yes low ↦ in_low d 0 0 low ∙ bit-zero d
  | no high ↦ in_high d 0 0 (omega arith) ∙ bit-zero (d - 64)
]

module _ (hi lo d shift : ℕ) (bound : d < 128) where
  -- A window that is moved up: the bits that come in below are 0.
  pub shift_low : d < shift → window_bit d (shift_window shift hi lo) ≡ 0
  shift_low below = elim (dec_lt shift 128) [
    | no far ↦ ap (window_bit d) (shift_far shift hi lo (omega arith)) ∙ bits_of_zero d
    | yes near ↦ elim (dec_lt shift 64) [
      | no mid ↦
          let word : ℕ = lo * 2 ^ (shift - 64) in
          ap (window_bit d) (shift_mid shift hi lo (omega arith) near) ∙ elim (dec_lt d 64) [
            | yes low ↦ in_low d (word % 2 ^ 64) 0 low ∙ bit-zero d
            | no high ↦
                in_high d (word % 2 ^ 64) 0 (omega arith)
                ∙ bit-mod 64 (d - 64) word (omega arith)
                ∙ bit-shift_low (shift - 64) (d - 64) lo (omega arith)
          ]
      | yes small ↦
          ap (window_bit d) (shift_near shift hi lo (omega arith) small)
          ∙ in_low d (bit_or (hi * 2 ^ shift % 2 ^ 64) (lo / 2 ^ (64 - shift)))
              (lo * 2 ^ shift % 2 ^ 64) (omega arith)
          ∙ bit-mod 64 d (lo * 2 ^ shift) (omega arith)
          ∙ bit-shift_low shift d lo below
    ]
  ]

  -- The upper word takes the bits that leave the lower one.
  carry :
      lo < 2 ^ 64
      → 0 < shift
      → shift < 64
      → shift ≤ d
      → 64 ≤ d
      → bit (d - 64) (bit_or (hi * 2 ^ shift % 2 ^ 64) (lo / 2 ^ (64 - shift)))
        ≡ window_bit (d - shift) (hi, lo)
  carry word positive small above high =
      let e : ℕ = d - 64 in
      let from_low : bit e (lo / 2 ^ (64 - shift)) ≡ bit (e + (64 - shift)) lo =
        bit-down (64 - shift) e lo in
      let from_high : bit e (hi * 2 ^ shift % 2 ^ 64) ≡ bit e (hi * 2 ^ shift) =
        bit-mod 64 e (hi * 2 ^ shift) (omega arith) in
      bit-bit_or e (hi * 2 ^ shift % 2 ^ 64) (lo / 2 ^ (64 - shift))
      ∙ ap₂ max from_high from_low
      ∙ elim (dec_lt e shift) [
        | yes inside ↦
            ap₂ max (bit-shift_low shift e hi inside)
              (at_bit lo (let i : e + (64 - shift) ≡ d - shift = omega arith in i))
            ∙ (let m : max 0 (bit (d - shift) lo) ≡ bit (d - shift) lo = omega arith in m)
            ∙ sym (in_low (d - shift) hi lo (omega arith))
        | no outside ↦
            ap₂ max (bit-shift_high shift e hi (omega arith))
              (bit-above 64 (e + (64 - shift)) lo word (omega arith))
            ∙ (let m : max (bit (e - shift) hi) 0 ≡ bit (e - shift) hi = omega arith in m)
            ∙ at_bit hi (let i : e - shift ≡ d - shift - 64 = omega arith in i)
            ∙ sym (in_high (d - shift) hi lo (omega arith))
      ]

  pub shift_high :
      lo < 2 ^ 64
      → 0 < shift
      → shift ≤ d
      → window_bit d (shift_window shift hi lo) ≡ window_bit (d - shift) (hi, lo)
  shift_high word positive above = elim (dec_lt shift 64) [
    | no mid ↦
        ap (window_bit d) (shift_mid shift hi lo (omega arith) (omega arith))
        ∙ in_high d (lo * 2 ^ (shift - 64) % 2 ^ 64) 0 (omega arith)
        ∙ bit-mod 64 (d - 64) (lo * 2 ^ (shift - 64)) (omega arith)
        ∙ bit-shift_high (shift - 64) (d - 64) lo (omega arith)
        ∙ at_bit lo (let i : d - 64 - (shift - 64) ≡ d - shift = omega arith in i)
        ∙ sym (in_low (d - shift) hi lo (omega arith))
    | yes small ↦
        let upper : ℕ = bit_or (hi * 2 ^ shift % 2 ^ 64) (lo / 2 ^ (64 - shift)) in
        let lower : ℕ = lo * 2 ^ shift % 2 ^ 64 in
        ap (window_bit d) (shift_near shift hi lo positive small) ∙ elim (dec_lt d 64) [
          | yes low ↦
              in_low d upper lower low
              ∙ bit-mod 64 d (lo * 2 ^ shift) low
              ∙ bit-shift_high shift d lo above
              ∙ sym (in_low (d - shift) hi lo (omega arith))
          | no high ↦
              in_high d upper lower (omega arith) ∙ carry word positive small above (omega arith)
        ]
  ]

-- The lowest bit is set.
pub window_bit-first : (hi lo : ℕ) → window_bit 0 (hi, bit_or lo 1) ≡ 1
window_bit-first hi lo = in_low 0 hi (bit_or lo 1) (omega arith) ∙ set-same 0 lo

pub window_bit-others :
    (d hi lo : ℕ) → 0 < d → window_bit d (hi, bit_or lo 1) ≡ window_bit d (hi, lo)
window_bit-others d hi lo positive = elim (dec_lt d 64) [
  | yes low ↦
      in_low d hi (bit_or lo 1) low
      ∙ set-other d 0 lo (λ e. omega (arith, e))
      ∙ sym (in_low d hi lo low)
  | no high ↦ in_high d hi (bit_or lo 1) (omega arith) ∙ sym (in_high d hi lo (omega arith))
]

module _ (delta hi lo : ℕ) (h : delta < 128) where
  mark_low : delta < 64 → mark_window delta hi lo ≡ (hi, bit_or lo (2 ^ delta))
  unfolding mark_window
  mark_low k = let low : ltb delta 64 ≡ true = ground arith in rw low refl

  mark_high : 64 ≤ delta → mark_window delta hi lo ≡ (bit_or hi (2 ^ (delta - 64)), lo)
  unfolding mark_window
  mark_high k =
      let high : ltb delta 64 ≡ false = ground arith in
      let inside : ltb delta 128 ≡ true = ground arith in rw (high, inside) refl

  pub mark_same : window_bit delta (mark_window delta hi lo) ≡ 1
  mark_same = elim (dec_lt delta 64) [
    | yes low ↦
        ap (window_bit delta) (mark_low low)
        ∙ in_low delta hi (bit_or lo (2 ^ delta)) low
        ∙ set-same delta lo
    | no high ↦
        ap (window_bit delta) (mark_high (omega arith))
        ∙ in_high delta (bit_or hi (2 ^ (delta - 64))) lo (omega arith)
        ∙ set-same (delta - 64) hi
  ]

  pub mark_other :
      (d : ℕ) → d ≢ delta → window_bit d (mark_window delta hi lo) ≡ window_bit d (hi, lo)
  mark_other d ne = elim (dec_lt delta 64) [
    | yes low ↦ ap (window_bit d) (mark_low low) ∙ elim (dec_lt d 64) [
      | yes l ↦
          in_low d hi (bit_or lo (2 ^ delta)) l ∙ set-other d delta lo ne ∙ sym (in_low d hi lo l)
      | no g ↦
          in_high d hi (bit_or lo (2 ^ delta)) (omega arith) ∙ sym (in_high d hi lo (omega arith))
    ]
    | no high ↦ ap (window_bit d) (mark_high (omega arith)) ∙ elim (dec_lt d 64) [
      | yes l ↦ in_low d (bit_or hi (2 ^ (delta - 64))) lo l ∙ sym (in_low d hi lo l)
      | no g ↦
          in_high d (bit_or hi (2 ^ (delta - 64))) lo (omega arith)
          ∙ set-other (d - 64) (delta - 64) hi (λ e. omega (arith, e, ne))
          ∙ sym (in_high d hi lo (omega arith))
    ]
  ]

  pub mark_word : lo < 2 ^ 64 → (mark_window delta hi lo).1 < 2 ^ 64
  mark_word word = elim (dec_lt delta 64) [
    | yes low ↦
        subst (λ (w : ℕ × ℕ). w.1 < 2 ^ 64) (sym (mark_low low))
          (bit_or-lt 64 lo (2 ^ delta) word (power-lt delta 64 low))
    | no high ↦ subst (λ (w : ℕ × ℕ). w.1 < 2 ^ 64) (sym (mark_high (omega arith))) word
  ]

pub shift_word : (shift hi lo : ℕ) → 0 < shift → (shift_window shift hi lo).1 < 2 ^ 64
shift_word shift hi lo positive = elim (dec_lt shift 64) [
  | yes small ↦
      subst (λ (w : ℕ × ℕ). w.1 < 2 ^ 64) (sym (shift_near shift hi lo positive small))
        (omega arith)
  | no large ↦ elim (dec_lt shift 128) [
    | yes mid ↦
        subst (λ (w : ℕ × ℕ). w.1 < 2 ^ 64) (sym (shift_mid shift hi lo (omega arith) mid))
          (omega arith)
    | no far ↦
        subst (λ (w : ℕ × ℕ). w.1 < 2 ^ 64) (sym (shift_far shift hi lo (omega arith)))
          (omega arith)
  ]
]
