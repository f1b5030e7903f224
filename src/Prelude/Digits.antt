-- ===== src/Prelude/Digits.antt =====
-- The single bits of a number, under shifts, unions and masks.
use Prim.Native.Nat.{ℕ, zero, suc, ◌+◌, ◌-◌, ◌*◌, ◌/◌, ◌%◌, ◌^◌, ◌≤◌, ◌<◌, max, bit_and, bit_or}
use mathlib.Core.Path.{◌≡◌, refl, ap, ap₂, sym, ◌∙◌}
use native.Mathlib.Nat.{
  pow-suc, one-le-pow, mod-lt, mod-eq_of_lt, div-add-mod, add-mul-mod_self_left, div-div-eq-div-mul,
}
use native.Mathlib.Omega.{arith}
use mathlib.Core.Bool.{false}
use mathlib.Core.Logic.{◌≢◌}
use native.Mathlib.Decide.{dec_lt}
use bolt_api.Prelude.Tests.{◌==◌}
use bolt_api.Prelude.Bits.{bit_and_step, bit_or_step, bit_and_mask, double_shift}

-- Bit `d`, which is 0 or 1.
abbrev pub bit : ℕ → ℕ → ℕ
bit zero w = w % 2
bit (suc d) w = bit d (w / 2)

pub bit-le : (d w : ℕ) → bit d w ≤ 1
bit-le zero w = omega arith
bit-le (suc d) w = bit-le d (w / 2)

pub bit-zero : (d : ℕ) → bit d 0 ≡ 0
bit-zero zero = refl
bit-zero (suc d) = bit-zero d

-- 1 << 0.
pub bit-one : (d : ℕ) → 0 < d → bit d 1 ≡ 0
bit-one zero h = absurd (omega (arith, h))
bit-one (suc d) h = bit-zero d

pub bit-bit_or : (d a b : ℕ) → bit d (bit_or a b) ≡ max (bit d a) (bit d b)
bit-bit_or zero a b = omega (arith, bit_or_step a b)
bit-bit_or (suc d) a b =
    ap (bit d)
      (let e : bit_or a b / 2 ≡ bit_or (a / 2) (b / 2) = omega (arith, bit_or_step a b) in e)
    ∙ bit-bit_or d (a / 2) (b / 2)

-- `w & (1 << d)`.
pub bit_and-power : (d w : ℕ) → bit_and w (2 ^ d) ≡ bit d w * 2 ^ d
bit_and-power zero w = omega (arith, bit_and_mask 1 w)
bit_and-power (suc d) w = omega (
  arith,
  pow-suc 2 d,
  double_shift (bit d (w / 2)) d,
  bit_and_step w (2 ^ suc d),
  bit_and-power d (w / 2),
  ap (λ t. bit_and (w / 2) t) (let e : 2 ^ suc d / 2 ≡ 2 ^ d = omega (arith, pow-suc 2 d) in e),
)

half_shift : (w k : ℕ) → w * 2 ^ suc k / 2 ≡ w * 2 ^ k
half_shift w k = omega (arith, double_shift w k)

-- `w << k`: the low bits are 0, the others are those of `w`.
pub bit-shift_low : (k d w : ℕ) → d < k → bit d (w * 2 ^ k) ≡ 0
bit-shift_low zero d w h = absurd (omega (arith, h))
bit-shift_low (suc k) zero w h = omega (arith, double_shift w k)
bit-shift_low (suc k) (suc d) w h = ap (bit d) (half_shift w k) ∙ bit-shift_low k d w (omega arith)

pub bit-shift_high : (k d w : ℕ) → k ≤ d → bit d (w * 2 ^ k) ≡ bit (d - k) w
bit-shift_high zero d w h =
    ap₂ bit (let e : d ≡ d - 0 = omega arith in e) (let e : w * 1 ≡ w = omega arith in e)
bit-shift_high (suc k) zero w h = absurd (omega (arith, h))
bit-shift_high (suc k) (suc d) w h =
    ap (bit d) (half_shift w k)
    ∙ bit-shift_high k d w (omega arith)
    ∙ ap (λ t. bit t w) (let e : d - k ≡ suc d - suc k = omega arith in e)

-- `w >> k`.
pub bit-down : (k d w : ℕ) → bit d (w / 2 ^ k) ≡ bit (d + k) w
bit-down zero d w =
    ap₂ bit (let e : d ≡ d + 0 = omega arith in e) (let e : w / 1 ≡ w = omega arith in e)
bit-down (suc k) d w =
    ap (bit d) (ap (λ t. w / t) (pow-suc 2 k ∙ comm (2 ^ k)) ∙ sym (div-div-eq-div-mul w 2 (2 ^ k)))
    ∙ bit-down k d (w / 2)
    ∙ ap (λ t. bit t w) (let e : suc (d + k) ≡ d + suc k = omega arith in e)
  where
    comm : (t : ℕ) → t * 2 ≡ 2 * t
    comm t = omega arith

-- The bits of a number below 2 ^ n, and of the rest by 2 ^ n.
pub bit-above : (n d w : ℕ) → w < 2 ^ n → n ≤ d → bit d w ≡ 0
bit-above zero d w h l = ap (bit d) (let e : w ≡ 0 = omega arith in e) ∙ bit-zero d
bit-above (suc n) zero w h l = absurd (omega (arith, l))
bit-above (suc n) (suc d) w h l = bit-above n d (w / 2) (omega (arith, pow-suc 2 n)) (omega arith)

mod_step : (n w : ℕ) → w % 2 ^ suc n ≡ w / 2 % 2 ^ n * 2 + w % 2
mod_step n w =
    let p : ℕ = 2 ^ n in
    let q : ℕ = w / 2 / p in
    let r : ℕ = w / 2 % p in
    let positive : 1 ≤ p = one-le-pow n 2 (omega arith) in
    let small : r < p = mod-lt (w / 2) positive in
    let parts : p * q + r ≡ w / 2 = div-add-mod (w / 2) p in
    let whole : w ≡ r * 2 + w % 2 + 2 * p * q = omega (arith, parts) in
    ap₂ (λ t m. t % m) whole (let e : 2 ^ suc n ≡ 2 * p = omega (arith, pow-suc 2 n) in e)
    ∙ add-mul-mod_self_left (r * 2 + w % 2) (2 * p) q
    ∙ mod-eq_of_lt (omega (arith, small))

pub bit-mod : (n d w : ℕ) → d < n → bit d (w % 2 ^ n) ≡ bit d w
bit-mod zero d w h = absurd (omega (arith, h))
bit-mod (suc n) zero w h = omega (arith, mod_step n w)
bit-mod (suc n) (suc d) w h =
    ap (bit d) (let e : w % 2 ^ suc n / 2 ≡ w / 2 % 2 ^ n = omega (arith, mod_step n w) in e)
    ∙ bit-mod n d (w / 2) (omega arith)

-- `1 << k`.
pub bit-power_same : (k : ℕ) → bit k (2 ^ k) ≡ 1
bit-power_same zero = refl
bit-power_same (suc k) =
    ap (bit k) (let e : 2 ^ suc k / 2 ≡ 2 ^ k = omega (arith, pow-suc 2 k) in e) ∙ bit-power_same k

pub bit-power_other : (d k : ℕ) → d ≢ k → bit d (2 ^ k) ≡ 0
bit-power_other d k ne =
    ap (bit d) (let e : 2 ^ k ≡ 1 * 2 ^ k = omega arith in e) ∙ elim (dec_lt d k) [
      | yes below ↦ bit-shift_low k d 1 below
      | no above ↦
          let apart : k < d = omega (arith, ne) in
          bit-shift_high k d 1 (omega arith) ∙ bit-one (d - k) (omega arith)
    ]

pub set-same : (k w : ℕ) → bit k (bit_or w (2 ^ k)) ≡ 1
set-same k w = omega (arith, bit-bit_or k w (2 ^ k), bit-power_same k, bit-le k w)

pub set-other : (d k w : ℕ) → d ≢ k → bit d (bit_or w (2 ^ k)) ≡ bit d w
set-other d k w ne = omega (arith, bit-bit_or d w (2 ^ k), bit-power_other d k ne)

-- `(w & (1 << k)) == 0`.
pub clear-bit : (k w : ℕ) → (bit_and w (2 ^ k) == 0) ≡ (bit k w == 0)
clear-bit k w = digit (bit k w) (bit-le k w) (bit_and-power k w)
  where
    digit : (b : ℕ) → b ≤ 1 → bit_and w (2 ^ k) ≡ b * 2 ^ k → (bit_and w (2 ^ k) == 0) ≡ (b == 0)
    digit zero h e = let z : bit_and w (2 ^ k) ≡ 0 = omega (arith, e) in ap (λ t. t == 0) z
    digit (suc zero) h e =
        let p : 1 ≤ 2 ^ k = one-le-pow k 2 (omega arith) in
        let nonzero : (bit_and w (2 ^ k) == 0) ≡ false = ground (arith, e, p) in nonzero
    digit (suc (suc b)) h e = absurd (omega (arith, h))

pub bit_or-lt : (k a b : ℕ) → a < 2 ^ k → b < 2 ^ k → bit_or a b < 2 ^ k
bit_or-lt zero a b h g =
    let e : bit_or a b ≡ 0 =
      ap₂ bit_or (let x : a ≡ 0 = omega arith in x) (let y : b ≡ 0 = omega arith in y) in
    omega (arith, e)
bit_or-lt (suc k) a b h g = omega (
  arith,
  pow-suc 2 k,
  bit_or_step a b,
  bit_or-lt k (a / 2) (b / 2) (omega (arith, pow-suc 2 k)) (omega (arith, pow-suc 2 k)),
)

pub power-lt : (k n : ℕ) → k < n → 2 ^ k < 2 ^ n
power-lt k zero h = absurd (omega (arith, h))
power-lt zero (suc n) h = omega (arith, pow-suc 2 n, one-le-pow n 2 (omega arith))
power-lt (suc k) (suc n) h = omega (arith, pow-suc 2 k, pow-suc 2 n, power-lt k n (omega arith))
