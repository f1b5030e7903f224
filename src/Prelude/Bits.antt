-- ===== src/Prelude/Bits.antt =====
-- Masks, shifts and disjoint unions of bits as arithmetic, for every width.
use Prim.Native.Nat.{
  ℕ, zero, suc, ◌+◌, ◌-◌, ◌*◌, ◌/◌, ◌%◌, ◌^◌, ◌≤◌, ◌<◌, min, max, bit_and, bit_or, bit_xor, digits,
  bitwise, bit_and-bitwise, bit_or-bitwise, bit_xor-bitwise, differ,
}
use mathlib.Core.Path.{◌≡◌, refl, ap, ap₂, sym, ◌∙◌}
use native.Mathlib.Nat.{pow-suc, one-le-pow, le_refl}
use native.Mathlib.Omega.{arith}

-- The digit count may be any number that the first argument does not exceed.
module _ (z : ℕ → ℕ) (f : ℕ → ℕ → ℕ) where
  enough_digits : (n a b : ℕ) → a ≤ n → digits z f n a b ≡ bitwise z f a b
  enough_digits n a b h = both n a a b h (le_refl a)
    where
      both : (n m a b : ℕ) → a ≤ n → a ≤ m → digits z f n a b ≡ digits z f m a b
      both zero zero a b h k = refl
      both zero (suc m) zero b h k = refl
      both (suc n) zero zero b h k = refl
      both (suc n) (suc m) zero b h k = refl
      both zero m (suc a) b h k = absurd (omega arith)
      both (suc n) zero (suc a) b h k = absurd (omega arith)
      both (suc n) (suc m) (suc a) b h k =
          ap (λ t. t * 2 + f (suc a % 2) (b % 2))
            (both n m (suc a / 2) (b / 2) (omega arith) (omega arith))

  digit_step :
      (a b : ℕ)
      → bitwise z f (suc a) b ≡ bitwise z f (suc a / 2) (b / 2) * 2 + f (suc a % 2) (b % 2)
  digit_step a b =
      ap (λ t. t * 2 + f (suc a % 2) (b % 2)) (enough_digits a (suc a / 2) (b / 2) (omega arith))

-- The lowest digit of each operation, and the operation on the rest.
pub bit_and_step : (a b : ℕ) → bit_and a b ≡ bit_and (a / 2) (b / 2) * 2 + min (a % 2) (b % 2)
bit_and_step zero b = omega (arith, bit_and-bitwise 0 b, bit_and-bitwise 0 (b / 2))
bit_and_step (suc a) b = simp bit_and-bitwise (digit_step (λ t. 0) min a b)

pub bit_or_step : (a b : ℕ) → bit_or a b ≡ bit_or (a / 2) (b / 2) * 2 + max (a % 2) (b % 2)
bit_or_step zero b = omega (arith, bit_or-bitwise 0 b, bit_or-bitwise 0 (b / 2))
bit_or_step (suc a) b = simp bit_or-bitwise (digit_step (λ t. t) max a b)

pub bit_xor_step : (a b : ℕ) → bit_xor a b ≡ bit_xor (a / 2) (b / 2) * 2 + differ (a % 2) (b % 2)
bit_xor_step zero b = omega (arith, bit_xor-bitwise 0 b, bit_xor-bitwise 0 (b / 2))
bit_xor_step (suc a) b = simp bit_xor-bitwise (digit_step (λ t. t) differ a b)

-- Induction on a bound of the number: the number halves.
halving {ℓ} :
    (P : ℕ → Type ℓ) → P 0 → ((a : ℕ) → P (suc a / 2) → P (suc a)) → (n a : ℕ) → a ≤ n → P a
halving P base step n zero h = base
halving P base step zero (suc a) h = absurd (omega arith)
halving P base step (suc n) (suc a) h = step a (halving P base step n (suc a / 2) (omega arith))

pub bit_or-zero : (a : ℕ) → bit_or a 0 ≡ a
bit_or-zero a =
    halving (λ t. bit_or t 0 ≡ t) refl (λ m ih. omega (arith, bit_or_step (suc m) 0)) a a
      (le_refl a)

pub bit_and-zero : (a : ℕ) → bit_and a 0 ≡ 0
bit_and-zero a =
    halving (λ t. bit_and t 0 ≡ 0) refl (λ m ih. omega (arith, bit_and_step (suc m) 0)) a a
      (le_refl a)

pub double_shift : (q k : ℕ) → q * 2 ^ suc k ≡ 2 * (q * 2 ^ k)
double_shift q k = omega (arith, ap (λ (t : ℕ). q * t) (pow-suc 2 k))

-- `(q << k) | r` for `r` below 2 ^ k.
pub bit_or_disjoint : (k q r : ℕ) → r < 2 ^ k → bit_or (q * 2 ^ k) r ≡ q * 2 ^ k + r
bit_or_disjoint zero q r h =
    let e : r ≡ 0 = omega arith in rw e (omega (arith, bit_or-zero (q * 1)))
bit_or_disjoint (suc k) q r h = ground (
  arith,
  double_shift q k,
  pow-suc 2 k,
  bit_or_step (q * 2 ^ suc k) r,
  bit_or_disjoint k q (r / 2) (omega (arith, pow-suc 2 k)),
)

pub low_field : (k q r : ℕ) → r < 2 ^ k → bit_and (q * 2 ^ k + r) (2 ^ k - 1) ≡ r
low_field zero q r h = omega (arith, bit_and-zero (q * 1 + r))
low_field (suc k) q r h = ground (
  arith,
  double_shift q k,
  pow-suc 2 k,
  one-le-pow k 2 (omega arith),
  bit_and_step (q * 2 ^ suc k + r) (2 ^ suc k - 1),
  low_field k q (r / 2) (omega (arith, pow-suc 2 k)),
)

-- `a & (2^k - 1)`.
pub bit_and_mask : (k a : ℕ) → bit_and a (2 ^ k - 1) ≡ a % 2 ^ k
bit_and_mask k a = ground (arith, one-le-pow k 2 (omega arith), low_field k (a / 2 ^ k) (a % 2 ^ k))

high_field : (k q r m : ℕ) → r < 2 ^ k → bit_and (q * 2 ^ k + r) (m * 2 ^ k) ≡ bit_and q m * 2 ^ k
high_field zero q r m h =
    let left : q * 1 + r ≡ q = omega arith in
    let right : m * 1 ≡ m = omega arith in rw (left, right) (omega arith)
high_field (suc k) q r m h = ground (
  arith,
  double_shift q k,
  double_shift m k,
  double_shift (bit_and q m) k,
  bit_and_step (q * 2 ^ suc k + r) (m * 2 ^ suc k),
  high_field k q (r / 2) m (omega (arith, pow-suc 2 k)),
)

-- `a & (m << k)`.
pub bit_and_high : (k m a : ℕ) → bit_and a (m * 2 ^ k) ≡ bit_and (a / 2 ^ k) m * 2 ^ k
bit_and_high k m a =
    ground (arith, one-le-pow k 2 (omega arith), high_field k (a / 2 ^ k) (a % 2 ^ k) m)

or_digits_comm : (x y : ℕ) → max x y ≡ max y x
or_digits_comm x y = omega arith

zero-bit_or : (b : ℕ) → bit_or 0 b ≡ b
zero-bit_or b = bit_or-bitwise 0 b

pub bit_or_comm : (a b : ℕ) → bit_or a b ≡ bit_or b a
bit_or_comm a b =
    halving (λ t. (c : ℕ) → bit_or t c ≡ bit_or c t) (λ c. zero-bit_or c ∙ sym (bit_or-zero c))
      (λ m ih c. omega (
        arith,
        bit_or_step (suc m) c,
        bit_or_step c (suc m),
        ih (c / 2),
        or_digits_comm (suc m % 2) (c % 2),
      ))
      a a (le_refl a) b

-- Exclusive or of two binary digits.
differ_bit : (x y : ℕ) → x < 2 → y < 2 → differ x y < 2
differ_bit zero y h k = k
differ_bit (suc x) zero h k = h
differ_bit (suc zero) (suc zero) h k = omega arith
differ_bit (suc zero) (suc (suc y)) h k = absurd (omega arith)
differ_bit (suc (suc x)) (suc y) h k = absurd (omega arith)

differ_twice : (x y : ℕ) → x < 2 → y < 2 → differ (differ x y) y ≡ x
differ_twice zero zero h k = refl
differ_twice zero (suc zero) h k = refl
differ_twice zero (suc (suc y)) h k = absurd (omega arith)
differ_twice (suc zero) zero h k = refl
differ_twice (suc zero) (suc zero) h k = refl
differ_twice (suc zero) (suc (suc y)) h k = absurd (omega arith)
differ_twice (suc (suc x)) y h k = absurd (omega arith)

bit_xor_self : (a : ℕ) → bit_xor a a ≡ 0
bit_xor_self a =
    halving (λ t. bit_xor t t ≡ 0) refl
      (λ m ih. omega (arith, bit_xor_step (suc m) (suc m), differ_self (suc m % 2))) a a (le_refl a)
  where
    differ_self : (x : ℕ) → differ x x ≡ 0
    differ_self zero = refl
    differ_self (suc zero) = refl
    differ_self (suc (suc x)) = differ_self (suc x)

-- The second exclusive or with the same number takes the first one back.
pub bit_xor_twice : (a b : ℕ) → bit_xor (bit_xor a b) b ≡ a
bit_xor_twice a b =
    halving (λ t. (c : ℕ) → bit_xor (bit_xor t c) c ≡ t)
      (λ c. ap (λ t. bit_xor t c) (bit_xor-bitwise 0 c) ∙ bit_xor_self c)
      (λ m ih c. digit m c (ih (c / 2))) a a (le_refl a) b
  where
    digit :
        (m c : ℕ)
        → bit_xor (bit_xor (suc m / 2) (c / 2)) (c / 2) ≡ suc m / 2
        → bit_xor (bit_xor (suc m) c) c ≡ suc m
    digit m c ih =
        let x : ℕ = bit_xor (suc m) c in
        let first : x ≡ bit_xor (suc m / 2) (c / 2) * 2 + differ (suc m % 2) (c % 2) =
          bit_xor_step (suc m) c in
        let small : differ (suc m % 2) (c % 2) < 2 =
          differ_bit (suc m % 2) (c % 2) (omega arith) (omega arith) in
        let upper : x / 2 ≡ bit_xor (suc m / 2) (c / 2) = omega arith in
        let lower : x % 2 ≡ differ (suc m % 2) (c % 2) = omega arith in
        bit_xor_step x c
        ∙ ap₂ (λ u v. bit_xor u (c / 2) * 2 + differ v (c % 2)) upper lower
        ∙ ap₂ (λ u v. u * 2 + v) ih (differ_twice (suc m % 2) (c % 2) (omega arith) (omega arith))
        ∙ omega arith

-- The exclusive or of two numbers in two parts, the low part of `k` bits.
pub bit_xor_append :
    (k q p r s : ℕ)
    → r < 2 ^ k
    → s < 2 ^ k
    → bit_xor (q * 2 ^ k + r) (p * 2 ^ k + s) ≡ bit_xor q p * 2 ^ k + bit_xor r s
bit_xor_append zero q p r s h g =
    let e : r ≡ 0 = omega arith in
    let d : s ≡ 0 = omega arith in
    let left : q * 2 ^ 0 + r ≡ q = omega arith in
    let right : p * 2 ^ 0 + s ≡ p = omega arith in
    let low : bit_xor r s ≡ 0 = ap₂ bit_xor e d ∙ bit_xor_self 0 in
    ap₂ bit_xor left right ∙ omega (arith, low)
bit_xor_append (suc k) q p r s h g =
    let x : ℕ = q * 2 ^ suc k + r in
    let y : ℕ = p * 2 ^ suc k + s in
    let half_x : x / 2 ≡ q * 2 ^ k + r / 2 = omega (arith, double_shift q k) in
    let half_y : y / 2 ≡ p * 2 ^ k + s / 2 = omega (arith, double_shift p k) in
    let bit_x : x % 2 ≡ r % 2 = omega (arith, double_shift q k) in
    let bit_y : y % 2 ≡ s % 2 = omega (arith, double_shift p k) in
    let halves : bit_xor (x / 2) (y / 2) ≡ bit_xor q p * 2 ^ k + bit_xor (r / 2) (s / 2) =
      ap₂ bit_xor half_x half_y
      ∙ bit_xor_append k q p (r / 2) (s / 2) (omega (arith, pow-suc 2 k))
          (omega (arith, pow-suc 2 k)) in
    bit_xor_step x y
    ∙ ap₂ (λ u v. u * 2 + v) halves (ap₂ differ bit_x bit_y)
    ∙ omega (arith, double_shift (bit_xor q p) k, bit_xor_step r s)

-- Exclusive or stays below a power of two.
pub bit_xor-lt : (k a b : ℕ) → a < 2 ^ k → b < 2 ^ k → bit_xor a b < 2 ^ k
bit_xor-lt zero a b h g =
    let e : a ≡ 0 = omega arith in let d : b ≡ 0 = omega arith in rw (e, d) (omega arith)
bit_xor-lt (suc k) a b h g = omega (
  arith,
  pow-suc 2 k,
  bit_xor_step a b,
  differ_bit (a % 2) (b % 2) (omega arith) (omega arith),
  bit_xor-lt k (a / 2) (b / 2) (omega (arith, pow-suc 2 k)) (omega (arith, pow-suc 2 k)),
)
