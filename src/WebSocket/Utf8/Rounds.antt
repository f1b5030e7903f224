-- ===== src/WebSocket/Utf8/Rounds.antt =====
-- The rounds of the loop of validate_utf8 (src/http/websocket_parser.cpp).
use bolt_api.Prelude.{
  ℕ, zero, suc, ◌-◌, ◌≤◌, ◌≡◌, refl, Bool, true, false, ◌||◌, Bool-cases, none, some, Option-cases,
  ltb, if◌then◌else◌, List, [], ◌∷◌, length, length-drop, drop, inl, inr, arith,
}
use mathlib.Core.Option.{some-injective}
use bolt_api.Prelude.Bytes.{at}
use bolt_api.WebSocket.Utf8.{lead, continues, sequence, validate_rounds, validate_utf8}

lead_size : (c n : ℕ) (r : ℕ × ℕ) → lead c ≡ some (n, r) → 2 ≤ n
unfolding lead
lead_size c n (lo, hi) e = ground arith

-- Three tests that all let a value through.
gates :
    (a b c : Bool) (k n : ℕ)
    → (if a then none else if b then none else if c then some k else none) ≡ some n
    → k ≡ n
gates a b c k n e = ground arith

sequence_size : (bytes : List ℕ) (n : ℕ) → sequence bytes ≡ some n → 1 ≤ n
unfolding sequence
sequence_size [] n e = cc
sequence_size (c ∷ rest) n e = elim (Bool-cases (ltb c 0x80)) [
  | inl ascii ↦
      let one : some 1 ≡ some n = rw (ascii, sequence) at e in omega (arith, some-injective 1 n one)
  | inr high ↦ elim (Option-cases (lead c)) [
    | inl bad ↦ cc (rw (high, bad, sequence) at e)
    | inr ((k, (lo, hi)), found) ↦ omega (
      arith,
      lead_size c k (lo, hi) found,
      gates (ltb (length (c ∷ rest)) k) (ltb (at rest 0) lo || ltb hi (at rest 0))
          (continues (k - 2) (drop 1 rest)) k n (rw (high, found, sequence) at e),
    )
  ]
]

-- The loop comes to a result, and it is the same with any fuel that is enough.
rounds_agree :
    (n m : ℕ) (bytes : List ℕ)
    → length bytes ≤ n
    → length bytes ≤ m
    → (valid : Bool) × (validate_rounds n bytes ≡ some valid)
      × (validate_rounds m bytes ≡ some valid)
unfolding validate_rounds
rounds_agree n m [] h k = (true, refl, refl)
rounds_agree zero m (c ∷ rest) h k = absurd (omega (arith, h))
rounds_agree (suc n) zero (c ∷ rest) h k = absurd (omega (arith, k))
rounds_agree (suc n) (suc m) (c ∷ rest) h k = elim (Option-cases (sequence (c ∷ rest))) [
  | inl bad ↦ (false, rw (bad, validate_rounds) refl, rw (bad, validate_rounds) refl)
  | inr (used, found) ↦
      let size : 1 ≤ used = sequence_size (c ∷ rest) used found in
      let (valid, left, right) =
        rounds_agree n m (drop used (c ∷ rest))
          (omega (arith, size, h, length-drop used (c ∷ rest)))
          (omega (arith, size, k, length-drop used (c ∷ rest))) in
      (valid, rw (found, validate_rounds) left, rw (found, validate_rounds) right)
]

-- The loop ends: with a round for each byte, or more, it comes to a result, which is what
-- validate_utf8 returns.
pub validate_utf8_rounds :
    (bytes : List ℕ) (fuel : ℕ)
    → length bytes ≤ fuel
    → validate_rounds fuel bytes ≡ some (validate_utf8 bytes)
unfolding validate_utf8
validate_utf8_rounds bytes fuel h =
    let (valid, result, own) = rounds_agree fuel (length bytes) bytes h (omega arith) in
    rw (result, validate_utf8, own) refl
