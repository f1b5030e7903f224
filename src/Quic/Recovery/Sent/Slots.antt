-- ===== src/Quic/Recovery/Sent/Slots.antt =====
-- The packets in a ring of 256 slots, as a list.
use bolt_api.Prelude.{
  ℕ, zero, suc, ◌+◌, ◌-◌, ◌%◌, ◌≤◌, ◌<◌, ◌≡◌, ◌≢◌, refl, sym, ap, ap₂, ◌∙◌, true, false, ◌==◌, List,
  [], ◌∷◌, ◌++◌, length, get_elem?, some, none, arith,
}
use bolt_api.Quic.Recovery.Sent.{set_slot}
use bolt_api.Quic.Recovery.Sent.History.{change_nth}

module _ {ℓ} {A : Type ℓ} where
  -- The `n` slots from index `i` on, going round at 256.
  abbrev pub entries : (ℕ → A) → ℕ → ℕ → List A
  entries r i zero = []
  entries r i (suc n) = r (i % 256) ∷ entries r (i + 1) n

  pub length-entries : (r : ℕ → A) (i n : ℕ) → length (entries r i n) ≡ n
  length-entries r i zero = refl
  length-entries r i (suc n) = ap suc (length-entries r (i + 1) n)

  set_self : (r : ℕ → A) (i : ℕ) (x : A) → set_slot i x r i ≡ x
  set_self r i x = let e : (i == i) ≡ true = ground arith in rw e refl

  set_ne : (r : ℕ → A) (i j : ℕ) (x : A) → j ≢ i → set_slot i x r j ≡ r j
  set_ne r i j x ne = let e : (j == i) ≡ false = ground (arith, ne) in rw e refl

  pub same_start : (r : ℕ → A) (i j n : ℕ) → i % 256 ≡ j % 256 → entries r i n ≡ entries r j n
  same_start r i j zero e = refl
  same_start r i j (suc n) e = ap₂ ◌∷◌ (ap r e) (same_start r (i + 1) (j + 1) n (omega (arith, e)))

  -- A slot that is `k` places behind the list is not in it.
  entries-set :
      (r : ℕ → A) (x : A) (h i n k : ℕ)
      → h ≡ (i + n + k) % 256
      → n + k < 256
      → entries (set_slot h x r) i n ≡ entries r i n
  entries-set r x h i zero k e l = refl
  entries-set r x h i (suc n) k e l =
      ap₂ ◌∷◌ (set_ne r h (i % 256) x (λ same. omega (arith, e, l, same)))
        (entries-set r x h (i + 1) n k (omega (arith, e)) (omega arith))

  entries-last :
      (r : ℕ → A) (i n : ℕ) → entries r i (suc n) ≡ entries r i n ++ (r ((i + n) % 256) ∷ [])
  entries-last r i zero = ap (λ t. r (t % 256) ∷ []) (let e : i ≡ i + 0 = omega arith in e)
  entries-last r i (suc n) = ap (◌∷◌ (r (i % 256))) (
      entries-last r (i + 1) n
      ∙ ap (λ t. entries r (i + 1) n ++ (r (t % 256) ∷ []))
          (let e : i + 1 + n ≡ i + suc n = omega arith in e))

  -- A packet stored right behind the others.
  pub entries-push :
      (r : ℕ → A) (x : A) (h i n : ℕ)
      → h ≡ (i + n) % 256
      → n < 256
      → entries (set_slot h x r) i (suc n) ≡ entries r i n ++ (x ∷ [])
  entries-push r x h i n e l =
      entries-last (set_slot h x r) i n
      ∙ ap₂ (λ (xs : List A) (y : A). xs ++ (y ∷ []))
          (entries-set r x h i n 0 (omega (arith, e)) (omega arith))
          (ap (set_slot h x r) (sym e) ∙ set_self r h x)

  -- A change of the slot at position `p`.
  pub entries-change :
      (r : ℕ → A) (change : A → A) (i n p h : ℕ)
      → p < n
      → n ≤ 256
      → h ≡ (i + p) % 256
      → entries (set_slot h (change (r h)) r) i n ≡ change_nth p change (entries r i n)
  entries-change r change i zero p h l b e = absurd (omega (arith, l))
  entries-change r change i (suc n) zero h l b e =
      let here : h ≡ i % 256 = omega (arith, e) in
      ap₂ ◌∷◌
        (ap (set_slot h (change (r h)) r) (sym here)
          ∙ set_self r h (change (r h))
          ∙ ap (λ t. change (r t)) here)
        (entries-set r (change (r h)) h (i + 1) n (255 - n) (omega (arith, e, b))
          (omega (arith, b)))
  entries-change r change i (suc n) (suc p) h l b e =
      ap₂ ◌∷◌ (set_ne r h (i % 256) (change (r h)) (λ same. omega (arith, e, b, l, same))) (
        entries-change r change (i + 1) n p h (omega (arith, l)) (omega (arith, b))
          (omega (arith, e)))

  pub entries-get :
      (r : ℕ → A) (i n p : ℕ) → p < n → get_elem? (entries r i n) p ≡ some (r ((i + p) % 256))
  entries-get r i zero p h = absurd (omega (arith, h))
  entries-get r i (suc n) zero h =
      ap (λ t. some (r (t % 256))) (let e : i ≡ i + 0 = omega arith in e)
  entries-get r i (suc n) (suc p) h =
      entries-get r (i + 1) n p (omega (arith, h))
      ∙ ap (λ t. some (r (t % 256))) (let e : i + 1 + p ≡ i + suc p = omega arith in e)

  pub entries-past : (r : ℕ → A) (i n p : ℕ) → n ≤ p → get_elem? (entries r i n) p ≡ none
  entries-past r i zero p h = refl
  entries-past r i (suc n) zero h = absurd (omega (arith, h))
  entries-past r i (suc n) (suc p) h = entries-past r (i + 1) n p (omega (arith, h))
