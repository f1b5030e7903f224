-- ===== src/Quic/Ack/Contents.antt =====
-- The packet numbers that the ranges cover, under `record`.
use bolt_api.Prelude.{
  ◌^◌, ℕ, zero, suc, ◌+◌, ◌≤◌, ◌<◌, ◌≡◌, refl, ap, ◌∙◌, Bool, true, false, ◌&&◌, ◌||◌, [], ◌∷◌, ltb,
  leb, ◌==◌, length, take, arith, inl, inr, Bool-cases,
}
use bolt_api.Quic.Ack.{Range, AckRangeTracker, max_tracked_ranges, record_pn}
use bolt_api.Quic.Ack.Insert.{Under, join, insert_pn, record_pn-insert_pn, take_all}
use bolt_api.Quic.Ack.Order.{IsTracker, insert_pn-Under}

abbrev pub covers : AckRangeTracker → ℕ → Bool
covers [] n = false
covers (r ∷ rs) n = leb r.start n && leb n r.end || covers rs n

covers-join :
    (pn b n : ℕ) (r : Range) (rs : AckRangeTracker)
    → Under b (r ∷ rs)
    → pn + 1 ≡ r.start
    → covers (join pn r rs) n ≡ (covers (r ∷ rs) n || n == pn)
unfolding join
covers-join pn b n r [] u e = ground arith
covers-join pn b n r (s ∷ rs) u e = ground arith

or_assoc : (x y z : Bool) → (x || (y || z)) ≡ (x || y || z)
or_assoc true y z = refl
or_assoc false y z = refl

-- The branches of the insertion at a range that does not stand above the number. `below` is what
-- the ranges further down say of `n`.
module _ (pn n : ℕ) (r : Range) (below : Bool) (ordered : r.start ≤ r.end)
    (reached : r.start ≤ pn) where
  inside_range :
      pn ≤ r.end
      → (leb r.start n && leb n r.end || below) ≡ (leb r.start n && leb n r.end || below || n == pn)
  inside_range h = ground arith

  grown_range :
      pn ≡ r.end + 1
      → (leb r.start n && leb n pn || below) ≡ (leb r.start n && leb n r.end || below || n == pn)
  grown_range h = ground arith

  new_range :
      (leb pn n && leb n pn || (leb r.start n && leb n r.end || below))
      ≡ (leb r.start n && leb n r.end || below || n == pn)
  new_range = ground arith

insert_pn-top :
    (pn n : ℕ) (r : Range) (rs : AckRangeTracker)
    → r.start ≤ r.end
    → r.start ≤ pn
    → covers (insert_pn pn (r ∷ rs)) n ≡ (covers (r ∷ rs) n || n == pn)
unfolding insert_pn
insert_pn-top pn n r rs o h =
    let at_top : ltb pn r.start ≡ false = ground arith in
    elim (Bool-cases (leb pn r.end)) [
      | inl inside ↦ rw (at_top, inside) (inside_range pn n r (covers rs n) o h (ground arith))
      | inr beyond ↦ elim (Bool-cases (pn == r.end + 1)) [
        | inl next ↦ rw (at_top, beyond, next) (grown_range pn n r (covers rs n) o h (ground arith))
        | inr apart ↦ rw (at_top, beyond, apart) (new_range pn n r (covers rs n) o h)
      ]
    ]

pub covers-insert_pn :
    (pn b n : ℕ) (rs : AckRangeTracker)
    → Under b rs
    → covers (insert_pn pn rs) n ≡ (covers rs n || n == pn)
covers-insert_pn pn b n [] u = unfold insert_pn in ground arith
covers-insert_pn pn b n (r ∷ rs) (ordered, clear, u) =
    below_or_not (covers-insert_pn pn r.start n rs u)
  where
    above :
        covers (insert_pn pn rs) n ≡ (covers rs n || n == pn)
        → ltb pn r.start ≡ true
        → covers (insert_pn pn (r ∷ rs)) n ≡ (covers (r ∷ rs) n || n == pn)
    above ih below = elim (Bool-cases (pn + 1 == r.start)) [
      | inl next ↦
          unfold insert_pn in
          rw (below, next) (covers-join pn b n r rs (ordered, clear, u) (ground arith))
      | inr apart ↦
          unfold insert_pn in
          rw (below, apart, ih) (or_assoc (leb r.start n && leb n r.end) (covers rs n) (n == pn))
    ]

    below_or_not :
        covers (insert_pn pn rs) n ≡ (covers rs n || n == pn)
        → covers (insert_pn pn (r ∷ rs)) n ≡ (covers (r ∷ rs) n || n == pn)
    below_or_not ih = elim (Bool-cases (ltb pn r.start)) [
      | inl below ↦ above ih below
      | inr at_top ↦ insert_pn-top pn n r rs ordered (ground arith)
    ]

covers-take : (k n : ℕ) (rs : AckRangeTracker) → covers (take k rs) n ≡ true → covers rs n ≡ true
covers-take zero n rs h = cc
covers-take (suc k) n [] h = h
covers-take (suc k) n (r ∷ rs) h = ground (arith, covers-take k n rs)

covers-Under : (b n : ℕ) (rs : AckRangeTracker) → Under b rs → covers rs n ≡ true → n + 1 < b
covers-Under b n [] u h = cc
covers-Under b n (r ∷ rs) u h = ground (arith, covers-Under r.start n rs)

take-lowest :
    (k b n m : ℕ) (rs : AckRangeTracker)
    → Under b rs
    → covers rs n ≡ true
    → covers (take k rs) n ≡ false
    → covers (take k rs) m ≡ true
    → n < m
take-lowest zero b n m rs u h l g = cc
take-lowest (suc k) b n m [] u h l g = cc
take-lowest (suc k) b n m (r ∷ rs) u h l g =
    ground (arith, take-lowest k r.start n m rs, covers-Under r.start n rs)

length-insert_pn : (pn : ℕ) (rs : AckRangeTracker) → length (insert_pn pn rs) ≤ suc (length rs)
unfolding insert_pn
length-insert_pn pn [] = omega arith
length-insert_pn pn (r ∷ rs) = ground (arith, length-insert_pn pn rs, length-join pn r rs)
  where
    length-join :
        (pn : ℕ) (r : Range) (rs : AckRangeTracker) → length (join pn r rs) ≤ suc (length rs)
    length-join pn r [] = ground arith
    length-join pn r (s ∷ rs) = ground arith

-- While there is room in a tracker whose ranges are in order, it covers exactly what it covered before and the new number.
pub covers-record_pn :
    (pn n : ℕ) (rs : AckRangeTracker)
    → IsTracker rs
    → length rs < max_tracked_ranges
    → covers (record_pn pn rs) n ≡ (covers rs n || n == pn)
covers-record_pn pn n rs t room =
    let short : length (insert_pn pn rs) ≤ 256 = omega (arith, length-insert_pn pn rs) in
    ap (λ xs. covers xs n)
      (record_pn-insert_pn pn (2 ^ 62 + 1) rs t.under t.bounded
        ∙ take_all 256 (insert_pn pn rs) short)
    ∙ covers-insert_pn pn (2 ^ 62 + 1) n rs t.under

-- In a tracker whose ranges are in order, full or not, for a legal packet number: nothing is covered that was not received, and a number that is given up is
-- smaller than every number that is still covered.
pub record_pn_limit :
    (pn n : ℕ) (rs : AckRangeTracker)
    → pn < 2 ^ 62
    → IsTracker rs
    → (covers (record_pn pn rs) n ≡ true → (covers rs n || n == pn) ≡ true)
      × ((m : ℕ)
          → (covers rs n || n == pn) ≡ true
          → covers (record_pn pn rs) n ≡ false
          → covers (record_pn pn rs) m ≡ true
          → n < m)
record_pn_limit pn n rs h t =
    let inserted = covers-insert_pn pn (2 ^ 62 + 1) n rs t.under in
    rw (record_pn-insert_pn pn (2 ^ 62 + 1) rs t.under t.bounded, ← inserted)
      (
        covers-take 256 n (insert_pn pn rs),
        λ m.
            take-lowest 256 (2 ^ 62 + 1) n m (insert_pn pn rs)
              (insert_pn-Under pn (2 ^ 62 + 1) rs (omega arith) t.under),
      )
