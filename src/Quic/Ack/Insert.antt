-- ===== src/Quic/Ack/Insert.antt =====
-- The insertion of a packet number by indices, as a recursion on the ranges.
use bolt_api.Prelude.{
  ℕ, zero, suc, ◌+◌, ◌-◌, ◌≤◌, ◌<◌, ◌≡◌, refl, sym, subst, ap, ◌∙◌, Bool, true, false, ◌&&◌, [],
  ◌∷◌, ltb, leb, ◌==◌, length, get_elem?, take, if◌then◌else◌, arith, Bool-cases, inl, inr,
}
use bolt_api.Quic.Ack.{
  Range, AckRangeTracker, max_tracked_ranges, scan, get_above, set_start, set_end, shift_in,
  insert_at, remove_at, covers_here, joins_above, joins_below, start_of, record_at, record_pn,
}

-- Ranges in descending order below `b`, with a packet missing between neighbours.
abbrev pub Under : ℕ → AckRangeTracker → Type 0
Under b [] = Unit
Under b (r ∷ rs) = (r.start ≤ r.end) × (r.end + 1 < b) × Under r.start rs

-- `r` stands just above `pn`: join, and join with the range below where that ends just below.
unfoldable pub join : ℕ → Range → AckRangeTracker → AckRangeTracker
join pn r [] = record r { start = pn } ∷ []
join pn r (s ∷ rs) =
    if leb pn s.end
    then r ∷ s ∷ rs
    else if pn == s.end + 1
    then record r { start = s.start } ∷ rs
    else record r { start = pn } ∷ s ∷ rs

unfoldable pub insert_pn : ℕ → AckRangeTracker → AckRangeTracker
unfolding join
insert_pn pn [] = record { start = pn; end = pn } ∷ []
insert_pn pn (r ∷ rs) =
    if ltb pn r.start
    then if pn + 1 == r.start then join pn r rs else r ∷ insert_pn pn rs
    else if leb pn r.end
    then r ∷ rs
    else if pn == r.end + 1
    then record r { end = pn } ∷ rs
    else record { start = pn; end = pn } ∷ r ∷ rs

-- `record_at` with no limit on the number of ranges.
place_at : ℕ → ℕ → AckRangeTracker → AckRangeTracker
unfolding get_above set_start set_end shift_in remove_at
place_at i pn rs =
    let here = get_elem? rs i in
    let join_above = joins_above pn (get_above rs i) in
    let join_below = joins_below pn here in
    if covers_here pn here
    then rs
    else if join_above && join_below
    then remove_at i (set_start rs (i - 1) (start_of here))
    else if join_above
    then set_start rs (i - 1) pn
    else if join_below
    then set_end rs i pn
    else shift_in i (record { start = pn; end = pn }) rs

place_at-cons :
    (j pn : ℕ) (r : Range) (rs : AckRangeTracker)
    → place_at (suc (suc j)) pn (r ∷ rs) ≡ r ∷ place_at (suc j) pn rs
unfolding place_at
place_at-cons j pn r rs =
    let e : suc (suc j) - 1 ≡ suc j = omega arith in
    let d : suc j - 1 ≡ j = omega arith in rw (e, d) (ground arith)

place_at-first :
    (pn : ℕ) (r : Range) (rs : AckRangeTracker)
    → pn + 1 < r.start
    → place_at 1 pn (r ∷ rs) ≡ r ∷ place_at 0 pn rs
unfolding place_at
place_at-first pn r [] h = ground arith
place_at-first pn r (s ∷ rs) h = ground arith

-- Behind a range that stands clear above `pn`, the same happens one index further.
place_at-below :
    (k pn : ℕ) (r : Range) (rs : AckRangeTracker)
    → pn + 1 < r.start
    → place_at (suc k) pn (r ∷ rs) ≡ r ∷ place_at k pn rs
place_at-below zero pn r rs h = place_at-first pn r rs h
place_at-below (suc j) pn r rs h = place_at-cons j pn r rs

place_at-join :
    (pn : ℕ) (r : Range) (rs : AckRangeTracker)
    → Under r.start rs
    → pn + 1 ≡ r.start
    → place_at (suc (scan pn rs)) pn (r ∷ rs) ≡ join pn r rs
unfolding place_at scan join
place_at-join pn r [] u e = ground arith
place_at-join pn r (s ∷ rs) u e = ground arith

place_at-top :
    (pn : ℕ) (r : Range) (rs : AckRangeTracker)
    → r.start ≤ pn
    → place_at 0 pn (r ∷ rs) ≡ insert_pn pn (r ∷ rs)
unfolding place_at insert_pn
place_at-top pn r rs h = ground arith

place_at-scan :
    (pn b : ℕ) (rs : AckRangeTracker) → Under b rs → place_at (scan pn rs) pn rs ≡ insert_pn pn rs
unfolding scan insert_pn
place_at-scan pn b [] u = unfold place_at in refl
place_at-scan pn b (r ∷ rs) (ordered, clear, u) = elim (Bool-cases (ltb pn r.start)) [
  | inr at_top ↦ rw at_top (rw at_top at (place_at-top pn r rs (ground arith)))
  | inl below ↦ elim (Bool-cases (pn + 1 == r.start)) [
    | inl next ↦ rw (below, next) (place_at-join pn r rs u (ground arith))
    | inr apart ↦
        rw (below, apart)
          (place_at-below (scan pn rs) pn r rs (ground arith)
            ∙ ap (◌∷◌ r) (place_at-scan pn r.start rs u))
  ]
]

-- The limit: the 256 highest ranges stay.
pub take_all : (n : ℕ) (rs : AckRangeTracker) → length rs ≤ n → take n rs ≡ rs
take_all zero [] h = refl
take_all (suc n) [] h = refl
take_all zero (r ∷ rs) h = absurd (omega arith)
take_all (suc n) (r ∷ rs) h = ap (◌∷◌ r) (take_all n rs (omega arith))

take-shift_in_end :
    (r : Range) (rs : AckRangeTracker) → take (length rs) (shift_in (length rs) r rs) ≡ rs
unfolding shift_in
take-shift_in_end r [] = refl
take-shift_in_end r (x ∷ rs) = ap (◌∷◌ x) (take-shift_in_end r rs)

take-shift_in :
    (i n : ℕ) (r : Range) (rs : AckRangeTracker)
    → i ≤ n
    → length rs ≡ suc n
    → take (suc n) (shift_in i r rs) ≡ shift_in i r (take n rs)
unfolding shift_in
take-shift_in zero n r rs h e = refl
take-shift_in (suc i) n r [] h e = absurd (omega arith)
take-shift_in (suc i) zero r (x ∷ rs) h e = absurd (omega arith)
take-shift_in (suc i) (suc n) r (x ∷ rs) h e =
    ap (◌∷◌ x) (take-shift_in i n r rs (omega arith) (omega arith))

length-shift_in :
    (i : ℕ) (r : Range) (rs : AckRangeTracker) → length (shift_in i r rs) ≡ suc (length rs)
unfolding shift_in
length-shift_in zero r rs = refl
length-shift_in (suc i) r [] = refl
length-shift_in (suc i) r (x ∷ rs) = ap suc (length-shift_in i r rs)

insert_at-take :
    (i : ℕ) (r : Range) (rs : AckRangeTracker)
    → i ≤ length rs
    → length rs ≤ max_tracked_ranges
    → insert_at i r rs ≡ take max_tracked_ranges (shift_in i r rs)
unfolding insert_at
insert_at-take i r rs h l = elim (Bool-cases (length rs == 256)) [
  | inr room ↦
      rw room (sym (take_all 256 (shift_in i r rs) (ground (arith, length-shift_in i r rs))))
  | inl full ↦
      let e : length rs ≡ 256 = ground arith in
      elim (Bool-cases (i == length rs)) [
        | inl last ↦
            let d : i ≡ length rs = ground arith in
            rw (full, last)
              (subst (λ n. rs ≡ take n (shift_in i r rs)) e
                (subst (λ n. rs ≡ take (length rs) (shift_in n r rs)) (sym d)
                  (sym (take-shift_in_end r rs))))
        | inr inside ↦
            let fewer : length rs - 1 ≡ 255 = omega arith in
            rw (full, inside, fewer) (sym (take-shift_in i 255 r rs (ground arith) e))
      ]
]

scan-le-length : (pn : ℕ) (rs : AckRangeTracker) → scan pn rs ≤ length rs
unfolding scan
scan-le-length pn [] = omega arith
scan-le-length pn (r ∷ rs) = ground (arith, scan-le-length pn rs)

length-set_start : (rs : AckRangeTracker) (i pn : ℕ) → length (set_start rs i pn) ≡ length rs
unfolding set_start
length-set_start [] i pn = refl
length-set_start (r ∷ rs) zero pn = refl
length-set_start (r ∷ rs) (suc i) pn = ap suc (length-set_start rs i pn)

length-set_end : (rs : AckRangeTracker) (i pn : ℕ) → length (set_end rs i pn) ≡ length rs
unfolding set_end
length-set_end [] i pn = refl
length-set_end (r ∷ rs) zero pn = refl
length-set_end (r ∷ rs) (suc i) pn = ap suc (length-set_end rs i pn)

length-remove_at : (i : ℕ) (rs : AckRangeTracker) → length (remove_at i rs) ≤ length rs
unfolding remove_at
length-remove_at i [] = omega arith
length-remove_at zero (r ∷ rs) = omega arith
length-remove_at (suc i) (r ∷ rs) = omega (arith, length-remove_at i rs)

-- The branches of `record_at` and of `place_at` are the same but for the limit.
limit_if :
    (c : Bool) (a b x y : AckRangeTracker)
    → a ≡ take 256 x
    → b ≡ take 256 y
    → (if c then a else b) ≡ take 256 (if c then x else y)
limit_if true a b x y h k = h
limit_if false a b x y h k = k

record_at-place_at :
    (i pn : ℕ) (rs : AckRangeTracker)
    → i ≤ length rs
    → length rs ≤ max_tracked_ranges
    → record_at i pn rs ≡ take max_tracked_ranges (place_at i pn rs)
record_at-place_at i pn rs h l =
    let start = start_of (get_elem? rs i) in
    let merged : AckRangeTracker = remove_at i (set_start rs (i - 1) start) in
    let merged_short : length merged ≤ 256 =
      omega (
        arith,
        length-remove_at i (set_start rs (i - 1) start),
        length-set_start rs (i - 1) start,
      ) in
    let lower : AckRangeTracker = set_start rs (i - 1) pn in
    let lower_short : length lower ≤ 256 = omega (arith, length-set_start rs (i - 1) pn) in
    let upper : AckRangeTracker = set_end rs i pn in
    let upper_short : length upper ≤ 256 = omega (arith, length-set_end rs i pn) in
    unfold record_at place_at in
    limit_if _ _ _ _ _ (sym (take_all 256 rs l)) (
      limit_if _ _ _ _ _ (sym (take_all 256 merged merged_short)) (
        limit_if _ _ _ _ _ (sym (take_all 256 lower lower_short)) (
          limit_if _ _ _ _ _ (sym (take_all 256 upper upper_short))
            (insert_at-take i (record { start = pn; end = pn }) rs h l))))

-- On at most 256 ranges in descending order, disjoint and not adjacent, `record` inserts the number
-- and keeps the 256 highest ranges of the result.
pub record_pn-insert_pn :
    (pn b : ℕ) (rs : AckRangeTracker)
    → Under b rs
    → length rs ≤ max_tracked_ranges
    → record_pn pn rs ≡ take max_tracked_ranges (insert_pn pn rs)
record_pn-insert_pn pn b rs u l =
    unfold record_pn in
    record_at-place_at (scan pn rs) pn rs (scan-le-length pn rs) l
    ∙ ap (take 256) (place_at-scan pn b rs u)
