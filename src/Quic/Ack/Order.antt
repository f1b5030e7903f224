-- ===== src/Quic/Ack/Order.antt =====
-- The order of the ranges under `record`.
use bolt_api.Prelude.{
  ◌^◌, ℕ, zero, suc, ◌+◌, ◌≤◌, ◌<◌, ◌≡◌, [], ◌∷◌, length, length-take, take, arith,
}
use bolt_api.Quic.Ack.{Range, AckRangeTracker, max_tracked_ranges, record_pn}
use bolt_api.Quic.Ack.Insert.{Under, join, insert_pn, record_pn-insert_pn}

Under-mono : (b c : ℕ) (rs : AckRangeTracker) → b ≤ c → Under b rs → Under c rs
Under-mono b c [] h u = tt
Under-mono b c (r ∷ rs) h (ordered, clear, u) = (ordered, omega arith, u)

join-Under :
    (pn b : ℕ) (r : Range) (rs : AckRangeTracker)
    → Under b (r ∷ rs)
    → pn + 1 ≡ r.start
    → Under b (join pn r rs)
unfolding join
join-Under pn b r [] u e = ground arith
join-Under pn b r (s ∷ rs) u e = ground arith

pub insert_pn-Under :
    (pn b : ℕ) (rs : AckRangeTracker) → pn + 1 < b → Under b rs → Under b (insert_pn pn rs)
unfolding insert_pn
insert_pn-Under pn b [] h u = omega arith
insert_pn-Under pn b (r ∷ rs) h u =
    ground (arith, join-Under pn b r rs u, insert_pn-Under pn r.start rs)

take-Under : (n b : ℕ) (rs : AckRangeTracker) → Under b rs → Under b (take n rs)
take-Under zero b rs u = tt
take-Under (suc n) b [] u = tt
take-Under (suc n) b (r ∷ rs) (ordered, clear, u) = (ordered, clear, take-Under n r.start rs u)

-- What the asserts of the class say of its state: at most 256 ranges of legal packet numbers, in
-- descending order, disjoint and not adjacent.
pub record IsTracker (rs : AckRangeTracker) : Type 0 where
  pub under : Under (2 ^ 62 + 1) rs
  pub bounded : length rs ≤ max_tracked_ranges

-- For a legal packet number, `record` keeps the ranges in order, disjoint, not adjacent and within
-- the array.
pub record_pn-IsTracker :
    (pn : ℕ) (rs : AckRangeTracker) → pn < 2 ^ 62 → IsTracker rs → IsTracker (record_pn pn rs)
record_pn-IsTracker pn rs h t =
    rw (record_pn-insert_pn pn (2 ^ 62 + 1) rs t.under t.bounded) (record {
      under = take-Under 256 _ _ (insert_pn-Under pn _ rs (omega arith) t.under);
      bounded = omega (arith, length-take 256 (insert_pn pn rs));
    })
