-- ===== src/Quic/Stream/AbsorbLaws.antt =====
-- The offsets that an extent set covers, under `absorb` (include/boltapi/quic/stream.h).
use bolt_api.Prelude.{
  ℕ, zero, suc, ◌≤◌, ◌<◌, ◌≡◌, refl, sym, ap, subst, ◌∙◌, Bool, false, ◌||◌, [], ◌∷◌, none, some,
  ltb, leb, length, if◌then◌else◌, arith, Bool-cases, Option-cases, inl, inr,
}
use mathlib.Core.Option.{some-injective}
use bolt_api.Quic.Stream.Extents.{
  Extent, ExtentSet, max_recv_extents, find_reached, put_second, last_first, swap_remove, end_at,
  absorb_rounds, absorb,
}
use bolt_api.Quic.Stream.ExtentLaws.{holds, covers, Within, or_swap}

put_second-covers :
    (x : Extent) (ext : ExtentSet) (o : ℕ) → covers (put_second x ext) o ≡ covers (x ∷ ext) o
unfolding put_second
put_second-covers x [] o = refl
put_second-covers x (l ∷ front) o =
    or_swap (holds l.start l.end o) (holds x.start x.end o) (covers front o)

last_first-covers :
    (x : Extent) (ext : ExtentSet) (o : ℕ) → covers (last_first x ext) o ≡ covers (x ∷ ext) o
unfolding last_first
last_first-covers x [] o = refl
last_first-covers x (y ∷ ext) o =
    put_second-covers x (last_first y ext) o
    ∙ ap (λ t. holds x.start x.end o || t) (last_first-covers y ext o)

put_second-Within :
    (high : ℕ) (x : Extent) (ext : ExtentSet)
    → Within high (x ∷ ext)
    → Within high (put_second x ext)
unfolding put_second
put_second-Within high x [] w = w
put_second-Within high x (l ∷ front) (a, b, (c, d, w)) = (c, d, (a, b, w))

last_first-Within :
    (high : ℕ) (x : Extent) (ext : ExtentSet)
    → Within high (x ∷ ext)
    → Within high (last_first x ext)
unfolding last_first
last_first-Within high x [] w = w
last_first-Within high x (y ∷ ext) (a, b, w) =
    put_second-Within high x (last_first y ext) (a, b, last_first-Within high y ext w)

length-put_second : (x : Extent) (ext : ExtentSet) → length (put_second x ext) ≡ suc (length ext)
unfolding put_second
length-put_second x [] = refl
length-put_second x (l ∷ front) = refl

length-last_first : (x : Extent) (ext : ExtentSet) → length (last_first x ext) ≡ suc (length ext)
unfolding last_first
length-last_first x [] = refl
length-last_first x (y ∷ ext) =
    length-put_second x (last_first y ext) ∙ ap suc (length-last_first y ext)

-- What one removal takes away: an extent that the cursor reaches, and nothing else.
record Removed (cursor i : ℕ) (ext : ExtentSet) (high : ℕ) : Type 0 where
  start : ℕ
  reached : start ≤ cursor
  grows : start < end_at i ext
  bounded : end_at i ext ≤ high
  rest : Within high (swap_remove i ext)
  shorter : suc (length (swap_remove i ext)) ≡ length ext
  split : (o : ℕ) → covers ext o ≡ (holds start (end_at i ext) o || covers (swap_remove i ext) o)

Removed-head :
    (cursor high : ℕ) (x : Extent) (ext : ExtentSet)
    → Within high (x ∷ ext)
    → x.start ≤ cursor
    → Removed cursor 0 (x ∷ ext) high
unfolding swap_remove end_at
Removed-head cursor high x [] (ne, le, w) h = record {
  start = x.start;
  reached = h;
  grows = ne;
  bounded = le;
  rest = tt;
  shorter = refl;
  split = λ o. refl;
}
Removed-head cursor high x (y ∷ ext) (ne, le, w) h = record {
  start = x.start;
  reached = h;
  grows = ne;
  bounded = le;
  rest = last_first-Within high y ext w;
  shorter = ap suc (length-last_first y ext);
  split = λ o. ap (λ t. holds x.start x.end o || t) (sym (last_first-covers y ext o));
}

Removed-tail :
    (cursor i high : ℕ) (x : Extent) (ext : ExtentSet)
    → Within high (x ∷ ext)
    → Removed cursor i ext high
    → Removed cursor (suc i) (x ∷ ext) high
unfolding swap_remove end_at
Removed-tail cursor i high x ext (ne, le, w) r = record {
  start = r.start;
  reached = r.reached;
  grows = r.grows;
  bounded = r.bounded;
  rest = (ne, le, r.rest);
  shorter = ap suc r.shorter;
  split = λ o.
      ap (λ t. holds x.start x.end o || t) (r.split o)
      ∙ or_swap (holds x.start x.end o) (holds r.start (end_at i ext) o)
          (covers (swap_remove i ext) o);
}

find_reached-Removed :
    (cursor i high : ℕ) (ext : ExtentSet)
    → Within high ext
    → find_reached cursor ext ≡ some i
    → Removed cursor i ext high
unfolding find_reached
find_reached-Removed cursor i high [] w e = cc
find_reached-Removed cursor i high (x ∷ ext) w e = elim (Bool-cases (leb x.start cursor)) [
  | inl here ↦
      subst (λ i. Removed cursor i (x ∷ ext) high) (some-injective _ _ (rw here at e))
        (Removed-head cursor high x ext w (ground arith))
  | inr further ↦ elim (Option-cases (find_reached cursor ext)) [
    | inl missing ↦ cc (rw (further, missing) at e)
    | inr (j, found) ↦
        subst (λ i. Removed cursor i (x ∷ ext) high) (some-injective _ _ (rw (further, found) at e))
          (Removed-tail cursor j high x ext w (find_reached-Removed cursor j high ext w.2 found))
  ]
]

-- A cursor that no extent reaches stands below all of them.
find_reached-covers :
    (cursor : ℕ) (ext : ExtentSet) → find_reached cursor ext ≡ none → covers ext cursor ≡ false
unfolding find_reached
find_reached-covers cursor [] e = refl
find_reached-covers cursor (x ∷ ext) e = elim (Bool-cases (leb x.start cursor)) [
  | inl here ↦ cc (rw here at e)
  | inr further ↦ elim (Option-cases (find_reached cursor ext)) [
    | inl missing ↦ ground (arith, find_reached-covers cursor ext missing)
    | inr (j, found) ↦ cc (rw (further, found) at e)
  ]
]

-- What `absorb` leaves: the same offsets below the cursor or in an extent, and a cursor at the
-- end of the contiguous ones.
pub record Absorbed (cursor high : ℕ) (ext : ExtentSet) (r : ℕ × ExtentSet) : Type 0 where
  pub forward : cursor ≤ r.0
  pub bounded : r.0 ≤ high
  pub within : Within high r.1
  pub same : (o : ℕ) → (ltb o r.0 || covers r.1 o) ≡ (ltb o cursor || covers ext o)
  pub gap : covers r.1 r.0 ≡ false
  pub short : length r.1 ≤ length ext

-- One removal moves offsets of an extent below the cursor.
removal :
    (cursor start end o : ℕ) (below : Bool)
    → start ≤ cursor
    → (ltb o (if ltb cursor end then end else cursor) || below)
      ≡ (ltb o cursor || (holds start end o || below))
removal cursor start end o below h = ground arith

absorb_rounds-Absorbed :
    (n cursor high : ℕ) (ext : ExtentSet)
    → length ext < n
    → cursor ≤ high
    → Within high ext
    → Absorbed cursor high ext (absorb_rounds n cursor ext)
unfolding absorb_rounds
absorb_rounds-Absorbed zero cursor high ext l h w = absurd (omega arith)
absorb_rounds-Absorbed (suc n) cursor high ext l h w =
    elim (Option-cases (find_reached cursor ext)) [
      | inl missing ↦
          rw (missing, absorb_rounds)
            (record {
              forward = omega arith;
              bounded = h;
              within = w;
              same = λ o. refl;
              gap = find_reached-covers cursor ext missing;
              short = omega arith;
            })
      | inr (i, found) ↦
          let r : Removed cursor i ext high = find_reached-Removed cursor i high ext w found in
          let e = end_at i ext in
          let next : ℕ = if ltb cursor e then e else cursor in
          let a : Absorbed next high (swap_remove i ext)
              (absorb_rounds n next (swap_remove i ext)) =
            absorb_rounds-Absorbed n next high (swap_remove i ext) (omega (arith, r.shorter))
              (ground (arith, r.bounded)) r.rest in
          rw (found, absorb_rounds)
            (record {
              forward = ground (arith, a.forward);
              bounded = a.bounded;
              within = a.within;
              same = λ o.
                  a.same o
                  ∙ removal cursor r.start e o (covers (swap_remove i ext) o) r.reached
                  ∙ ap (λ t. ltb o cursor || t) (sym (r.split o));
              gap = a.gap;
              short = omega (arith, a.short, r.shorter);
            })
    ]

pub absorb-Absorbed :
    (cursor high : ℕ) (ext : ExtentSet)
    → length ext ≤ max_recv_extents
    → cursor ≤ high
    → Within high ext
    → Absorbed cursor high ext (absorb cursor ext)
unfolding absorb
absorb-Absorbed cursor high ext l h w = absorb_rounds-Absorbed 33 cursor high ext (omega arith) h w
