-- ===== src/Quic/Stream/Extents.antt =====
-- include/boltapi/quic/stream.h, ExtentSet: a bounded set of [start, end) extents, as the list of
-- its first `count` entries.
use bolt_api.Prelude.{
  ℕ, zero, suc, ◌+◌, ◌&&◌, List, [], ◌∷◌, ◌++◌, Option, none, some, ltb, leb, length, if◌then◌else◌,
}

abbrev pub max_recv_extents : ℕ
max_recv_extents = 32

pub record Extent : Type 0 where
  pub start : ℕ
  pub end : ℕ

abbrev pub ExtentSet : Type 0
ExtentSet = List Extent

abbrev pub widen : ℕ → ℕ → Extent → Extent
widen s e x = record {
  start = if ltb s x.start then s else x.start;
  end = if ltb x.end e then e else x.end;
}

-- The loop of `add`: widen the first extent that [s, e) overlaps or touches.
unfoldable pub merge_into : ℕ → ℕ → ExtentSet → Option ExtentSet
merge_into s e [] = none
merge_into s e (x ∷ ext) =
    if leb s x.end && leb x.start e
    then some (widen s e x ∷ ext)
    else elim (merge_into s e ext) [ none ↦ none | some merged ↦ some (x ∷ merged) ]

-- `none` when the set is full.
unfoldable pub add : ℕ → ℕ → ExtentSet → Option ExtentSet
unfolding merge_into
add s e ext = elim (merge_into s e ext) [
  | some merged ↦ some merged
  | none ↦
      if leb max_recv_extents (length ext)
      then none
      else some (ext ++ (record { start = s; end = e } ∷ []))
]

-- The first extent that the cursor reaches.
unfoldable pub find_reached : ℕ → ExtentSet → Option ℕ
find_reached cursor [] = none
find_reached cursor (x ∷ ext) =
    if leb x.start cursor
    then some 0
    else elim (find_reached cursor ext) [ none ↦ none | some i ↦ some (suc i) ]

unfoldable pub put_second : Extent → ExtentSet → ExtentSet
put_second x [] = x ∷ []
put_second x (l ∷ front) = l ∷ x ∷ front

-- The last extent in front of the others.
unfoldable pub last_first : Extent → ExtentSet → ExtentSet
unfolding put_second
last_first x [] = x ∷ []
last_first x (y ∷ ext) = put_second x (last_first y ext)

-- `ext[i] = ext[--count]`.
unfoldable pub swap_remove : ℕ → ExtentSet → ExtentSet
unfolding last_first
swap_remove i [] = []
swap_remove zero (x ∷ []) = []
swap_remove zero (x ∷ y ∷ ext) = last_first y ext
swap_remove (suc i) (x ∷ ext) = x ∷ swap_remove i ext

unfoldable pub end_at : ℕ → ExtentSet → ℕ
end_at i [] = 0
end_at zero (x ∷ ext) = x.end
end_at (suc i) (x ∷ ext) = end_at i ext

-- The rounds of `absorb`, `n` of them left.
unfoldable pub absorb_rounds : ℕ → ℕ → ExtentSet → ℕ × ExtentSet
unfolding find_reached swap_remove end_at
absorb_rounds zero cursor ext = (cursor, ext)
absorb_rounds (suc n) cursor ext = elim (find_reached cursor ext) [
  | none ↦ (cursor, ext)
  | some i ↦
      absorb_rounds n (if ltb cursor (end_at i ext) then end_at i ext else cursor)
        (swap_remove i ext)
]

unfoldable pub absorb : ℕ → ExtentSet → ℕ × ExtentSet
unfolding absorb_rounds
absorb = absorb_rounds (max_recv_extents + 1)
