-- ===== src/Quic/Stream/ExtentLaws.antt =====
-- The offsets that an extent set covers, under `add` (include/boltapi/quic/stream.h).
use bolt_api.Prelude.{
  ℕ, suc, ◌≤◌, ◌<◌, ◌≡◌, refl, sym, ap, subst, ◌∙◌, Bool, true, false, ◌&&◌, ◌||◌, [], ◌∷◌, ◌++◌,
  some, ltb, leb, length, length-append, arith, Bool-cases, Option-cases, inl, inr,
}
use mathlib.Core.Option.{some-injective}
use bolt_api.Quic.Stream.Extents.{Extent, ExtentSet, max_recv_extents, widen, merge_into, add}

abbrev pub holds : ℕ → ℕ → ℕ → Bool
holds s e o = leb s o && ltb o e

abbrev pub covers : ExtentSet → ℕ → Bool
covers [] o = false
covers (x ∷ ext) o = holds x.start x.end o || covers ext o

-- No extent is empty, and none ends beyond `high`.
abbrev pub Within : ℕ → ExtentSet → Type 0
Within high [] = Unit
Within high (x ∷ ext) = (x.start < x.end) × (x.end ≤ high) × Within high ext

pub or_swap : (x y z : Bool) → (x || (y || z)) ≡ (y || (x || z))
or_swap true true z = refl
or_swap true false z = refl
or_swap false true z = refl
or_swap false false z = refl

or_move : (x y z : Bool) → (x || (y || z)) ≡ (x || y || z)
or_move true y z = refl
or_move false y z = refl

or_false : (x : Bool) → (x || false) ≡ x
or_false true = refl
or_false false = refl

or_comm : (x y : Bool) → (x || y) ≡ (y || x)
or_comm true true = refl
or_comm true false = refl
or_comm false true = refl
or_comm false false = refl

-- Widening takes in exactly the new offsets where the two overlap or touch.
holds-widen :
    (s e o : ℕ) (x : Extent)
    → s < e
    → x.start < x.end
    → s ≤ x.end
    → x.start ≤ e
    → holds (widen s e x).start (widen s e x).end o ≡ (holds s e o || holds x.start x.end o)
holds-widen s e o x h g l m = ground arith

-- What a successful `add` of [s, e) leaves.
pub record Added (s e high : ℕ) (ext merged : ExtentSet) : Type 0 where
  pub within : Within high merged
  pub covered : (o : ℕ) → covers merged o ≡ (holds s e o || covers ext o)

Added-head :
    (s e high : ℕ) (x : Extent) (ext : ExtentSet)
    → s < e
    → e ≤ high
    → Within high (x ∷ ext)
    → s ≤ x.end
    → x.start ≤ e
    → Added s e high (x ∷ ext) (widen s e x ∷ ext)
Added-head s e high x ext h k (ne, le, w) l m = record {
  within = (ground arith, ground arith, w);
  covered = λ o.
      ap (λ t. t || covers ext o) (holds-widen s e o x h ne l m)
      ∙ sym (or_move (holds s e o) (holds x.start x.end o) (covers ext o));
}

Added-tail :
    (s e high : ℕ) (x : Extent) (ext merged : ExtentSet)
    → Within high (x ∷ ext)
    → Added s e high ext merged
    → Added s e high (x ∷ ext) (x ∷ merged)
Added-tail s e high x ext merged (ne, le, w) a = record {
  within = (ne, le, a.within);
  covered = λ o.
      ap (λ t. holds x.start x.end o || t) (a.covered o)
      ∙ or_swap (holds x.start x.end o) (holds s e o) (covers ext o);
}

merge_into-Added :
    (s e high : ℕ) (ext merged : ExtentSet)
    → s < e
    → e ≤ high
    → Within high ext
    → merge_into s e ext ≡ some merged
    → Added s e high ext merged
unfolding merge_into
merge_into-Added s e high [] merged h k w g = cc
merge_into-Added s e high (x ∷ ext) merged h k w g =
    elim (Bool-cases (leb s x.end && leb x.start e)) [
      | inl touches ↦
          subst (Added s e high (x ∷ ext)) (some-injective _ _ (rw touches at g))
            (Added-head s e high x ext h k w (ground arith) (ground arith))
      | inr apart ↦ elim (Option-cases (merge_into s e ext)) [
        | inl missing ↦ cc (rw (apart, missing) at g)
        | inr (m, found) ↦
            subst (Added s e high (x ∷ ext)) (some-injective _ _ (rw (apart, found) at g))
              (Added-tail s e high x ext m w (merge_into-Added s e high ext m h k w.2 found))
      ]
    ]

Added-end :
    (s e high : ℕ) (ext : ExtentSet)
    → s < e
    → e ≤ high
    → Within high ext
    → Added s e high ext (ext ++ (record { start = s; end = e } ∷ []))
Added-end s e high [] h k w = record { within = (h, k, tt); covered = λ o. refl }
Added-end s e high (x ∷ ext) h k w = Added-tail s e high x ext _ w (Added-end s e high ext h k w.2)

-- `add` covers the new offsets and what was covered before, and nothing else.
pub add-Added :
    (s e high : ℕ) (ext merged : ExtentSet)
    → s < e
    → e ≤ high
    → Within high ext
    → add s e ext ≡ some merged
    → Added s e high ext merged
unfolding add
add-Added s e high ext merged h k w g = elim (Option-cases (merge_into s e ext)) [
  | inr (m, found) ↦
      subst (Added s e high ext) (some-injective _ _ (rw (found, add) at g))
        (merge_into-Added s e high ext m h k w found)
  | inl missing ↦ elim (Bool-cases (leb max_recv_extents (length ext))) [
    | inl full ↦ cc (rw (missing, add, full) at g)
    | inr room ↦
        subst (Added s e high ext) (some-injective _ _ (rw (missing, add, room) at g))
          (Added-end s e high ext h k w)
  ]
]

length-merge_into :
    (s e : ℕ) (ext merged : ExtentSet)
    → merge_into s e ext ≡ some merged
    → length merged ≡ length ext
unfolding merge_into
length-merge_into s e [] merged g = cc
length-merge_into s e (x ∷ ext) merged g = elim (Bool-cases (leb s x.end && leb x.start e)) [
  | inl touches ↦ ap length (sym (some-injective _ _ (rw touches at g)))
  | inr apart ↦ elim (Option-cases (merge_into s e ext)) [
    | inl missing ↦ cc (rw (apart, missing) at g)
    | inr (m, found) ↦
        ap length (sym (some-injective _ _ (rw (apart, found) at g)))
        ∙ ap suc (length-merge_into s e ext m found)
  ]
]

-- A set that was within its bound stays within it.
pub length-add :
    (s e : ℕ) (ext merged : ExtentSet)
    → length ext ≤ max_recv_extents
    → add s e ext ≡ some merged
    → length merged ≤ max_recv_extents
unfolding add
length-add s e ext merged h g = elim (Option-cases (merge_into s e ext)) [
  | inr (m, found) ↦ omega (
    arith,
    length-merge_into s e ext m found,
    ap length (some-injective _ _ (rw (found, add) at g)),
  )
  | inl missing ↦ elim (Bool-cases (leb max_recv_extents (length ext))) [
    | inl full ↦ cc (rw (missing, add, full) at g)
    | inr room ↦
        let below : length ext < 32 = ground arith in
        omega (
          arith,
          below,
          length-append ext (record { start = s; end = e } ∷ []),
          ap length (some-injective _ _ (rw (missing, add, room) at g)),
        )
  ]
]
