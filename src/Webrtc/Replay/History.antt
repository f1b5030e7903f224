-- ===== src/Webrtc/Replay/History.antt =====
-- What a replay check promises, over the list of the packet indices that were accepted.
use bolt_api.Prelude.{
  ℕ, ◌-◌, ◌<◌, ◌≡◌, refl, Bool, true, false, not, ◌&&◌, ◌||◌, ltb, ◌==◌, if◌then◌else◌, ltb→lt,
  Bool-cases, inl, inr, List, [], ◌∷◌, arith,
}
use Prim.Native.Nat.{max}

abbrev pub maximum : List ℕ → ℕ
maximum [] = 0
maximum (x ∷ xs) = max x (maximum xs)

abbrev pub elem : ℕ → List ℕ → Bool
elem i [] = false
elem i (x ∷ xs) = if i == x then true else elem i xs

-- An index is acceptable when it is newer than all, or is one of the 128 up to the newest that was
-- not accepted yet.
unfoldable pub accepts : List ℕ → ℕ → Bool
accepts [] idx = true
accepts (x ∷ xs) idx =
    let top = maximum (x ∷ xs) in ltb top idx || (ltb (top - idx) 128 && not (elem idx (x ∷ xs)))

pub elem-maximum : (i : ℕ) (xs : List ℕ) → maximum xs < i → elem i xs ≡ false
elem-maximum i [] h = refl
elem-maximum i (x ∷ xs) h =
    let other : (i == x) ≡ false = ground (arith, h) in
    rw other (elem-maximum i xs (omega (arith, h)))

-- No index twice.
abbrev pub IsDistinct : List ℕ → Type 0
IsDistinct [] = Unit
IsDistinct (x ∷ xs) = (elem x xs ≡ false) × IsDistinct xs

pub accepts-elem : (xs : List ℕ) (idx : ℕ) → accepts xs idx ≡ true → elem idx xs ≡ false
unfolding accepts
accepts-elem [] idx h = refl
accepts-elem (x ∷ xs) idx h = elim (Bool-cases (ltb (maximum (x ∷ xs)) idx)) [
  | inl newer ↦ elem-maximum idx (x ∷ xs) (ltb→lt (maximum (x ∷ xs)) idx newer)
  | inr older ↦
      second (ltb (maximum (x ∷ xs)) idx) (ltb (maximum (x ∷ xs) - idx) 128) (elem idx (x ∷ xs))
        older h
]
  where
    second : (a b c : Bool) → a ≡ false → (a || (b && not c)) ≡ true → c ≡ false
    second true b c e h = cc
    second false true true e h = cc
    second false true false e h = refl
    second false false c e h = cc
