-- ===== src/Webrtc/Replay/Refinement.antt =====
-- The replay window of include/boltapi/webrtc/srtp.h against the history of accepted indices.
use bolt_api.Prelude.{
  ℕ, ◌-◌, ◌^◌, ◌≤◌, ◌<◌, ◌≡◌, ◌≢◌, refl, sym, ap, ◌∙◌, subst, true, false, ltb, ◌==◌, Bool-cases,
  inl, inr, List, [], ◌∷◌, bit_or, arith,
}
use Prim.Native.Nat.{max}
use native.Mathlib.Decide.{dec_lt}
use bolt_api.Prelude.Digits.{bit_or-lt}
use bolt_api.Webrtc.Replay.{SsrcState, packet_index, shift_window, mark_window, replay_commit}
use bolt_api.Webrtc.Replay.Window.{
  window_bit, indicator, shift_low, shift_high, shift_word, window_bit-first, window_bit-others,
  bits_of_zero, mark_same, mark_other, mark_word,
}
use bolt_api.Webrtc.Replay.History.{maximum, elem, elem-maximum}

abbrev pub top : SsrcState → ℕ
top s = packet_index s.roc s.s_l

-- The bits are those of the history: bit `d` says whether index top - d was accepted.
abbrev Shows : ℕ → ℕ × ℕ → List ℕ → Type 0
Shows newest w xs =
    (d : ℕ) → d < 128 → d ≤ newest → window_bit d w ≡ indicator (elem (newest - d) xs)

abbrev pub Tracks : SsrcState → List ℕ → Type 0
Tracks s [] = s.seen ≡ false
Tracks s (x ∷ xs) =
    (s.seen ≡ true)
    × (s.window < 2 ^ 64)
    × (top s ≡ maximum (x ∷ xs))
    × Shows (top s) (s.window_hi, s.window) (x ∷ xs)

elem-head : (i : ℕ) (xs : List ℕ) → elem i (i ∷ xs) ≡ true
elem-head i xs = let e : (i == i) ≡ true = ground arith in rw e refl

elem-tail : (i x : ℕ) (xs : List ℕ) → i ≢ x → elem i (x ∷ xs) ≡ elem i xs
elem-tail i x xs ne = let e : (i == x) ≡ false = ground (arith, ne) in rw e refl

-- The newest index is the one of the lowest bit.
newest_bit :
    (d idx hi lo : ℕ) (xs : List ℕ)
    → d ≤ 0
    → window_bit d (hi, bit_or lo 1) ≡ indicator (elem (idx - d) (idx ∷ xs))
newest_bit d idx hi lo xs h =
    ap (λ t. window_bit t (hi, bit_or lo 1)) (let e : d ≡ 0 = omega arith in e)
    ∙ window_bit-first hi lo
    ∙ sym (
        ap indicator (
          ap (λ i. elem i (idx ∷ xs)) (let e : idx - d ≡ idx = omega arith in e)
          ∙ elem-head idx xs))

-- A first packet.
first-Shows : (idx : ℕ) → Shows idx (0, 1) (idx ∷ [])
first-Shows idx d h l = elim (dec_lt 0 d) [
  | yes positive ↦
      window_bit-others d 0 0 positive
      ∙ bits_of_zero d
      ∙ sym (ap indicator (elem-tail (idx - d) idx [] (λ e. omega (arith, e))))
  | no at_zero ↦ newest_bit d idx 0 0 [] (omega arith)
]

-- A packet that is newer than all: the window moves up.
newer-Shows :
    (newest idx hi lo : ℕ) (xs : List ℕ)
    → newest < idx
    → lo < 2 ^ 64
    → newest ≡ maximum xs
    → Shows newest (hi, lo) xs
    → let w = shift_window (idx - newest) hi lo in Shows idx (w.0, bit_or (w.1) 1) (idx ∷ xs)
newer-Shows newest idx hi lo xs newer word e shows d h l =
    let shift : ℕ = idx - newest in
    let w : ℕ × ℕ = shift_window shift hi lo in
    elim (dec_lt 0 d) [
      | no at_zero ↦ newest_bit d idx (w.0) (w.1) xs (omega arith)
      | yes positive ↦ window_bit-others d (w.0) (w.1) positive ∙ elim (dec_lt d shift) [
        | yes inside ↦
            shift_low hi lo d shift h inside
            ∙ sym (
                ap indicator (
                  elem-tail (idx - d) idx xs (λ e. omega (arith, e))
                  ∙ elem-maximum (idx - d) xs (omega (arith, e))))
        | no outside ↦
            shift_high hi lo d shift h word (omega arith) (omega arith)
            ∙ shows (d - shift) (omega arith) (omega arith)
            ∙ ap (λ i. indicator (elem i xs))
                (let i : newest - (d - shift) ≡ idx - d = omega arith in i)
            ∙ sym (ap indicator (elem-tail (idx - d) idx xs (λ e. omega (arith, e))))
      ]
    ]

-- A late packet: its bit is set.
older-Shows :
    (newest idx hi lo : ℕ) (xs : List ℕ)
    → idx ≤ newest
    → newest - idx < 128
    → Shows newest (hi, lo) xs
    → Shows newest (mark_window (newest - idx) hi lo) (idx ∷ xs)
older-Shows newest idx hi lo xs older inside shows d h l =
    let delta : ℕ = newest - idx in
    elim (Bool-cases (d == delta)) [
      | inl equal ↦
          let same : d ≡ delta = ground arith in
          ap (λ t. window_bit t (mark_window delta hi lo)) same
          ∙ mark_same delta hi lo inside
          ∙ sym (
              ap indicator (
                ap (λ i. elem i (idx ∷ xs)) (let i : newest - d ≡ idx = omega (arith, same) in i)
                ∙ elem-head idx xs))
      | inr unequal ↦
          let other : d ≢ delta = λ e. ground (arith, e) in
          mark_other delta hi lo inside d other
          ∙ shows d h l
          ∙ sym (ap indicator (elem-tail (newest - d) idx xs (λ e. other (omega (arith, e)))))
    ]

-- The commit of an index that the check lets pass.
module _ (s : SsrcState) (roc seq : ℕ) where
  pub commit_first :
      s.seen ≡ false
      → Tracks (replay_commit s roc seq (packet_index roc seq)) (packet_index roc seq ∷ [])
  unfolding replay_commit
  commit_first unseen = rw unseen (
    refl,
    omega arith,
    (let e : packet_index roc seq ≡ max (packet_index roc seq) 0 = omega arith in e),
    first-Shows (packet_index roc seq),
  )

  abbrev moved : SsrcState
  moved =
      let w = shift_window (packet_index roc seq - top s) s.window_hi s.window in
      record s { roc = roc; s_l = seq; window_hi = w.0; window = bit_or (w.1) 1 }

  abbrev marked : SsrcState
  marked =
      let w = mark_window (top s - packet_index roc seq) s.window_hi s.window in
      record s { window_hi = w.0; window = w.1 }

  pub commit_newer :
      (x : ℕ) (xs : List ℕ)
      → Tracks s (x ∷ xs)
      → top s < packet_index roc seq
      → Tracks (replay_commit s roc seq (packet_index roc seq)) (packet_index roc seq ∷ x ∷ xs)
  unfolding replay_commit
  commit_newer x xs (seen, word, e, shows) newer =
      let idx : ℕ = packet_index roc seq in
      let later : ltb (top s) idx ≡ true = ground (arith, newer) in
      let shift : ℕ = idx - top s in
      let done : replay_commit s roc seq idx ≡ moved = rw (seen, later) refl in
      subst (λ t. Tracks t (idx ∷ x ∷ xs)) (sym done)
        (
          seen,
          bit_or-lt 64 ((shift_window shift s.window_hi s.window).1) 1
              (shift_word shift s.window_hi s.window (omega arith)) (omega arith),
          omega (arith, e, newer),
          newer-Shows (top s) idx s.window_hi s.window (x ∷ xs) newer word e shows,
        )

  pub commit_older :
      (x : ℕ) (xs : List ℕ)
      → Tracks s (x ∷ xs)
      → packet_index roc seq ≤ top s
      → top s - packet_index roc seq < 128
      → Tracks (replay_commit s roc seq (packet_index roc seq)) (packet_index roc seq ∷ x ∷ xs)
  unfolding replay_commit
  commit_older x xs (seen, word, e, shows) older inside =
      let idx : ℕ = packet_index roc seq in
      let late : ltb (top s) idx ≡ false = ground (arith, older) in
      let done : replay_commit s roc seq idx ≡ marked = rw (seen, late) refl in
      subst (λ t. Tracks t (idx ∷ x ∷ xs)) (sym done)
        (
          seen,
          mark_word (top s - idx) s.window_hi s.window inside word,
          omega (arith, e, older),
          older-Shows (top s) idx s.window_hi s.window (x ∷ xs) older inside shows,
        )
