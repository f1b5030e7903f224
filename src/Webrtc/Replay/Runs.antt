-- ===== src/Webrtc/Replay/Runs.antt =====
-- Runs of unprotect_rtp (include/boltapi/webrtc/srtp.h) over one source.
use bolt_api.Prelude.{
  ℕ, ◌-◌, ◌^◌, ◌≡◌, refl, sym, ap, subst, ◌∙◌, Bool, true, false, not, ◌&&◌, ◌||◌, ltb, leb, ltb→lt,
  ◌==◌, if◌then◌else◌, Bool-cases, inl, inr, List, [], ◌∷◌, bit_and, arith,
}
use bolt_api.Prelude.Digits.{clear-bit}
use bolt_api.Webrtc.Replay.{
  SsrcState, new_slot, guess_roc, packet_index, replay_ok, replay_commit, Unprotected, replay_error,
  auth_fail, crypto_fail, unprotected, Opened, deciphered, wrong_tag, failed_call, settle,
  unprotect_rtp,
}
use bolt_api.Webrtc.Replay.Window.{window_bit, indicator}
use bolt_api.Webrtc.Replay.History.{elem, accepts, IsDistinct, accepts-elem}
use bolt_api.Webrtc.Replay.Refinement.{top, Tracks, commit_first, commit_newer, commit_older}

-- The test of one bit, in the word that has it.
bit_test :
    (d hi lo : ℕ)
    → (if ltb d 64 then bit_and lo (2 ^ d) == 0 else bit_and hi (2 ^ (d - 64)) == 0)
      ≡ (window_bit d (hi, lo) == 0)
bit_test d hi lo = elim (Bool-cases (ltb d 64)) [
  | inl low ↦ rw low (clear-bit d lo)
  | inr high ↦ rw high (clear-bit (d - 64) hi)
]

not-indicator : (b : Bool) → (indicator b == 0) ≡ not b
not-indicator true = refl
not-indicator false = refl

-- What the check decides, over the newest index.
abbrev decision : ℕ → List ℕ → ℕ → Bool
decision newest xs idx = ltb newest idx || (ltb (newest - idx) 128 && not (elem idx xs))

module _ (s : SsrcState) (idx : ℕ) where
  replay_ok-decision :
      (x : ℕ) (xs : List ℕ) → Tracks s (x ∷ xs) → replay_ok s idx ≡ decision (top s) (x ∷ xs) idx
  unfolding replay_ok
  replay_ok-decision x xs (seen, word, e, shows) = elim (Bool-cases (ltb (top s) idx)) [
    | inl later ↦ rw (seen, later) refl
    | inr late ↦ elim (Bool-cases (leb 128 (top s - idx))) [
      | inl far ↦
          let outside : ltb (top s - idx) 128 ≡ false = ground (arith, far) in
          rw (seen, late, far, outside) refl
      | inr near ↦
          let inside : ltb (top s - idx) 128 ≡ true = ground (arith, near) in
          let d : ℕ = top s - idx in
          rw (seen, late, near, inside)
            (bit_test d s.window_hi s.window
              ∙ ap (λ t. t == 0)
                  (shows d (ltb→lt d 128 inside) (omega arith)
                    ∙ ap (λ i. indicator (elem i (x ∷ xs)))
                        (let i : top s - d ≡ idx = ground (arith, late) in i))
              ∙ not-indicator (elem idx (x ∷ xs)))
    ]
  ]

  replay_ok-accepts : (xs : List ℕ) → Tracks s xs → replay_ok s idx ≡ accepts xs idx
  unfolding replay_ok accepts
  replay_ok-accepts [] unseen = rw unseen refl
  replay_ok-accepts (x ∷ xs) tracks =
      replay_ok-decision x xs tracks ∙ ap (λ t. decision t (x ∷ xs) idx) (tracks.2)

-- An index that passes the check is committed.
replay_commit-Tracks :
    (s : SsrcState) (roc seq : ℕ) (xs : List ℕ)
    → Tracks s xs
    → replay_ok s (packet_index roc seq) ≡ true
    → Tracks (replay_commit s roc seq (packet_index roc seq)) (packet_index roc seq ∷ xs)
replay_commit-Tracks s roc seq [] unseen ok = commit_first s roc seq unseen
replay_commit-Tracks s roc seq (x ∷ xs) tracks ok =
    let idx : ℕ = packet_index roc seq in
    let passed : decision (top s) (x ∷ xs) idx ≡ true =
      sym (replay_ok-decision s idx x xs tracks) ∙ ok in
    elim (Bool-cases (ltb (top s) idx)) [
      | inl later ↦ commit_newer s roc seq x xs tracks (ltb→lt (top s) idx later)
      | inr late ↦
          let near : ltb (top s - idx) 128 ≡ true =
            first (ltb (top s) idx) (ltb (top s - idx) 128) (not (elem idx (x ∷ xs))) late passed in
          commit_older s roc seq x xs tracks (ground (arith, late)) (ltb→lt (top s - idx) 128 near)
    ]
  where
    first : (a b c : Bool) → a ≡ false → (a || (b && c)) ≡ true → b ≡ true
    first true b c e h = cc
    first false true c e h = refl
    first false false c e h = cc

-- The indices accepted so far, the last one first.
abbrev pub log : Unprotected → ℕ → List ℕ → List ℕ
log unprotected idx xs = idx ∷ xs
log auth_fail idx xs = xs
log crypto_fail idx xs = xs
log replay_error idx xs = xs

-- The states that packets lead to, with what was accepted. Each packet has its own contents, so two
-- packets with one index may differ in what the library makes of them.
pub data Run : SsrcState → List ℕ → Type 0 where
  start : (ssrc : ℕ) → Run (new_slot ssrc) []
  packet :
      {s : SsrcState} {xs : List ℕ} (verify : ℕ → Opened) (seq : ℕ)
      → Run s xs
      → Run
          ((unprotect_rtp verify s seq).1)
          (log ((unprotect_rtp verify s seq).0) (packet_index (guess_roc s seq) seq) xs)

-- What the receiver owes to a packet, by the history of accepted indices alone.
abbrev pub verdict : Bool → Opened → Unprotected
verdict false result = replay_error
verdict true deciphered = unprotected
verdict true wrong_tag = auth_fail
verdict true failed_call = crypto_fail

settle-Tracks :
    (result : Opened) (committed s : SsrcState) (idx : ℕ) (xs : List ℕ)
    → Tracks committed (idx ∷ xs)
    → Tracks s xs
    → Tracks ((settle result committed s).1) (log ((settle result committed s).0) idx xs)
settle-Tracks deciphered committed s idx xs taken kept = taken
settle-Tracks wrong_tag committed s idx xs taken kept = kept
settle-Tracks failed_call committed s idx xs taken kept = kept

settle-verdict :
    (result : Opened) (committed s : SsrcState)
    → (settle result committed s).0 ≡ verdict true result
settle-verdict deciphered committed s = refl
settle-verdict wrong_tag committed s = refl
settle-verdict failed_call committed s = refl

packet-Tracks :
    (verify : ℕ → Opened) (s : SsrcState) (xs : List ℕ) (seq : ℕ)
    → Tracks s xs
    → Tracks
        ((unprotect_rtp verify s seq).1)
        (log ((unprotect_rtp verify s seq).0) (packet_index (guess_roc s seq) seq) xs)
unfolding unprotect_rtp
packet-Tracks verify s xs seq tracks =
    let roc : ℕ = guess_roc s seq in
    let idx : ℕ = packet_index roc seq in
    elim (Bool-cases (replay_ok s idx)) [
      | inr refused ↦ rw refused tracks
      | inl passed ↦ rw passed (
          settle-Tracks (verify idx) (replay_commit s roc seq idx) s idx xs
            (replay_commit-Tracks s roc seq xs tracks passed) tracks)
    ]

Run-Tracks : {s : SsrcState} {xs : List ℕ} → Run s xs → Tracks s xs
Run-Tracks (start ssrc) = refl
Run-Tracks (packet {s} {xs} verify seq run) = packet-Tracks verify s xs seq (Run-Tracks run)

-- For every run of packets of one source, in any order, each genuine, forged or failing in the
-- cryptographic library on its own: the next packet is answered as the history of accepted indices
-- says. It is a replay unless its index is newer than all of them, or one of the 128 up to the
-- newest that was not accepted; else what the library makes of it decides.
pub unprotect_rtp-accepts :
    (verify : ℕ → Opened) (s : SsrcState) (xs : List ℕ) (seq : ℕ)
    → Run s xs
    → let idx = packet_index (guess_roc s seq) seq in
      (unprotect_rtp verify s seq).0 ≡ verdict (accepts xs idx) (verify idx)
unfolding unprotect_rtp
unprotect_rtp-accepts verify s xs seq run =
    let roc : ℕ = guess_roc s seq in
    let idx : ℕ = packet_index roc seq in
    let same : replay_ok s idx ≡ accepts xs idx = replay_ok-accepts s idx xs (Run-Tracks run) in
    elim (Bool-cases (replay_ok s idx)) [
      | inr refused ↦ let e : accepts xs idx ≡ false = sym same ∙ refused in rw (refused, e) refl
      | inl passed ↦
          let e : accepts xs idx ≡ true = sym same ∙ passed in
          rw (passed, e) (settle-verdict (verify idx) (replay_commit s roc seq idx) s)
    ]

logged-IsDistinct :
    (xs : List ℕ) (idx : ℕ) (result : Opened)
    → IsDistinct xs
    → IsDistinct (log (verdict (accepts xs idx) result) idx xs)
logged-IsDistinct xs idx result d = elim (Bool-cases (accepts xs idx)) [
  | inr refused ↦ rw refused d
  | inl passed ↦ rw passed (settled result (accepts-elem xs idx passed))
]
  where
    settled :
        (result : Opened) → elem idx xs ≡ false → IsDistinct (log (verdict true result) idx xs)
    settled deciphered new = (new, d)
    settled wrong_tag new = d
    settled failed_call new = d

-- No packet index is accepted twice, in any run of packets of one source, each genuine, forged or
-- failing in the cryptographic library on its own.
pub Run-IsDistinct : (s : SsrcState) (xs : List ℕ) → Run s xs → IsDistinct xs
Run-IsDistinct _ _ (start ssrc) = tt
Run-IsDistinct _ _ (packet {s} {xs} verify seq run) =
    let idx : ℕ = packet_index (guess_roc s seq) seq in
    subst (λ r. IsDistinct (log r idx xs)) (sym (unprotect_rtp-accepts verify s xs seq run))
      (logged-IsDistinct xs idx (verify idx) (Run-IsDistinct s xs run))
