-- ===== src/WebSocket/Frame/Mask.antt =====
-- The word loop of `unmask` against its byte loop (src/http/websocket_parser.cpp).
use bolt_api.Prelude.{
  ℕ, zero, suc, ◌+◌, ◌*◌, ◌/◌, ◌%◌, ◌≤◌, ◌<◌, ◌≡◌, refl, sym, ap, ap₂, ◌∙◌, Bool-cases, leb, leb→le,
  List, [], ◌∷◌, ◌++◌, some, get_elem?, length, length-take, take, drop, All, bit_xor, inl, inr,
  arith,
}
use bolt_api.Prelude.Bytes.{IsByte}
use bolt_api.Prelude.Bits.{bit_xor_append, bit_xor_twice, bit_xor-lt}
use bolt_api.Prelude.Bytes.{at}
use mathlib.Core.Option
use bolt_api.WebSocket.Frame.{rotated, load, word_bytes, unmask_bytes, unmask_words, unmask}

-- A word of eight bytes xor a word of eight bytes, byte by byte.
xor_bytes : List ℕ → List ℕ → List ℕ
xor_bytes [] ks = []
xor_bytes (b ∷ bs) [] = b ∷ bs
xor_bytes (b ∷ bs) (k ∷ ks) = bit_xor b k ∷ xor_bytes bs ks

word_bytes-xor :
    (bs ks : List ℕ)
    → All IsByte bs
    → All IsByte ks
    → length ks ≡ length bs
    → word_bytes (length bs) (bit_xor (load bs) (load ks)) ≡ xor_bytes bs ks
unfolding word_bytes load xor_bytes
word_bytes-xor [] ks hb hk l = refl
word_bytes-xor (b ∷ bs) [] hb hk l = absurd (omega (arith, l))
word_bytes-xor (b ∷ bs) (k ∷ ks) (hb, hbs) (hk, hks) l =
    let split : bit_xor (b + 256 * load bs) (k + 256 * load ks)
        ≡ bit_xor b k + 256 * bit_xor (load bs) (load ks) =
      ap₂ bit_xor (omega arith) (omega arith)
      ∙ bit_xor_append 8 (load bs) (load ks) b k hb hk
      ∙ omega arith in
    let small : bit_xor b k < 256 = bit_xor-lt 8 b k hb hk in
    let low : (bit_xor b k + 256 * bit_xor (load bs) (load ks)) % 256 ≡ bit_xor b k = omega arith in
    let high : (bit_xor b k + 256 * bit_xor (load bs) (load ks)) / 256
        ≡ bit_xor (load bs) (load ks) =
      omega arith in
    rw (split, low, high) (ap (◌∷◌ (bit_xor b k)) (word_bytes-xor bs ks hbs hks (omega (arith, l))))

at-IsByte : (key : List ℕ) (i : ℕ) → All IsByte key → IsByte (at key i)
at-IsByte [] i h = omega arith
at-IsByte (k ∷ key) zero (h, hs) = h
at-IsByte (k ∷ key) (suc i) (h, hs) = at-IsByte key i hs

rotated-IsByte : (key : List ℕ) (o n : ℕ) → All IsByte key → All IsByte (rotated key o n)
unfolding rotated
rotated-IsByte key o zero h = tt
rotated-IsByte key o (suc n) h = (at-IsByte key (o % 4) h, rotated-IsByte key (o + 1) n h)

length-rotated : (key : List ℕ) (o n : ℕ) → length (rotated key o n) ≡ n
unfolding rotated
length-rotated key o zero = refl
length-rotated key o (suc n) = ap suc (length-rotated key (o + 1) n)

-- The rotation only depends on the offset modulo 4.
rotated_mod : (key : List ℕ) (a b n : ℕ) → a % 4 ≡ b % 4 → rotated key a n ≡ rotated key b n
unfolding rotated
rotated_mod key a b zero e = refl
rotated_mod key a b (suc n) e =
    ap₂ ◌∷◌ (ap (at key) e) (rotated_mod key (a + 1) (b + 1) n (omega (arith, e)))

take-IsByte : (n : ℕ) (bs : List ℕ) → All IsByte bs → All IsByte (take n bs)
take-IsByte zero bs h = tt
take-IsByte (suc n) [] h = tt
take-IsByte (suc n) (b ∷ bs) (h, hs) = (h, take-IsByte n bs hs)

drop-IsByte : (n : ℕ) (bs : List ℕ) → All IsByte bs → All IsByte (drop n bs)
drop-IsByte zero bs h = h
drop-IsByte (suc n) [] h = tt
drop-IsByte (suc n) (b ∷ bs) (h, hs) = drop-IsByte n bs hs

-- `m` rounds of the byte loop.
unmask_bytes_split :
    (m : ℕ) (key : List ℕ) (o : ℕ) (bs : List ℕ)
    → m ≤ length bs
    → unmask_bytes key o bs
      ≡ xor_bytes (take m bs) (rotated key o m) ++ unmask_bytes key (o + m) (drop m bs)
unfolding unmask_bytes rotated xor_bytes
unmask_bytes_split zero key o bs h = ap (λ t. unmask_bytes key t bs) (omega arith)
unmask_bytes_split (suc m) key o [] h = absurd (omega (arith, h))
unmask_bytes_split (suc m) key o (b ∷ bs) h = ap (◌∷◌ (bit_xor b (at key (o % 4)))) (
    unmask_bytes_split m key (o + 1) bs (omega (arith, h))
    ∙ ap (λ t. xor_bytes (take m bs) (rotated key (o + 1) m) ++ unmask_bytes key t (drop m bs))
        (omega arith))

unmask_words_lem :
    (n i : ℕ) (key : List ℕ) (o : ℕ) (bs : List ℕ)
    → i % 4 ≡ 0
    → All IsByte key
    → All IsByte bs
    → unmask_words n (load (rotated key o 8)) key o i bs ≡ unmask_bytes key (o + i) bs
unfolding unmask_words
unmask_words_lem zero i key o bs e hk hb = refl
unmask_words_lem (suc n) i key o bs e hk hb = elim (Bool-cases (leb 8 (length bs))) [
  | inr few ↦ rw few refl
  | inl many ↦
      let le : 8 ≤ length bs = leb→le 8 (length bs) many in
      let ks : List ℕ = rotated key o 8 in
      let eight : length (take 8 bs) ≡ 8 = omega (arith, length-take 8 bs) in
      let word : word_bytes 8 (bit_xor (load (take 8 bs)) (load ks)) ≡ xor_bytes (take 8 bs) ks =
        ap (λ t. word_bytes t (bit_xor (load (take 8 bs)) (load ks))) (sym eight)
        ∙ word_bytes-xor (take 8 bs) ks (take-IsByte 8 bs hb) (rotated-IsByte key o 8 hk)
            (length-rotated key o 8 ∙ sym eight) in
      let tail : unmask_words n (load ks) key o (i + 8) (drop 8 bs)
          ≡ unmask_bytes key (o + i + 8) (drop 8 bs) =
        unmask_words_lem n (i + 8) key o (drop 8 bs) (omega (arith, e)) hk (drop-IsByte 8 bs hb)
        ∙ ap (λ t. unmask_bytes key t (drop 8 bs)) (omega arith) in
      let turned : xor_bytes (take 8 bs) ks ≡ xor_bytes (take 8 bs) (rotated key (o + i) 8) =
        ap (xor_bytes (take 8 bs)) (rotated_mod key o (o + i) 8 (omega (arith, e))) in
      rw many (ap₂ ◌++◌ (word ∙ turned) tail ∙ sym (unmask_bytes_split 8 key (o + i) bs le))
]

-- Taking eight bytes at a time, with the key rotated to the offset, gives what the byte loop gives
-- alone: byte `i` of the payload is combined with byte `(offset + i) % 4` of the key.
pub unmask-unmask_bytes :
    (key : List ℕ) (offset : ℕ) (bytes : List ℕ)
    → All IsByte key
    → All IsByte bytes
    → unmask key offset bytes ≡ unmask_bytes key offset bytes
unfolding unmask
unmask-unmask_bytes key o bs hk hb =
    unmask_words_lem (length bs) 0 key o bs (omega arith) hk hb
    ∙ ap (λ t. unmask_bytes key t bs) (omega arith)

unmask_bytes_twice :
    (key : List ℕ) (o : ℕ) (bs : List ℕ) → unmask_bytes key o (unmask_bytes key o bs) ≡ bs
unfolding unmask_bytes
unmask_bytes_twice key o [] = refl
unmask_bytes_twice key o (b ∷ bs) =
    ap₂ ◌∷◌ (bit_xor_twice b (at key (o % 4))) (unmask_bytes_twice key (o + 1) bs)

unmask_bytes-IsByte :
    (key : List ℕ) (o : ℕ) (bs : List ℕ)
    → All IsByte key
    → All IsByte bs
    → All IsByte (unmask_bytes key o bs)
unfolding unmask_bytes
unmask_bytes-IsByte key o [] hk h = tt
unmask_bytes-IsByte key o (b ∷ bs) hk (h, hs) = (
  bit_xor-lt 8 b (at key (o % 4)) h (at-IsByte key (o % 4) hk),
  unmask_bytes-IsByte key (o + 1) bs hk hs,
)

-- The byte at an index.
unmask_bytes-get :
    (key : List ℕ) (o i : ℕ) (bs : List ℕ)
    → get_elem? (unmask_bytes key o bs) i
      ≡ Option.map (λ b. bit_xor b (at key ((o + i) % 4))) (get_elem? bs i)
unfolding unmask_bytes
unmask_bytes-get key o i [] = refl
unmask_bytes-get key o zero (b ∷ bs) =
    ap (λ t. some (bit_xor b (at key (t % 4)))) (let e : o ≡ o + 0 = omega arith in e)
unmask_bytes-get key o (suc i) (b ∷ bs) =
    unmask_bytes-get key (o + 1) i bs
    ∙ ap (λ t. Option.map (λ b. bit_xor b (at key (t % 4))) (get_elem? bs i))
        (let e : o + 1 + i ≡ o + suc i = omega arith in e)

-- Byte `i` of a payload that is masked at an offset is its byte `i` combined with byte
-- `(offset + i) % 4` of the key, and masking twice gives the payload back.
pub unmask_lem :
    (key : List ℕ) (offset i : ℕ) (bytes : List ℕ)
    → All IsByte key
    → All IsByte bytes
    → (get_elem? (unmask key offset bytes) i
        ≡ Option.map (λ b. bit_xor b (at key ((offset + i) % 4))) (get_elem? bytes i))
      × (unmask key offset (unmask key offset bytes) ≡ bytes)
unmask_lem key o i bs hk hb =
    rw
      (
        unmask-unmask_bytes key o bs hk hb,
        unmask-unmask_bytes key o (unmask_bytes key o bs) hk (unmask_bytes-IsByte key o bs hk hb),
      )
      (unmask_bytes-get key o i bs, unmask_bytes_twice key o bs)
