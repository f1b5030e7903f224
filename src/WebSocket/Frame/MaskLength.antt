-- ===== src/WebSocket/Frame/MaskLength.antt =====
-- The length of an unmasked payload (src/http/websocket_parser.cpp).
use bolt_api.Prelude.{
  ℕ, zero, suc, ◌+◌, ◌/◌, ◌≡◌, refl, ap, ◌∙◌, Bool, true, false, Bool-cases, leb, leb→le,
  if◌then◌else◌, List, [], ◌∷◌, length, length-append, length-drop, take, drop, bit_xor, inl, inr,
  arith,
}
use bolt_api.WebSocket.Frame.{unmask, unmask_bytes, unmask_words, rotated, load, word_bytes}

length-unmask_bytes :
    (key : List ℕ) (o : ℕ) (bs : List ℕ) → length (unmask_bytes key o bs) ≡ length bs
unfolding unmask_bytes
length-unmask_bytes key o [] = refl
length-unmask_bytes key o (b ∷ bs) = ap suc (length-unmask_bytes key (o + 1) bs)

length-word_bytes : (n w : ℕ) → length (word_bytes n w) ≡ n
unfolding word_bytes
length-word_bytes zero w = refl
length-word_bytes (suc n) w = ap suc (length-word_bytes n (w / 256))

length-unmask_words :
    (n mask64 : ℕ) (key : List ℕ) (o i : ℕ) (bs : List ℕ)
    → length (unmask_words n mask64 key o i bs) ≡ length bs
unfolding unmask_words
length-unmask_words zero mask64 key o i bs = length-unmask_bytes key (o + i) bs
length-unmask_words (suc n) mask64 key o i bs = elim (Bool-cases (leb 8 (length bs))) [
  | inr few ↦ rw few (length-unmask_bytes key (o + i) bs)
  | inl many ↦
      let rest : List ℕ = unmask_words n mask64 key o (i + 8) (drop 8 bs) in
      let word : ℕ = bit_xor (load (take 8 bs)) mask64 in
      rw many (
        length-append (word_bytes 8 word) rest
        ∙ omega (
          arith,
          length-word_bytes 8 word,
          length-unmask_words n mask64 key o (i + 8) (drop 8 bs),
          length-drop 8 bs,
          leb→le 8 (length bs) many,
        ))
]

pub length-plain :
    (masked : Bool) (key : List ℕ) (o : ℕ) (run : List ℕ)
    → length (if masked then unmask key o run else run) ≡ length run
unfolding unmask
length-plain true key o run = length-unmask_words (length run) (load (rotated key o 8)) key o 0 run
length-plain false key o run = refl
