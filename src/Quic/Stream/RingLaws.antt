-- ===== src/Quic/Stream/RingLaws.antt =====
-- The rings: what a copy writes, and what it leaves.
use bolt_api.Prelude.{
  ◌⊎◌, ℕ, zero, suc, ◌+◌, ◌-◌, ◌%◌, ◌≤◌, ◌<◌, ◌≡◌, refl, sym, ap, ap₂, length-drop, ◌∙◌, subst,
  List, [], ◌∷◌, ◌++◌, ltb, ◌==◌, length, length-take, take, drop, arith, Bool-cases, inl, inr,
  false,
}
use bolt_api.Quic.Stream.Ring.{stream_buffer_size, Buffer, put_byte, copy_to, ring_copy, view}

-- A byte at a time, each at the index of its offset.
pub ring_write : Buffer → ℕ → List ℕ → Buffer
ring_write buf at [] = buf
ring_write buf at (b ∷ bytes) = ring_write (put_byte buf (at % stream_buffer_size) b) (at + 1) bytes

copy_to-ring_write :
    (buf : Buffer) (at : ℕ) (bytes : List ℕ)
    → at % stream_buffer_size + length bytes ≤ stream_buffer_size
    → copy_to buf (at % stream_buffer_size) bytes ≡ ring_write buf at bytes
unfolding copy_to ring_write
copy_to-ring_write buf at [] h = refl
copy_to-ring_write buf at (b ∷ []) h = refl
copy_to-ring_write buf at (b ∷ c ∷ bytes) h =
    let next : at % stream_buffer_size + 1 ≡ (at + 1) % stream_buffer_size = omega arith in
    let buf' : Buffer = put_byte buf (at % stream_buffer_size) b in
    ap (λ t. copy_to buf' t (c ∷ bytes)) next
    ∙ copy_to-ring_write (put_byte buf (at % stream_buffer_size) b) (at + 1) (c ∷ bytes)
        (omega arith)

ring_write-append :
    (buf : Buffer) (at : ℕ) (xs ys : List ℕ)
    → ring_write buf at (xs ++ ys) ≡ ring_write (ring_write buf at xs) (at + length xs) ys
unfolding ring_write
ring_write-append buf at [] ys =
    let e : at ≡ at + 0 = omega arith in ap (λ t. ring_write buf t ys) e
ring_write-append buf at (x ∷ xs) ys =
    let e : at + 1 + length xs ≡ at + suc (length xs) = omega arith in
    ring_write-append (put_byte buf (at % stream_buffer_size) x) (at + 1) xs ys
    ∙ ap (λ t. ring_write (ring_write (put_byte buf (at % stream_buffer_size) x) (at + 1) xs) t ys)
        e

take_append_drop : (n : ℕ) (xs : List ℕ) → take n xs ++ drop n xs ≡ xs
take_append_drop zero xs = refl
take_append_drop (suc n) [] = refl
take_append_drop (suc n) (x ∷ xs) = ap (◌∷◌ x) (take_append_drop n xs)

take_whole : (xs : List ℕ) → take (length xs) xs ≡ xs
take_whole [] = refl
take_whole (x ∷ xs) = ap (◌∷◌ x) (take_whole xs)

drop_whole : (xs : List ℕ) → drop (length xs) xs ≡ []
drop_whole [] = refl
drop_whole (x ∷ xs) = drop_whole xs

copy_twice :
    (buf : Buffer) (at room : ℕ) (bytes : List ℕ)
    → at % stream_buffer_size + room ≡ stream_buffer_size
    → room ≤ length bytes
    → length bytes ≤ stream_buffer_size
    → copy_to (copy_to buf (at % stream_buffer_size) (take room bytes)) 0 (drop room bytes)
      ≡ ring_write buf at bytes
copy_twice buf at room bytes e h l =
    let size : length (take room bytes) ≡ room = omega (arith, length-take room bytes) in
    let start : 0 ≡ (at + length (take room bytes)) % stream_buffer_size = omega arith in
    let front : Buffer = ring_write buf at (take room bytes) in
    ap₂ (λ f p. copy_to f p (drop room bytes))
      (copy_to-ring_write buf at (take room bytes) (omega arith)) start
    ∙ copy_to-ring_write front (at + length (take room bytes)) (drop room bytes)
        (omega (arith, length-drop room bytes))
    ∙ sym (ring_write-append buf at (take room bytes) (drop room bytes))
    ∙ ap (ring_write buf at) (take_append_drop room bytes)

-- The two copies write the bytes one after the other around the ring.
pub ring_copy-ring_write :
    (buf : Buffer) (at : ℕ) (bytes : List ℕ)
    → length bytes ≤ stream_buffer_size
    → ring_copy buf at bytes ≡ ring_write buf at bytes
ring_copy-ring_write buf at bytes h =
    let room = stream_buffer_size - at % stream_buffer_size in
    elim (Bool-cases (ltb (length bytes) room)) [
      | inl all ↦
          unfold ring_copy copy_to in
          rw (all, take_whole, drop_whole) (copy_to-ring_write buf at bytes (ground arith))
      | inr wraps ↦
          unfold ring_copy in rw wraps (copy_twice buf at room bytes (omega arith) (ground arith) h)
    ]

-- The bytes stand where the stream `S` has them from offset `at` on.
abbrev pub Agrees : (ℕ → ℕ) → ℕ → List ℕ → Type 0
Agrees S at [] = Unit
Agrees S at (b ∷ bytes) = (b ≡ S at) × Agrees S (at + 1) bytes

-- An offset that shares no index with those written, in a window of the ring's size.
pub ring_write_miss :
    (buf : Buffer) (at o : ℕ) (bytes : List ℕ)
    → length bytes ≤ stream_buffer_size
    → ((o < at) × (at + length bytes ≤ o + stream_buffer_size))
      ⊎ ((at + length bytes ≤ o) × (o < at + stream_buffer_size))
    → ring_write buf at bytes (o % stream_buffer_size) ≡ buf (o % stream_buffer_size)
unfolding ring_write
ring_write_miss buf at o [] l h = refl
ring_write_miss buf at o (b ∷ bytes) l h =
    let apart : (o % stream_buffer_size == at % stream_buffer_size) ≡ false = ground arith in
    ring_write_miss (put_byte buf (at % stream_buffer_size) b) (at + 1) o bytes (omega arith)
      (omega arith)
    ∙ rw apart

first_byte :
    (S : ℕ → ℕ) (buf : Buffer) (at o b : ℕ)
    → o ≡ at
    → b ≡ S at
    → put_byte buf (at % stream_buffer_size) b (o % stream_buffer_size) ≡ S o
first_byte S buf at o b same e =
    subst (λ o. put_byte buf (at % stream_buffer_size) b (o % stream_buffer_size) ≡ S o) (sym same)
      (ground arith)

pub ring_write_hit :
    (S : ℕ → ℕ) (buf : Buffer) (at o : ℕ) (bytes : List ℕ)
    → Agrees S at bytes
    → length bytes ≤ stream_buffer_size
    → at ≤ o
    → o < at + length bytes
    → ring_write buf at bytes (o % stream_buffer_size) ≡ S o
unfolding ring_write
ring_write_hit S buf at o [] a l h k = absurd (omega arith)
ring_write_hit S buf at o (b ∷ bytes) (e, a) l h k = elim (Bool-cases (o == at)) [
  | inl here ↦
      let same : o ≡ at = ground arith in
      ring_write_miss (put_byte buf (at % stream_buffer_size) b) (at + 1) o bytes (omega arith)
        (inl (omega arith, omega arith))
      ∙ first_byte S buf at o b same e
  | inr there ↦
      ring_write_hit S (put_byte buf (at % stream_buffer_size) b) (at + 1) o bytes a (omega arith)
        (ground arith) (omega arith)
]

-- A view of the ring up to its end shows the bytes of the offsets in a row.
pub view-Agrees :
    (S : ℕ → ℕ) (buf : Buffer) (at n : ℕ)
    → at % stream_buffer_size + n ≤ stream_buffer_size
    → ((o : ℕ) → at ≤ o → o < at + n → buf (o % stream_buffer_size) ≡ S o)
    → Agrees S at (view buf (at % stream_buffer_size) n)
unfolding view
view-Agrees S buf at zero h g = tt
view-Agrees S buf at (suc zero) h g = (g at (omega arith) (omega arith), tt)
view-Agrees S buf at (suc (suc n)) h g =
    let next : (at + 1) % stream_buffer_size ≡ at % stream_buffer_size + 1 = omega arith in
    (
      g at (omega arith) (omega arith),
      subst (λ p. Agrees S (at + 1) (view buf p (suc n))) next
          (view-Agrees S buf (at + 1) (suc n) (omega arith)
            (λ o l k. g o (omega arith) (omega arith))),
    )
