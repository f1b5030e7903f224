-- ===== src/Quic/Stream/Send/Content.antt =====
-- The ring of the sending half of a stream, under writes and refills (include/boltapi/quic/stream.h).
use bolt_api.Prelude.{
  ℕ, zero, suc, ◌+◌, ◌%◌, ◌≤◌, ◌<◌, ◌≡◌, refl, sym, ap, subst, ◌∙◌, Bool, true, Bool-cases, ltb,
  ltb→lt, ◌==◌, List, [], ◌∷◌, length, length-take, take, drop, inl, inr, arith,
}
use bolt_api.Quic.Stream.Ring.{stream_buffer_size, Buffer, ring_copy}
use bolt_api.Quic.Stream.RingLaws.{Agrees, ring_write_hit, ring_write_miss, ring_copy-ring_write}
use bolt_api.Quic.Stream.Reassembly.{Agrees-drop}
use bolt_api.Quic.Stream.Send.{
  SendSide, open_send, put_count, ring_put, pending_empty, write, refill_ring,
}

-- The cursors are in order, no more than a ring is held, the ring holds the stream `S` between
-- them, and the bytes that wait are the next ones of it.
pub record Keeps (S : ℕ → ℕ) (s : SendSide) : Type 0 where
  pub base_behind : s.send_base ≤ s.send_sent
  pub sent_behind : s.send_sent ≤ s.send_end
  pub room : s.send_end ≤ s.send_base + stream_buffer_size
  pub content :
      (o : ℕ) → s.send_base ≤ o → o < s.send_end → s.send_buf (o % stream_buffer_size) ≡ S o
  pub waiting : Agrees S s.send_end (drop s.pending_off s.pending)

pub open_send-Keeps :
    (S : ℕ → ℕ) (init_send_max : ℕ) (buf : Buffer) → Keeps S (open_send init_send_max buf)
unfolding open_send
open_send-Keeps S m buf = record {
  base_behind = omega arith;
  sent_behind = omega arith;
  room = omega arith;
  content = λ o h k. absurd (omega (arith, k));
  waiting = tt;
}

Agrees-take :
    (S : ℕ → ℕ) (at n : ℕ) (bytes : List ℕ) → Agrees S at bytes → Agrees S at (take n bytes)
Agrees-take S at zero bytes a = tt
Agrees-take S at (suc n) [] a = tt
Agrees-take S at (suc n) (b ∷ bytes) (e, a) = (e, Agrees-take S (at + 1) n bytes a)

put_count-le :
    (len : ℕ) (s : SendSide)
    → s.send_base ≤ s.send_end
    → s.send_end ≤ s.send_base + stream_buffer_size
    → (put_count len s ≤ len) × (s.send_end + put_count len s ≤ s.send_base + stream_buffer_size)
unfolding put_count
put_count-le len s h k = ground arith

-- The ring behind a put of bytes that continue the stream.
module _ (S : ℕ → ℕ) (s : SendSide) (bytes : List ℕ) (h : Keeps S s)
    (a : Agrees S s.send_end bytes) where
  abbrev count : ℕ
  count = put_count (length bytes) s

  limits : (count ≤ length bytes) × (s.send_end + count ≤ s.send_base + stream_buffer_size)
  limits = put_count-le (length bytes) s (omega (arith, h.base_behind, h.sent_behind)) h.room

  put_length : length (take count bytes) ≡ count
  put_length = omega (arith, length-take count bytes, limits)

  put_content :
      (o : ℕ)
      → s.send_base ≤ o
      → o < s.send_end + count
      → ring_copy s.send_buf s.send_end (take count bytes) (o % stream_buffer_size) ≡ S o
  put_content o low high =
      let fits : length (take count bytes) ≤ stream_buffer_size =
        omega (arith, put_length, limits, h.base_behind, h.sent_behind) in
      ap (λ buf. buf (o % stream_buffer_size))
        (ring_copy-ring_write s.send_buf s.send_end (take count bytes) fits)
      ∙ elim (Bool-cases (ltb o s.send_end)) [
        | inl old ↦
            ring_write_miss s.send_buf s.send_end o (take count bytes) fits
              (inl (ltb→lt o s.send_end old, omega (arith, put_length, limits, low)))
            ∙ h.content o low (ltb→lt o s.send_end old)
        | inr fresh ↦
            ring_write_hit S s.send_buf s.send_end o (take count bytes)
              (Agrees-take S s.send_end count bytes a) fits (ground arith)
              (omega (arith, put_length, high))
      ]

empty_waiting :
    (S : ℕ → ℕ) (at : ℕ) (s : SendSide)
    → pending_empty s ≡ true
    → Agrees S at (drop s.pending_off s.pending)
unfolding pending_empty
empty_waiting S at s e = none_left s.pending_off s.pending (ground arith)
  where
    none_left : (n : ℕ) (bytes : List ℕ) → length bytes ≤ n → Agrees S at (drop n bytes)
    none_left zero [] h = tt
    none_left zero (b ∷ bytes) h = absurd (omega (arith, h))
    none_left (suc n) [] h = tt
    none_left (suc n) (b ∷ bytes) h = none_left n bytes (omega (arith, h))

pub write-Keeps :
    (S : ℕ → ℕ) (s : SendSide) (bytes : List ℕ) (fin : Bool)
    → Keeps S s
    → Agrees S s.send_end bytes
    → Keeps S (write bytes fin s).1
unfolding write ring_put
write-Keeps S s bytes fin h a = elim (Bool-cases (pending_empty s)) [
  | inr held ↦ rw held h
  | inl empty ↦ rw empty (record {
    base_behind = h.base_behind;
    sent_behind = omega (arith, h.sent_behind);
    room = (limits S s bytes h a).1;
    content = put_content S s bytes h a;
    waiting = empty_waiting S (s.send_end + put_count (length bytes) s) s empty;
  })
]

drop-nil : (n : ℕ) → drop {A = ℕ} n [] ≡ []
drop-nil zero = refl
drop-nil (suc n) = refl

drop-drop : (m n : ℕ) (bytes : List ℕ) → drop n (drop m bytes) ≡ drop (m + n) bytes
drop-drop zero n bytes = ap (λ t. drop t bytes) (omega arith)
drop-drop (suc m) n [] = drop-nil n ∙ sym (drop-nil (suc m + n))
drop-drop (suc m) n (b ∷ bytes) =
    let e : suc (m + n) ≡ suc m + n = omega arith in
    drop-drop m n bytes ∙ ap (λ t. drop t (b ∷ bytes)) e

pub refill_ring-Keeps : (S : ℕ → ℕ) (s : SendSide) → Keeps S s → Keeps S (refill_ring s).1
unfolding refill_ring ring_put
refill_ring-Keeps S s h =
    let bytes : List ℕ = drop s.pending_off s.pending in
    let n : ℕ = put_count (length bytes) s in
    elim (Bool-cases (s.pending_off + n == length s.pending)) [
      | inl all ↦ rw all (record {
        base_behind = h.base_behind;
        sent_behind = omega (arith, h.sent_behind);
        room = (limits S s bytes h h.waiting).1;
        content = put_content S s bytes h h.waiting;
        waiting = tt;
      })
      | inr part ↦ rw part (record {
        base_behind = h.base_behind;
        sent_behind = omega (arith, h.sent_behind);
        room = (limits S s bytes h h.waiting).1;
        content = put_content S s bytes h h.waiting;
        waiting =
            subst (Agrees S (s.send_end + n)) (drop-drop s.pending_off n s.pending)
              (Agrees-drop S s.send_end n bytes h.waiting);
      })
    ]
