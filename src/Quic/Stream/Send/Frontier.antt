-- ===== src/Quic/Stream/Send/Frontier.antt =====
-- The cursors of the sending half of a stream, under each operation (include/boltapi/quic/stream.h).
use bolt_api.Prelude.{
  ℕ, zero, suc, ◌+◌, ◌%◌, ◌≤◌, ◌<◌, ◌≡◌, Bool, true, false, ◌&&◌, ◌||◌, Bool-cases, ltb, leb, ◌==◌,
  List, Option-cases, drop, if◌then◌else◌, inl, inr, arith,
}
use bolt_api.Quic.Stream.Ring.{stream_buffer_size}
use bolt_api.Quic.Stream.RingLaws.{Agrees}
use bolt_api.Quic.Stream.Extents.{
  max_recv_extents, ExtentSet, find_reached, swap_remove, end_at, absorb_rounds, absorb, add,
}
use bolt_api.Quic.Stream.Send.{
  SendSide, pending_empty, refill, write_owned, unsent, mark_sent, clamp, rewind_sent, free_span,
  absorb_acked, limit_base, on_acked, abandon_send,
}
use bolt_api.Quic.Stream.Send.Content.{Keeps, refill_ring-Keeps}

pub refill-Keeps : (S : ℕ → ℕ) (s : SendSide) → Keeps S s → Keeps S (refill s).1
unfolding refill
refill-Keeps S s h = elim (Bool-cases (pending_empty s)) [
  | inl empty ↦ rw empty h
  | inr held ↦ rw held (refill_ring-Keeps S s h)
]

pub write_owned-Keeps :
    (S : ℕ → ℕ) (s : SendSide) (body : List ℕ) (fin : Bool)
    → Keeps S s
    → Agrees S s.send_end body
    → Keeps S (write_owned body fin s)
unfolding write_owned
write_owned-Keeps S s body fin h a = refill-Keeps S _ (record {
  base_behind = h.base_behind;
  sent_behind = h.sent_behind;
  room = h.room;
  content = h.content;
  waiting = a;
})

pub mark_sent-Keeps :
    (S : ℕ → ℕ) (s : SendSide) (len : ℕ) (fin : Bool)
    → Keeps S s
    → len ≤ unsent s
    → Keeps S (mark_sent len fin s).1
unfolding mark_sent unsent
mark_sent-Keeps S s len true h l = record {
  base_behind = omega (arith, h.base_behind);
  sent_behind = omega (arith, h.sent_behind, l);
  room = h.room;
  content = h.content;
  waiting = h.waiting;
}
mark_sent-Keeps S s len false h l = record {
  base_behind = omega (arith, h.base_behind);
  sent_behind = omega (arith, h.sent_behind, l);
  room = h.room;
  content = h.content;
  waiting = h.waiting;
}

pub rewind_sent-Keeps :
    (S : ℕ → ℕ) (s : SendSide) (off : ℕ) (fin_was_sent : Bool)
    → Keeps S s
    → Keeps S (rewind_sent off fin_was_sent s)
unfolding rewind_sent clamp
rewind_sent-Keeps S s off fin_was_sent h = record {
  base_behind = ground (arith, h.base_behind, h.sent_behind);
  sent_behind = ground (arith, h.sent_behind);
  room = h.room;
  content = h.content;
  waiting = h.waiting;
}

pub abandon_send-Keeps : (S : ℕ → ℕ) (s : SendSide) → Keeps S s → Keeps S (abandon_send s)
unfolding abandon_send
abandon_send-Keeps S s h = record {
  base_behind = omega arith;
  sent_behind = omega arith;
  room = omega arith;
  content = λ o low high. absurd (omega (arith, low, high));
  waiting = tt;
}

absorb_rounds-ge : (n cursor : ℕ) (ext : ExtentSet) → cursor ≤ (absorb_rounds n cursor ext).0
unfolding absorb_rounds
absorb_rounds-ge zero cursor ext = omega arith
absorb_rounds-ge (suc n) cursor ext = elim (Option-cases (find_reached cursor ext)) [
  | inl none_left ↦ rw (none_left, absorb_rounds) (omega arith)
  | inr (i, found) ↦
      let next : ℕ = if ltb cursor (end_at i ext) then end_at i ext else cursor in
      rw (found, absorb_rounds)
        (omega (arith, absorb_rounds-ge n next (swap_remove i ext), raised cursor (end_at i ext)))
]
  where
    raised : (c e : ℕ) → c ≤ (if ltb c e then e else c)
    raised c e = ground arith

-- Up to its two limits, `on_acked` only lets the base grow, or the frontier go back.
record Loose (S : ℕ → ℕ) (s : SendSide) : Type 0 where
  base_end : s.send_sent ≤ s.send_end
  room : s.send_end ≤ s.send_base + stream_buffer_size
  content : (o : ℕ) → s.send_base ≤ o → o < s.send_end → s.send_buf (o % stream_buffer_size) ≡ S o
  waiting : Agrees S s.send_end (drop s.pending_off s.pending)

Keeps-Loose : (S : ℕ → ℕ) (s : SendSide) → Keeps S s → Loose S s
Keeps-Loose S s h = record {
  base_end = h.sent_behind;
  room = h.room;
  content = h.content;
  waiting = h.waiting;
}

free_span-Loose :
    (S : ℕ → ℕ) (s : SendSide) (off end : ℕ)
    → Keeps S s
    → s.send_base < end
    → Loose S (free_span off end s)
unfolding free_span
free_span-Loose S s off end h ahead = elim (Bool-cases (leb off s.send_base)) [
  | inl reached ↦ rw reached (record {
    base_end = h.sent_behind;
    room = omega (arith, h.room);
    content = λ o low high. h.content o (omega (arith, low)) high;
    waiting = h.waiting;
  })
  | inr beyond ↦ elim (Option-cases (add off end s.ack_ext)) [
    | inl full ↦
        rw (beyond, full)
          (Keeps-Loose S (rewind_sent off false s) (rewind_sent-Keeps S s off false h))
    | inr (ext, added) ↦
        rw (beyond, added)
          (record {
            base_end = h.sent_behind;
            room = h.room;
            content = h.content;
            waiting = h.waiting;
          })
  ]
]

absorb_acked-Loose : (S : ℕ → ℕ) (s : SendSide) → Loose S s → Loose S (absorb_acked s)
unfolding absorb_acked absorb
absorb_acked-Loose S s h =
    let ahead : s.send_base ≤ (absorb s.send_base s.ack_ext).0 =
      absorb_rounds-ge (max_recv_extents + 1) s.send_base s.ack_ext in
    record {
      base_end = h.base_end;
      room = omega (arith, h.room, ahead);
      content = λ o low high. h.content o (omega (arith, low, ahead)) high;
      waiting = h.waiting;
    }

limit_base-Keeps : (S : ℕ → ℕ) (s : SendSide) → Loose S s → Keeps S (limit_base s)
unfolding limit_base
limit_base-Keeps S s h = record {
  base_behind = ground arith;
  sent_behind = ground (arith, h.base_end);
  room = ground (arith, h.room);
  content = λ o low high. h.content o (ground (arith, low, high)) high;
  waiting = h.waiting;
}

pub on_acked-Keeps :
    (S : ℕ → ℕ) (s : SendSide) (off len : ℕ) (fin : Bool)
    → Keeps S s
    → Keeps S (on_acked off len fin s)
unfolding on_acked
on_acked-Keeps S s off len fin h =
    let s' : SendSide = record s {
      fin_acked = s.fin_acked || fin && (off + len == s.send_end) && s.want_fin;
    } in
    let h' : Keeps S s' = record {
      base_behind = h.base_behind;
      sent_behind = h.sent_behind;
      room = h.room;
      content = h.content;
      waiting = h.waiting;
    } in
    elim (Bool-cases (ltb 0 len && ltb s.send_base (off + len))) [
      | inl span ↦ rw span (
          limit_base-Keeps S (absorb_acked (free_span off (off + len) s')) (
            absorb_acked-Loose S (free_span off (off + len) s')
              (free_span-Loose S s' off (off + len) h' (ground arith))))
      | inr old ↦ rw old (limit_base-Keeps S s' (Keeps-Loose S s' h'))
    ]
