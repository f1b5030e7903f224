-- ===== src/Quic/Stream/Send/Delivery.antt =====
-- Runs of the sending half of a stream (include/boltapi/quic/stream.h).
use bolt_api.Prelude.{
  ℕ, zero, suc, ◌+◌, ◌%◌, ◌≤◌, ◌≡◌, refl, ap, Bool, true, false, ◌&&◌, ◌==◌, List, length, arith,
}
use bolt_api.Quic.Stream.Ring.{stream_buffer_size, Buffer, view}
use bolt_api.Quic.Stream.RingLaws.{Agrees, view-Agrees}
use bolt_api.Quic.Stream.Send.{
  SendSide, open_send, write, refill, write_owned, unsent, peek_length, peek_unsent, mark_sent,
  rewind_sent, on_acked, abandon_send,
}
use bolt_api.Quic.Stream.Send.Content.{Keeps, open_send-Keeps, write-Keeps}
use bolt_api.Quic.Stream.Send.Frontier.{
  refill-Keeps, write_owned-Keeps, mark_sent-Keeps, rewind_sent-Keeps, abandon_send-Keeps,
  on_acked-Keeps,
}

-- What happens to the sending half of a stream on which the application writes `S`: bytes are
-- written or handed over, framed, lost and acknowledged, in any order.
pub data SendStep (S : ℕ → ℕ) : SendSide → SendSide → Type 0 where
  writes :
      (s : SendSide) (bytes : List ℕ) (fin : Bool)
      → Agrees S s.send_end bytes
      → SendStep S s (write bytes fin s).1
  hands_over :
      (s : SendSide) (body : List ℕ) (fin : Bool)
      → Agrees S s.send_end body
      → SendStep S s (write_owned body fin s)
  refills : (s : SendSide) → SendStep S s (refill s).1
  sends :
      (s : SendSide) (len : ℕ) (fin : Bool) → len ≤ unsent s → SendStep S s (mark_sent len fin s).1
  loses :
      (s : SendSide) (off : ℕ) (fin_was_sent : Bool) → SendStep S s (rewind_sent off fin_was_sent s)
  hears : (s : SendSide) (off len : ℕ) (fin : Bool) → SendStep S s (on_acked off len fin s)
  abandons : (s : SendSide) → SendStep S s (abandon_send s)

pub data SendRun (S : ℕ → ℕ) (s : SendSide) : SendSide → Type 0 where
  start : SendRun S s s
  more : {t u : SendSide} → SendRun S s t → SendStep S t u → SendRun S s u

SendStep-Keeps : (S : ℕ → ℕ) {s t : SendSide} → SendStep S s t → Keeps S s → Keeps S t
SendStep-Keeps S (writes s bytes fin a) h = write-Keeps S s bytes fin h a
SendStep-Keeps S (hands_over s body fin a) h = write_owned-Keeps S s body fin h a
SendStep-Keeps S (refills s) h = refill-Keeps S s h
SendStep-Keeps S (sends s len fin l) h = mark_sent-Keeps S s len fin h l
SendStep-Keeps S (loses s off f) h = rewind_sent-Keeps S s off f h
SendStep-Keeps S (hears s off len fin) h = on_acked-Keeps S s off len fin h
SendStep-Keeps S (abandons s) h = abandon_send-Keeps S s h

length-view : (buf : Buffer) (pos n : ℕ) → length (view buf pos n) ≡ n
unfolding view
length-view buf pos zero = refl
length-view buf pos (suc n) = ap suc (length-view buf (pos + 1) n)

peek_length-le :
    (cap : ℕ) (s : SendSide)
    → s.send_sent ≤ s.send_end
    → (peek_length cap s ≤ cap)
      × ((s.send_sent % stream_buffer_size + peek_length cap s ≤ stream_buffer_size)
          × (s.send_sent + peek_length cap s ≤ s.send_end))
unfolding peek_length unsent
peek_length-le cap s h = ground arith

last_chunk : (want : Bool) (a b : ℕ) → (want && (a == b)) ≡ true → a ≡ b
last_chunk true a b e = ground arith
last_chunk false a b e = ground arith

-- The cursors of the sending half stay in order, and the ring keeps every byte from the lowest
-- one not acknowledged on, whatever is written, framed, lost, acknowledged or abandoned.
pub SendRun-Keeps : (S : ℕ → ℕ) {s t : SendSide} → SendRun S s t → Keeps S s → Keeps S t
SendRun-Keeps S start h = h
SendRun-Keeps S (more r st) h = SendStep-Keeps S st (SendRun-Keeps S r h)

-- What the half of an opened stream offers for the next packet, whatever happened before, is part
-- of the stream that was written: the bytes are those at the offset it gives, at most `cap` of
-- them, all of them queued, and none below the lowest byte not acknowledged. A final chunk ends
-- where the queued bytes end.
pub peek_unsent-SendRun :
    (S : ℕ → ℕ) (init_send_max cap : ℕ) (buf : Buffer) {s : SendSide}
    → SendRun S (open_send init_send_max buf) s
    → let c = peek_unsent cap s in
      Agrees S c.off c.bytes
      × (length c.bytes ≤ cap)
      × (s.send_base ≤ c.off)
      × (c.off + length c.bytes ≤ s.send_end)
      × (c.out_fin ≡ true → c.off + length c.bytes ≡ s.send_end)
unfolding peek_unsent
peek_unsent-SendRun S m cap buf {s} r =
    let h : Keeps S s = SendRun-Keeps S r (open_send-Keeps S m buf) in
    let n : ℕ = peek_length cap s in
    let (small, (inside, queued)) = peek_length-le cap s h.sent_behind in
    let size = length-view s.send_buf (s.send_sent % stream_buffer_size) n in
    (
      view-Agrees S s.send_buf s.send_sent n inside (λ o low high.
          h.content o (omega (arith, low, h.base_behind)) (omega (arith, high, queued))),
      omega (arith, size, small),
      h.base_behind,
      omega (arith, size, queued),
      λ e. omega (arith, size, last_chunk s.want_fin (s.send_sent + n) s.send_end e),
    )
