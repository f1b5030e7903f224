-- ===== src/Quic/Stream/Delivery.antt =====
-- What the application reads from a stream, after any sequence of frames and calls.
use bolt_api.Prelude.{
  ℕ, ◌+◌, ◌≤◌, ◌≡◌, refl, ap, ◌∙◌, Bool, true, false, not, ◌||◌, List, [], ◌∷◌, ltb, length,
  if◌then◌else◌, arith, Bool-cases, inl, inr,
}
use bolt_api.Quic.Stream.Ring.{stream_buffer_size, Buffer}
use bolt_api.Quic.Stream.RingLaws.{Agrees, view-Agrees}
use bolt_api.Quic.Stream.Extents.{add}
use bolt_api.Quic.Stream.ExtentLaws.{holds}
use bolt_api.Quic.Stream.Receive.{
  RecvSide, open_recv, store, refuses, note_end, accept, receive, recv_available, recv_contiguous,
  recv_peek, recv_consume, recv_finished, take_fin_notice, on_peer_reset, grow_recv_window,
}
use bolt_api.Quic.Stream.Reassembly.{got, Holds, Stored, store-Stored}
use bolt_api.Quic.Stream.Acceptance.{
  Accepted, refuses-Accepted, note_end-Holds, note_end_high, accept-Stored,
}

empty_frame : (x : Bool) (offset o : ℕ) → x ≡ (x || holds offset (offset + 0) o)
empty_frame x offset o = ground arith

store-accept :
    (S : ℕ → ℕ) (r : RecvSide) (offset : ℕ) (bytes : List ℕ) (fin : Bool)
    → Holds S r
    → Agrees S offset bytes
    → Accepted offset (length bytes) fin r
    → Stored S r offset (offset + length bytes) (
        accept (
          if ltb 0 (length bytes)
          then store offset bytes (note_end (offset + length bytes) fin r)
          else (true, note_end (offset + length bytes) fin r)))
store-accept S r offset [] fin h a c =
    let (_, same) = note_end_high (offset + 0) fin r in
    accept-Stored S r offset (offset + 0) _ (record {
      kept = note_end-Holds S r offset 0 fin h c;
      gained = λ _ o. same o ∙ empty_frame (got r o) offset o;
    })
store-accept S r offset (b ∷ bytes) fin h a c =
    let (high, same) = note_end_high (offset + length (b ∷ bytes)) fin r in
    let st =
      store-Stored S (note_end (offset + length (b ∷ bytes)) fin r) offset (b ∷ bytes)
        (note_end-Holds S r offset (length (b ∷ bytes)) fin h c) a (omega arith) high in
    let some_bytes : ltb 0 (length (b ∷ bytes)) ≡ true = ground arith in
    rw some_bytes (
      accept-Stored S r offset (offset + length (b ∷ bytes)) _ (record {
        kept = st.kept;
        gained = λ ok o.
            st.gained ok o ∙ ap (λ t. t || holds offset (offset + length (b ∷ bytes)) o) (same o);
      }))

-- A frame of the stream, at any offset, in any order, as often as it comes: the ring still holds
-- the stream, and when the frame is taken in, the offsets received are those from before and
-- those of the frame.
pub receive_lem :
    (S : ℕ → ℕ) (r : RecvSide) (offset : ℕ) (bytes : List ℕ) (fin : Bool)
    → Holds S r
    → Agrees S offset bytes
    → Holds S (receive offset bytes fin r).1
      × ((receive offset bytes fin r).0 ≡ true
          → (o : ℕ)
          → got (receive offset bytes fin r).1 o
            ≡ (got r o || holds offset (offset + length bytes) o))
unfolding receive
receive_lem S r offset bytes fin h a = elim (Bool-cases (refuses offset (length bytes) fin r)) [
  | inl refused ↦ rw refused (h, λ e. cc)
  | inr fine ↦
      let st =
        store-accept S r offset bytes fin h a (refuses-Accepted offset (length bytes) fin r fine) in
      rw fine (st.kept, st.gained)
]

recv_consume-Holds :
    (S : ℕ → ℕ) (r : RecvSide) (n : ℕ)
    → n ≤ recv_available r
    → Holds S r
    → Holds S (recv_consume n r)
unfolding recv_consume recv_available
recv_consume-Holds S r n k h = record {
  read_behind = omega (arith, h.read_behind);
  cursor_behind = h.cursor_behind;
  in_window = h.in_window;
  window_fits = omega (arith, h.window_fits);
  count = h.count;
  within = h.within;
  gap = h.gap;
  final = h.final;
  content = λ o p g. h.content o (omega arith) g;
}

grow_recv_window-Holds :
    (S : ℕ → ℕ) (r : RecvSide) (add : ℕ) → Holds S r → Holds S (grow_recv_window add r)
unfolding grow_recv_window
grow_recv_window-Holds S r add h = record {
  read_behind = h.read_behind;
  cursor_behind = h.cursor_behind;
  in_window = ground (arith, h.in_window);
  window_fits = ground (arith, h.window_fits);
  count = h.count;
  within = h.within;
  gap = h.gap;
  final = h.final;
  content = h.content;
}

on_peer_reset-Holds : (S : ℕ → ℕ) (r : RecvSide) → Holds S r → Holds S (on_peer_reset r)
unfolding on_peer_reset
on_peer_reset-Holds S r h = record {
  read_behind = h.read_behind;
  cursor_behind = h.cursor_behind;
  in_window = h.in_window;
  window_fits = h.window_fits;
  count = h.count;
  within = h.within;
  gap = h.gap;
  final = h.final;
  content = h.content;
}

take_fin_notice-Holds : (S : ℕ → ℕ) (r : RecvSide) → Holds S r → Holds S (take_fin_notice r).1
unfolding take_fin_notice
take_fin_notice-Holds S r h = elim (Bool-cases (not (recv_finished r) || r.fin_notified)) [
  | inl nothing ↦ rw nothing h
  | inr notice ↦ rw notice (record {
    read_behind = h.read_behind;
    cursor_behind = h.cursor_behind;
    in_window = h.in_window;
    window_fits = h.window_fits;
    count = h.count;
    within = h.within;
    gap = h.gap;
    final = h.final;
    content = h.content;
  })
]

pub open_recv-Holds :
    (S : ℕ → ℕ) (init_recv_max : ℕ) (buf : Buffer)
    → init_recv_max ≤ stream_buffer_size
    → Holds S (open_recv init_recv_max buf)
unfolding open_recv
open_recv-Holds S init_recv_max buf h = record {
  read_behind = omega arith;
  cursor_behind = omega arith;
  in_window = omega arith;
  window_fits = omega arith;
  count = omega arith;
  within = tt;
  gap = refl;
  final = λ e. omega arith;
  content = λ o p e. absurd (ground arith);
}

-- What happens to the receive side of a stream whose peer sends `S`.
pub data RecvStep (S : ℕ → ℕ) : RecvSide → RecvSide → Type 0 where
  frame :
      (r : RecvSide) (offset : ℕ) (bytes : List ℕ) (fin : Bool)
      → Agrees S offset bytes
      → RecvStep S r (receive offset bytes fin r).1
  consume : (r : RecvSide) (n : ℕ) → n ≤ recv_available r → RecvStep S r (recv_consume n r)
  grow : (r : RecvSide) (add : ℕ) → RecvStep S r (grow_recv_window add r)
  notice : (r : RecvSide) → RecvStep S r (take_fin_notice r).1
  reset : (r : RecvSide) → RecvStep S r (on_peer_reset r)

pub data RecvRun (S : ℕ → ℕ) (r : RecvSide) : RecvSide → Type 0 where
  start : RecvRun S r r
  more : {s t : RecvSide} → RecvRun S r s → RecvStep S s t → RecvRun S r t

RecvStep-Holds : (S : ℕ → ℕ) {r s : RecvSide} → RecvStep S r s → Holds S r → Holds S s
RecvStep-Holds S (frame r offset bytes fin a) h = (receive_lem S r offset bytes fin h a).0
RecvStep-Holds S (consume r n k) h = recv_consume-Holds S r n k h
RecvStep-Holds S (grow r add) h = grow_recv_window-Holds S r add h
RecvStep-Holds S (notice r) h = take_fin_notice-Holds S r h
RecvStep-Holds S (reset r) h = on_peer_reset-Holds S r h

pub RecvRun-Holds : (S : ℕ → ℕ) {r s : RecvSide} → Holds S r → RecvRun S r s → Holds S s
RecvRun-Holds S h start = h
RecvRun-Holds S h (more run st) = RecvStep-Holds S st (RecvRun-Holds S h run)

recv_peek-Agrees : (S : ℕ → ℕ) (r : RecvSide) → Holds S r → Agrees S r.read_cursor (recv_peek r)
unfolding recv_peek recv_available
recv_peek-Agrees S r h =
    view-Agrees S r.recv_buf r.read_cursor (recv_contiguous r) (ground arith)
      (λ o p k. h.content o p (ground (arith, h.read_behind)))

-- Whatever frames of the stream come, and whatever the application does between them: what
-- `recv_peek` shows are the bytes of the stream from the read cursor on, and the byte at the
-- receive cursor has not come yet.
pub recv_peek-RecvRun :
    (S : ℕ → ℕ) (init_recv_max : ℕ) (buf : Buffer) {r : RecvSide}
    → init_recv_max ≤ stream_buffer_size
    → RecvRun S (open_recv init_recv_max buf) r
    → Agrees S r.read_cursor (recv_peek r) × (got r r.recv_cursor ≡ false)
recv_peek-RecvRun S init_recv_max buf {r} h run =
    let inv : Holds S r = RecvRun-Holds S (open_recv-Holds S init_recv_max buf h) run in
    (recv_peek-Agrees S r inv, ground (arith, inv.gap))
