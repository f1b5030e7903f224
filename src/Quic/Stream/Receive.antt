-- ===== src/Quic/Stream/Receive.antt =====
-- include/boltapi/quic/stream.h, the receive side of class Stream.
use bolt_api.Prelude.{
  ℕ, ◌+◌, ◌-◌, ◌%◌, Bool, true, false, not, ◌&&◌, ◌||◌, List, [], none, some, ltb, leb, ◌==◌,
  length, drop, if◌then◌else◌,
}
use bolt_api.Prelude.Bytes.{sub64}
use bolt_api.Quic.Varint.{var_int_max}
use bolt_api.Quic.Stream.Ring.{stream_buffer_size, Buffer, ring_copy, view}
use bolt_api.Quic.Stream.Extents.{ExtentSet, add, absorb}

pub data RecvState : Type 0 where
  recv size_known data_recvd reset_recvd : RecvState

-- `recv_max` and `recv_high` are fields of `flow_`.
pub record RecvSide : Type 0 where
  pub recv_st : RecvState
  pub recv_max : ℕ
  pub recv_high : ℕ
  pub recv_buf : Buffer
  pub recv_cursor : ℕ
  pub read_cursor : ℕ
  pub fin_off : ℕ
  pub have_fin : Bool
  pub fin_notified : Bool
  pub window_dirty : Bool
  pub recv_reset : Bool
  pub recv_ext : ExtentSet

-- `open` on a slot whose ring is `buf`.
unfoldable pub open_recv : ℕ → Buffer → RecvSide
open_recv init_recv_max buf = record {
  recv_st = recv;
  recv_max = init_recv_max;
  recv_high = 0;
  recv_buf = buf;
  recv_cursor = 0;
  read_cursor = 0;
  fin_off = 0;
  have_fin = false;
  fin_notified = false;
  window_dirty = false;
  recv_reset = false;
  recv_ext = [];
}

-- The end of `store`.
unfoldable pub absorb_into : ℕ → ExtentSet → RecvSide → RecvSide
unfolding absorb
absorb_into cursor ext r =
    let (cursor', ext') = absorb cursor ext in record r { recv_cursor = cursor'; recv_ext = ext' }

-- `store` from the first byte that is not a duplicate.
unfoldable pub store_from : ℕ → List ℕ → RecvSide → Bool × RecvSide
unfolding absorb_into ring_copy add
store_from at bytes r =
    let r' = record r { recv_buf = ring_copy r.recv_buf at bytes } in
    if at == r.recv_cursor
    then (true, absorb_into (at + length bytes) r.recv_ext r')
    else elim (add at (at + length bytes) r.recv_ext) [
      | none ↦ (false, r')
      | some ext ↦ (true, absorb_into r.recv_cursor ext r')
    ]

unfoldable pub store : ℕ → List ℕ → RecvSide → Bool × RecvSide
unfolding store_from
store offset bytes r =
    if ltb offset r.recv_cursor
    then (if leb (length bytes) (r.recv_cursor - offset)
        then (true, r)
        else store_from r.recv_cursor (drop (r.recv_cursor - offset) bytes) r)
    else store_from offset bytes r

-- The checks of `receive`, all of them before a change of state.
unfoldable pub refuses : ℕ → ℕ → Bool → RecvSide → Bool
refuses offset len fin r =
    let end = offset + len in
    ltb var_int_max offset
    || ltb (var_int_max - offset) len
    || ltb r.recv_max end
    || r.have_fin && (ltb r.fin_off end || fin && not (end == r.fin_off))
    || fin && ltb end r.recv_high
    || ltb (r.read_cursor + stream_buffer_size) end

-- The highest offset, and the final size if this is the last frame.
unfoldable pub note_end : ℕ → Bool → RecvSide → RecvSide
note_end end fin r =
    let r' = record r { recv_high = if ltb r.recv_high end then end else r.recv_high } in
    if fin
    then record r' {
      fin_off = end;
      have_fin = true;
      recv_st = elim r.recv_st [ recv ↦ size_known | st ↦ st ];
    }
    else r'

unfoldable pub note_complete : RecvSide → RecvSide
note_complete r =
    if r.have_fin && leb r.fin_off r.recv_cursor then record r { recv_st = data_recvd } else r

-- The result of `receive` is false on a violation and when the reorder buffer is full.
unfoldable pub accept : Bool × RecvSide → Bool × RecvSide
unfolding note_complete
accept (true, r) = (true, note_complete r)
accept (false, r) = (false, r)

unfoldable pub receive : ℕ → List ℕ → Bool → RecvSide → Bool × RecvSide
unfolding refuses note_end accept store
receive offset bytes fin r =
    if refuses offset (length bytes) fin r
    then (false, r)
    else let r' = note_end (offset + length bytes) fin r in
      accept (if ltb 0 (length bytes) then store offset bytes r' else (true, r'))

unfoldable pub recv_available : RecvSide → ℕ
recv_available r = r.recv_cursor - r.read_cursor

unfoldable pub recv_contiguous : RecvSide → ℕ
unfolding recv_available
recv_contiguous r =
    let room = stream_buffer_size - r.read_cursor % stream_buffer_size in
    if ltb (recv_available r) room then recv_available r else room

-- The bytes that the caller sees behind `recv_peek`.
unfoldable pub recv_peek : RecvSide → List ℕ
unfolding recv_contiguous view
recv_peek r = view r.recv_buf (r.read_cursor % stream_buffer_size) (recv_contiguous r)

unfoldable pub recv_consume : ℕ → RecvSide → RecvSide
recv_consume n r = record r { read_cursor = r.read_cursor + n }

unfoldable pub recv_finished : RecvSide → Bool
recv_finished r = r.have_fin && leb r.fin_off r.read_cursor

unfoldable pub take_fin_notice : RecvSide → Bool × RecvSide
unfolding recv_finished
take_fin_notice r =
    if not (recv_finished r) || r.fin_notified
    then (false, r)
    else (true, record r { fin_notified = true })

unfoldable pub on_peer_reset : RecvSide → RecvSide
on_peer_reset r = record r { recv_reset = true; recv_st = reset_recvd }

unfoldable pub recv_done : RecvSide → Bool
unfolding recv_finished
recv_done r = r.recv_reset || recv_finished r

unfoldable pub needs_window_update : ℕ → RecvSide → Bool
unfolding recv_finished
needs_window_update bump_threshold r =
    ltb (sub64 r.recv_max r.read_cursor) bump_threshold && not (recv_finished r) && not r.recv_reset

unfoldable pub grow_recv_window : ℕ → RecvSide → RecvSide
grow_recv_window add r =
    let add' = if ltb stream_buffer_size add then stream_buffer_size else add in
    let next = r.read_cursor + add' in
    record r { recv_max = if ltb r.recv_max next then next else r.recv_max }
