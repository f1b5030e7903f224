-- ===== src/Quic/Stream/Send.antt =====
-- The sending half of Stream (include/boltapi/quic/stream.h): the retransmission ring over the
-- absolute offsets [send_base, send_end), the sent frontier, and the bytes that wait for room.
pub mod Content
pub mod Frontier
pub mod Delivery
use bolt_api.Prelude.{
  ℕ, ◌+◌, ◌-◌, ◌*◌, ◌%◌, Bool, true, false, not, ◌&&◌, ◌||◌, ltb, leb, ◌==◌, if◌then◌else◌, List,
  [], none, some, length, take, drop,
}
use bolt_api.Quic.Stream.Ring.{stream_buffer_size, Buffer, ring_copy, view}
use bolt_api.Quic.Stream.Extents.{ExtentSet, add, absorb}

pub data SendState : Type 0 where
  ready sending data_sent reset_sent reset_recvd : SendState

-- `flow_send_max` and `flow_send_off` are the sending fields of StreamFlow.
pub record SendSide : Type 0 where
  pub send_st : SendState
  pub flow_send_max : ℕ
  pub flow_send_off : ℕ
  pub send_buf : Buffer
  pub send_base : ℕ
  pub send_end : ℕ
  pub send_sent : ℕ
  pub flow_counted : ℕ
  pub ack_ext : ExtentSet
  pub want_fin : Bool
  pub fin_sent : Bool
  pub fin_acked : Bool
  pub pending : List ℕ
  pub pending_off : ℕ
  pub pending_fin : Bool

-- `open` on a slot whose ring is `buf`.
unfoldable pub open_send : ℕ → Buffer → SendSide
open_send init_send_max buf = record {
  send_st = ready;
  flow_send_max = init_send_max;
  flow_send_off = 0;
  send_buf = buf;
  send_base = 0;
  send_end = 0;
  send_sent = 0;
  flow_counted = 0;
  ack_ext = [];
  want_fin = false;
  fin_sent = false;
  fin_acked = false;
  pending = [];
  pending_off = 0;
  pending_fin = false;
}

-- StreamFlow, sending direction.
unfoldable pub can_send : ℕ → SendSide → Bool
can_send bytes s = leb (s.flow_send_off + bytes) s.flow_send_max

unfoldable pub send_window : SendSide → ℕ
send_window s = if ltb s.flow_send_off s.flow_send_max then s.flow_send_max - s.flow_send_off else 0

-- The bytes that `ring_put` stores of `len`.
unfoldable pub put_count : ℕ → SendSide → ℕ
put_count len s =
    let space = stream_buffer_size - (s.send_end - s.send_base) in
    if ltb len space then len else space

unfoldable pub ring_put : List ℕ → SendSide → SendSide
unfolding put_count ring_copy
ring_put bytes s =
    let n = put_count (length bytes) s in
    record s {
      send_buf = ring_copy s.send_buf s.send_end (take n bytes);
      send_end = s.send_end + n;
    }

unfoldable pub pending_empty : SendSide → Bool
pending_empty s = leb (length s.pending) s.pending_off && not s.pending_fin

-- The bytes queued, and the state.
unfoldable pub write : List ℕ → Bool → SendSide → ℕ × SendSide
unfolding pending_empty ring_put put_count
write bytes fin s =
    let n = put_count (length bytes) s in
    let s' = ring_put bytes s in
    let want = s.want_fin || fin && (n == length bytes) in
    if not (pending_empty s) then (0, s) else (
      n,
      record s' {
        want_fin = want;
        send_st = elim s.send_st [ ready ↦ if ltb 0 n || want then sending else ready | st ↦ st ];
      },
    )

-- `refill` behind its first test.
unfoldable pub refill_ring : SendSide → ℕ × SendSide
unfolding ring_put put_count
refill_ring s =
    let bytes = drop s.pending_off s.pending in
    let n = put_count (length bytes) s in
    let s' = ring_put bytes s in
    (
      n,
      if s.pending_off + n == length s.pending
          then record s' {
            want_fin = s.want_fin || s.pending_fin;
            pending_fin = false;
            pending = [];
            pending_off = 0;
          }
          else record s' { pending_off = s.pending_off + n },
    )

unfoldable pub refill : SendSide → ℕ × SendSide
unfolding pending_empty refill_ring
refill s = if pending_empty s then (0, s) else refill_ring s

unfoldable pub write_owned : List ℕ → Bool → SendSide → SendSide
unfolding refill
write_owned body fin s =
    let s' = record s {
      pending = body;
      pending_off = 0;
      pending_fin = fin;
      send_st = elim s.send_st [ ready ↦ sending | st ↦ st ];
    } in
    (refill s').1

unfoldable pub send_space : SendSide → ℕ
unfolding pending_empty
send_space s = if not (pending_empty s) then 0 else stream_buffer_size - (s.send_end - s.send_base)

unfoldable pub unsent : SendSide → ℕ
unsent s = s.send_end - s.send_sent

unfoldable pub fin_pending : SendSide → Bool
fin_pending s = s.want_fin && not s.fin_sent

unfoldable pub has_send_work : SendSide → Bool
unfolding unsent fin_pending
has_send_work s = ltb 0 (unsent s) || fin_pending s

-- How many bytes `peek_unsent` offers under `cap`.
unfoldable pub peek_length : ℕ → SendSide → ℕ
unfolding unsent
peek_length cap s =
    let pos = s.send_sent % stream_buffer_size in
    let avail =
      if ltb (stream_buffer_size - pos) (unsent s) then stream_buffer_size - pos else unsent s in
    if ltb avail cap then avail else cap

-- What `peek_unsent` returns: whether there is work, and the offset, the bytes and the flag.
pub record Chunk : Type 0 where
  pub work : Bool
  pub off : ℕ
  pub bytes : List ℕ
  pub out_fin : Bool

unfoldable pub peek_unsent : ℕ → SendSide → Chunk
unfolding peek_length view
peek_unsent cap s =
    let len = peek_length cap s in
    record {
      work = ltb 0 len || s.want_fin && not s.fin_sent;
      off = s.send_sent;
      bytes = view s.send_buf (s.send_sent % stream_buffer_size) len;
      out_fin = s.want_fin && (s.send_sent + len == s.send_end);
    }

-- The new bytes, and the state.
unfoldable pub mark_sent : ℕ → Bool → SendSide → ℕ × SendSide
mark_sent len fin s =
    let new_end = s.send_sent + len in
    let s' = record s {
      flow_counted = if ltb s.flow_counted new_end then new_end else s.flow_counted;
      send_sent = new_end;
      flow_send_off = if ltb s.flow_send_off new_end then new_end else s.flow_send_off;
    } in
    (
      if ltb s.flow_counted new_end then new_end - s.flow_counted else 0,
      if fin then record s' { fin_sent = true; send_st = data_sent } else s',
    )

-- The offset that `rewind_sent` goes back to.
unfoldable pub clamp : ℕ → SendSide → ℕ
clamp off s =
    let low = if ltb off s.send_base then s.send_base else off in
    if ltb s.send_end low then s.send_end else low

unfoldable pub rewind_sent : ℕ → Bool → SendSide → SendSide
unfolding clamp
rewind_sent off fin_was_sent s = record s {
  send_sent = if ltb (clamp off s) s.send_sent then clamp off s else s.send_sent;
  fin_sent = if fin_was_sent && not s.fin_acked then false else s.fin_sent;
  send_st = elim s.send_st [ data_sent ↦ if s.fin_acked then data_sent else sending | st ↦ st ];
}

-- The part of `on_acked` for a span that reaches past `send_base`, up to the call of `absorb`.
unfoldable pub free_span : ℕ → ℕ → SendSide → SendSide
unfolding rewind_sent add
free_span off end s =
    if leb off s.send_base then record s { send_base = end } else elim (add off end s.ack_ext) [
      | none ↦ rewind_sent off false s
      | some ext ↦ record s { ack_ext = ext }
    ]

unfoldable pub absorb_acked : SendSide → SendSide
unfolding absorb
absorb_acked s =
    let (base, ext) = absorb s.send_base s.ack_ext in record s { send_base = base; ack_ext = ext }

-- The two limits at the end of `on_acked`.
unfoldable pub limit_base : SendSide → SendSide
limit_base s =
    let base = if ltb s.send_end s.send_base then s.send_end else s.send_base in
    record s { send_base = base; send_sent = if ltb s.send_sent base then base else s.send_sent }

unfoldable pub on_acked : ℕ → ℕ → Bool → SendSide → SendSide
unfolding free_span absorb_acked limit_base
on_acked off len fin s =
    let end = off + len in
    let s' = record s { fin_acked = s.fin_acked || fin && (end == s.send_end) && s.want_fin } in
    limit_base
      (if ltb 0 len && ltb s.send_base end then absorb_acked (free_span off end s') else s')

unfoldable pub abandon_send : SendSide → SendSide
abandon_send s = record s {
  pending = [];
  pending_off = 0;
  pending_fin = false;
  send_base = s.send_end;
  send_sent = s.send_end;
  want_fin = false;
  send_st = reset_sent;
}

unfoldable pub send_done : SendSide → Bool
unfolding pending_empty
send_done s =
    (elim s.send_st [ reset_sent ↦ true | st ↦ false ])
    || s.fin_acked && (s.send_base == s.send_end) && pending_empty s
