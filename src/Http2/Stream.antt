-- ===== src/Http2/Stream.antt =====
-- The stream state machine and the flow-control windows of Http2Stream
-- (src/http/http2_stream.cpp). An int32_t is its 32-bit pattern, below 2^32.
pub mod Closing
pub mod Windows
use bolt_api.Prelude.{
  ℕ, ◌+◌, ◌-◌, ◌%◌, ◌^◌, Bool, true, false, ◌||◌, ltb, leb, ◌==◌, if◌then◌else◌, Option, none, some,
}

pub data StreamState : Type 0 where
  idle reserved_local reserved_remote opened half_closed_local half_closed_remote closed :
      StreamState

unfoldable pub on_headers_sent : Bool → StreamState → StreamState
on_headers_sent end_stream idle = if end_stream then half_closed_local else opened
on_headers_sent end_stream reserved_local = if end_stream then half_closed_local else opened
on_headers_sent end_stream opened = if end_stream then half_closed_local else opened
on_headers_sent end_stream half_closed_remote = if end_stream then closed else half_closed_remote
on_headers_sent end_stream st = st

unfoldable pub on_headers_received : Bool → StreamState → StreamState
on_headers_received end_stream idle = if end_stream then half_closed_remote else opened
on_headers_received end_stream reserved_remote = if end_stream then half_closed_remote else opened
on_headers_received end_stream opened = if end_stream then half_closed_remote else opened
on_headers_received end_stream half_closed_local = if end_stream then closed else half_closed_local
on_headers_received end_stream st = st

unfoldable pub on_data_sent : Bool → StreamState → StreamState
on_data_sent true opened = half_closed_local
on_data_sent true half_closed_remote = closed
on_data_sent end_stream st = st

unfoldable pub on_data_received : Bool → StreamState → StreamState
on_data_received true opened = half_closed_remote
on_data_received true half_closed_local = closed
on_data_received end_stream st = st

abbrev pub on_rst_stream : StreamState → StreamState
on_rst_stream st = closed

unfoldable pub on_push_promise_sent : StreamState → StreamState
on_push_promise_sent idle = reserved_local
on_push_promise_sent st = st

unfoldable pub on_push_promise_received : StreamState → StreamState
on_push_promise_received idle = reserved_remote
on_push_promise_received st = st

unfoldable pub is_closed : StreamState → Bool
is_closed closed = true
is_closed st = false

unfoldable pub can_send : StreamState → Bool
can_send opened = true
can_send half_closed_remote = true
can_send st = false

unfoldable pub can_receive : StreamState → Bool
can_receive opened = true
can_receive half_closed_local = true
can_receive st = false

-- The place of a 32-bit pattern in the signed order.
abbrev pub signed_rank : ℕ → ℕ
signed_rank x = (x + 2 ^ 31) % 2 ^ 32

abbrev pub int32_max : ℕ
int32_max = 2 ^ 31 - 1

-- `a - b` of two int32_t.
abbrev pub sub32 : ℕ → ℕ → ℕ
sub32 a b = (a + 2 ^ 32 - b) % 2 ^ 32

-- `update_send_window` and `update_recv_window` do the same on their windows; `none` is the error.
unfoldable pub update_window : ℕ → ℕ → Option ℕ
update_window increment window =
    if leb (signed_rank increment) (signed_rank 0)
    then none
    else if ltb (signed_rank (sub32 int32_max increment)) (signed_rank window)
    then none
    else some ((window + increment) % 2 ^ 32)

-- `consume_send_window` and `consume_recv_window`, likewise; the size is cast to int32_t.
unfoldable pub consume_window : ℕ → ℕ → Option ℕ
consume_window size window =
    if ltb (signed_rank window) (signed_rank size) then none else some (sub32 window size)

pub record Http2Stream : Type 0 where
  pub stream_id : ℕ
  pub state : StreamState
  pub send_window : ℕ
  pub recv_window : ℕ

unfoldable pub new_stream : ℕ → ℕ → Http2Stream
new_stream stream_id initial_window_size = record {
  stream_id = stream_id;
  state = idle;
  send_window = initial_window_size;
  recv_window = initial_window_size;
}

-- The part of `update_initial_window_size` for one stream: `diff` is the difference of the sizes
-- as an int32_t, and an update that is refused is not reported.
unfoldable pub shift_send_window : ℕ → Http2Stream → Http2Stream
unfolding update_window
shift_send_window diff s =
    if diff == 0
    then s
    else if ltb diff (2 ^ 31)
    then elim (update_window diff s.send_window) [
      | none ↦ s
      | some w ↦ record s { send_window = w }
    ]
    else record s { send_window = (s.send_window + diff) % 2 ^ 32 }
