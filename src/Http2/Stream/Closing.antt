-- ===== src/Http2/Stream/Closing.antt =====
-- How an HTTP/2 stream closes, over every sequence of its events.
use bolt_api.Prelude.{◌≡◌, Bool, true, false, arith}
use bolt_api.Http2.Stream.{
  StreamState, half_closed_local, half_closed_remote, closed, on_headers_sent, on_headers_received,
  on_data_sent, on_data_received, on_rst_stream, on_push_promise_sent, on_push_promise_received,
  is_closed, can_send, can_receive,
}

-- The calls of the connection, in any order.
pub data StreamStep : StreamState → StreamState → Type 0 where
  headers_sent : (end_stream : Bool) (s : StreamState) → StreamStep s (on_headers_sent end_stream s)
  headers_received :
      (end_stream : Bool) (s : StreamState) → StreamStep s (on_headers_received end_stream s)
  data_sent : (end_stream : Bool) (s : StreamState) → StreamStep s (on_data_sent end_stream s)
  data_received :
      (end_stream : Bool) (s : StreamState) → StreamStep s (on_data_received end_stream s)
  rst_stream : (s : StreamState) → StreamStep s (on_rst_stream s)
  promise_sent : (s : StreamState) → StreamStep s (on_push_promise_sent s)
  promise_received : (s : StreamState) → StreamStep s (on_push_promise_received s)

pub data StreamRun (s : StreamState) : StreamState → Type 0 where
  start : StreamRun s s
  more : {t u : StreamState} → StreamRun s t → StreamStep t u → StreamRun s u

-- Whether this side, or the peer, has ended its direction of the stream.
abbrev pub local_ended : StreamState → Bool
local_ended half_closed_local = true
local_ended closed = true
local_ended st = false

abbrev pub remote_ended : StreamState → Bool
remote_ended half_closed_remote = true
remote_ended closed = true
remote_ended st = false

local_ended-step :
    {s t : StreamState} → StreamStep s t → local_ended s ≡ true → local_ended t ≡ true
unfolding on_headers_sent on_headers_received on_data_sent on_data_received on_push_promise_sent
    on_push_promise_received
local_ended-step (headers_sent e s) h = ground arith
local_ended-step (headers_received e s) h = ground arith
local_ended-step (data_sent e s) h = ground arith
local_ended-step (data_received e s) h = ground arith
local_ended-step (rst_stream s) h = ground arith
local_ended-step (promise_sent s) h = ground arith
local_ended-step (promise_received s) h = ground arith

local_ended-run : {s t : StreamState} → StreamRun s t → local_ended s ≡ true → local_ended t ≡ true
local_ended-run start h = h
local_ended-run (more r st) h = local_ended-step st (local_ended-run r h)

remote_ended-step :
    {s t : StreamState} → StreamStep s t → remote_ended s ≡ true → remote_ended t ≡ true
unfolding on_headers_sent on_headers_received on_data_sent on_data_received on_push_promise_sent
    on_push_promise_received
remote_ended-step (headers_sent e s) h = ground arith
remote_ended-step (headers_received e s) h = ground arith
remote_ended-step (data_sent e s) h = ground arith
remote_ended-step (data_received e s) h = ground arith
remote_ended-step (rst_stream s) h = ground arith
remote_ended-step (promise_sent s) h = ground arith
remote_ended-step (promise_received s) h = ground arith

remote_ended-run :
    {s t : StreamState} → StreamRun s t → remote_ended s ≡ true → remote_ended t ≡ true
remote_ended-run start h = h
remote_ended-run (more r st) h = remote_ended-step st (remote_ended-run r h)

local_ended-can_send : (s : StreamState) → local_ended s ≡ true → can_send s ≡ false
unfolding can_send
local_ended-can_send s h = ground arith

remote_ended-can_receive : (s : StreamState) → remote_ended s ≡ true → can_receive s ≡ false
unfolding can_receive
remote_ended-can_receive s h = ground arith

on_data_sent-ends : (s : StreamState) → can_send s ≡ true → local_ended (on_data_sent true s) ≡ true
unfolding can_send on_data_sent
on_data_sent-ends s h = ground arith

-- When END_STREAM goes out in a DATA frame of a stream that can send, then whatever happens next,
-- the stream can never send again.
pub can_send-after_end :
    (s : StreamState) {t : StreamState}
    → can_send s ≡ true
    → StreamRun (on_data_sent true s) t
    → can_send t ≡ false
can_send-after_end s {t} h r = local_ended-can_send t (local_ended-run r (on_data_sent-ends s h))

on_data_received-ends :
    (s : StreamState) → can_receive s ≡ true → remote_ended (on_data_received true s) ≡ true
unfolding can_receive on_data_received
on_data_received-ends s h = ground arith

-- When the peer's END_STREAM comes in a DATA frame of a stream that can receive, then whatever
-- happens next, the stream can never receive again.
can_receive-after_end :
    (s : StreamState) {t : StreamState}
    → can_receive s ≡ true
    → StreamRun (on_data_received true s) t
    → can_receive t ≡ false
can_receive-after_end s {t} h r =
    remote_ended-can_receive t (remote_ended-run r (on_data_received-ends s h))

both_ended :
    (s : StreamState) → is_closed s ≡ true → (local_ended s ≡ true) × (remote_ended s ≡ true)
unfolding is_closed
both_ended s h = ground arith

ended-is_closed :
    (s : StreamState) → local_ended s ≡ true → remote_ended s ≡ true → is_closed s ≡ true
unfolding is_closed
ended-is_closed s l m = ground arith

-- A closed stream stays closed, whatever is called on it.
is_closed-run : {s t : StreamState} → StreamRun s t → is_closed s ≡ true → is_closed t ≡ true
is_closed-run {s} {t} r h =
    let (l, m) = both_ended s h in ended-is_closed t (local_ended-run r l) (remote_ended-run r m)
