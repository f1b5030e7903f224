-- ===== src/Quic/Frames/Reader.antt =====
-- How the parsers of frames.h read a buffer. They keep a position; the model keeps the bytes
-- behind it, so `out_consumed` is the length of the buffer less that of the bytes returned.
use bolt_api.Prelude.{
  ℕ, ◌≤◌, ◌≡◌, ap, List, ◌++◌, none, some, ltb, length, length-append, take, drop, if◌then◌else◌,
  arith, take-length_append, drop-length_append, false,
}
use bolt_api.Quic.Varint.{var_int_max, varint_encode, varint_decode}
use bolt_api.Quic.Varint.RoundTrip.{varint_decode-varint_encode}
use bolt_api.Quic.Varint.Decode.{length-varint_encode}

-- kFrameOk with what was read, kFrameNeedMore and kFrameError.
pub data Parse {ℓ} (A : Type ℓ) : Type ℓ where
  frame_ok : A → Parse A
  need_more : Parse A
  frame_error : Parse A

infixl 5 ◌>>=◌
abbrev pub ◌>>=◌ {ℓ κ} : {A : Type ℓ} {B : Type κ} → Parse A → (A → Parse B) → Parse B
frame_ok a >>= f = f a
need_more >>= f = need_more
frame_error >>= f = frame_error

-- One `varint_decode` at the position, with its test and the step of the position.
unfoldable pub read_varint : List ℕ → Parse (ℕ × List ℕ)
read_varint buf = elim (varint_decode buf) [
  | none ↦ need_more
  | some (c, v) ↦ frame_ok (v, drop c buf)
]

-- `length` bytes at the position, if they are there.
unfoldable pub read_bytes : ℕ → List ℕ → Parse (List ℕ × List ℕ)
read_bytes n buf = if ltb (length buf) n then need_more else frame_ok (take n buf, drop n buf)

pub read_varint-varint_encode :
    (v : ℕ) (rest : List ℕ)
    → v ≤ var_int_max
    → read_varint (varint_encode v ++ rest) ≡ frame_ok (v, rest)
unfolding read_varint
read_varint-varint_encode v rest h =
    rw (varint_decode-varint_encode v rest h, read_varint, ← length-varint_encode v h)
      (ap (λ t. frame_ok (v, t)) (drop-length_append (varint_encode v) rest))

pub read_bytes-append :
    (bytes rest : List ℕ) → read_bytes (length bytes) (bytes ++ rest) ≡ frame_ok (bytes, rest)
unfolding read_bytes
read_bytes-append bytes rest =
    let enough : ltb (length (bytes ++ rest)) (length bytes) ≡ false =
      ground (arith, length-append bytes rest) in
    rw (enough, take-length_append bytes rest, drop-length_append bytes rest)

-- A step that succeeds goes on with what it read.
pub bind_ok {ℓ κ} :
    {A : Type ℓ} {B : Type κ} (m : Parse A) {a : A} (f : A → Parse B)
    → m ≡ frame_ok a
    → (m >>= f) ≡ f a
bind_ok m f e = ap (λ t. t >>= f) e
