-- ===== src/Quic/Stream/Ring.antt =====
-- include/boltapi/quic/stream.h: the byte rings. A ring is a function from its indices to bytes;
-- the byte of absolute offset `o` stands at `o % kStreamBufferSize`.
use bolt_api.Prelude.{
  ℕ, ◌+◌, ◌-◌, ◌*◌, ◌%◌, List, [], ◌∷◌, ltb, ◌==◌, length, take, drop, if◌then◌else◌,
}

abbrev pub stream_buffer_size : ℕ
stream_buffer_size = 256 * 1024

abbrev pub Buffer : Type 0
Buffer = ℕ → ℕ

abbrev pub put_byte : Buffer → ℕ → ℕ → Buffer
put_byte buf pos b i = if i == pos then b else buf i

-- One memcpy to index `pos`.
unfoldable pub copy_to : Buffer → ℕ → List ℕ → Buffer
copy_to buf pos [] = buf
copy_to buf pos (b ∷ bytes) = copy_to (put_byte buf pos b) (pos + 1) bytes

-- The two copies of `ring_put` and `store`: up to the end of the ring, and on from its start.
unfoldable pub ring_copy : Buffer → ℕ → List ℕ → Buffer
unfolding copy_to
ring_copy buf offset bytes =
    let pos = offset % stream_buffer_size in
    let room = stream_buffer_size - pos in
    let first = if ltb (length bytes) room then length bytes else room in
    copy_to (copy_to buf pos (take first bytes)) 0 (drop first bytes)

-- The contiguous bytes that a pointer to index `pos` shows, `n` of them.
unfoldable pub view : Buffer → ℕ → ℕ → List ℕ
view buf pos ℕ.zero = []
view buf pos (ℕ.suc n) = buf pos ∷ view buf (pos + 1) n
