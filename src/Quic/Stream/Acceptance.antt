-- ===== src/Quic/Stream/Acceptance.antt =====
-- What `receive` does around `store`: its checks, and the notes it takes of the end of the stream
-- (include/boltapi/quic/stream.h).
use bolt_api.Prelude.{
  ℕ, ◌+◌, ◌≤◌, ◌≡◌, refl, ◌∙◌, Bool, true, false, ◌&&◌, [], ◌∷◌, leb, arith, Bool-cases, inl, inr,
}
use bolt_api.Quic.Stream.Ring.{stream_buffer_size}
use bolt_api.Quic.Stream.Extents.{ExtentSet}
use bolt_api.Quic.Stream.ExtentLaws.{Within}
use bolt_api.Quic.Stream.Receive.{RecvSide, refuses, note_end, note_complete, accept}
use bolt_api.Quic.Stream.Reassembly.{got, Holds, Stored}

-- The checks that a frame has passed.
pub record Accepted (offset len : ℕ) (fin : Bool) (r : RecvSide) : Type 0 where
  pub allowed : offset + len ≤ r.recv_max
  pub in_ring : offset + len ≤ r.read_cursor + stream_buffer_size
  pub in_size : r.have_fin ≡ true → offset + len ≤ r.fin_off
  pub is_size : fin ≡ true → r.recv_high ≤ offset + len

pub refuses-Accepted :
    (offset len : ℕ) (fin : Bool) (r : RecvSide)
    → refuses offset len fin r ≡ false
    → Accepted offset len fin r
unfolding refuses
refuses-Accepted offset len fin r e = record {
  allowed = ground arith;
  in_ring = ground arith;
  in_size = λ h. ground arith;
  is_size = λ h. ground arith;
}

Within-mono : (a b : ℕ) (ext : ExtentSet) → a ≤ b → Within a ext → Within b ext
Within-mono a b [] h w = tt
Within-mono a b (x ∷ ext) h (ne, le, w) = (ne, omega arith, Within-mono a b ext h w)

pub note_end-Holds :
    (S : ℕ → ℕ) (r : RecvSide) (offset len : ℕ) (fin : Bool)
    → Holds S r
    → Accepted offset len fin r
    → Holds S (note_end (offset + len) fin r)
unfolding note_end
note_end-Holds S r offset len true h c = record {
  read_behind = h.read_behind;
  cursor_behind = ground (arith, h.cursor_behind);
  in_window = ground (arith, h.in_window, c.allowed);
  window_fits = h.window_fits;
  count = h.count;
  within = Within-mono r.recv_high _ r.recv_ext (ground arith) h.within;
  gap = h.gap;
  final = λ _. ground (arith, c.is_size refl);
  content = h.content;
}
note_end-Holds S r offset len false h c = record {
  read_behind = h.read_behind;
  cursor_behind = ground (arith, h.cursor_behind);
  in_window = ground (arith, h.in_window, c.allowed);
  window_fits = h.window_fits;
  count = h.count;
  within = Within-mono r.recv_high _ r.recv_ext (ground arith) h.within;
  gap = h.gap;
  final = λ e. ground (arith, h.final e, c.in_size e);
  content = h.content;
}

pub note_end_high :
    (e : ℕ) (fin : Bool) (r : RecvSide)
    → (e ≤ (note_end e fin r).recv_high) × ((o : ℕ) → got (note_end e fin r) o ≡ got r o)
unfolding note_end
note_end_high e true r = (ground arith, λ o. refl)
note_end_high e false r = (ground arith, λ o. refl)

note_complete-Holds : (S : ℕ → ℕ) (r : RecvSide) → Holds S r → Holds S (note_complete r)
unfolding note_complete
note_complete-Holds S r h = elim (Bool-cases (r.have_fin && leb r.fin_off r.recv_cursor)) [
  | inl done ↦
      rw (done, note_complete)
        (record {
          read_behind = h.read_behind;
          cursor_behind = h.cursor_behind;
          in_window = h.in_window;
          window_fits = h.window_fits;
          count = h.count;
          within = h.within;
          gap = h.gap;
          final = h.final;
          content = h.content;
        })
  | inr waits ↦ rw (waits, note_complete) h
]

note_complete-got : (r : RecvSide) (o : ℕ) → got (note_complete r) o ≡ got r o
unfolding note_complete
note_complete-got r o = ground arith

pub accept-Stored :
    (S : ℕ → ℕ) (r : RecvSide) (at e : ℕ) (res : Bool × RecvSide)
    → Stored S r at e res
    → Stored S r at e (accept res)
unfolding accept
accept-Stored S r at e (true, r') st = record {
  kept = note_complete-Holds S r' st.kept;
  gained = λ ok o. note_complete-got r' o ∙ st.gained refl o;
}
accept-Stored S r at e (false, r') st = st
