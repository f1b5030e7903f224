-- ===== src/Quic/Stream/Reassembly.antt =====
-- The receive side puts a stream back together: the ring holds the bytes of the stream, and the
-- cursor and the extents say exactly which.
use bolt_api.Prelude.{
  ◌⊎◌, ℕ, zero, suc, ◌+◌, ◌-◌, ◌%◌, ◌≤◌, ◌<◌, ◌≡◌, refl, sym, ap, ◌∙◌, subst, Bool, true, false,
  ◌||◌, List, [], ◌∷◌, ltb, leb, ◌==◌, length, length-drop, drop, arith, Bool-cases, Option-cases,
  inl, inr,
}
use bolt_api.Quic.Stream.Ring.{stream_buffer_size, ring_copy}
use bolt_api.Quic.Stream.RingLaws.{Agrees, ring_write_hit, ring_write_miss, ring_copy-ring_write}
use bolt_api.Quic.Stream.Extents.{ExtentSet, max_recv_extents, add, absorb}
use bolt_api.Quic.Stream.ExtentLaws.{covers, holds, Within, Added, add-Added, length-add}
use bolt_api.Quic.Stream.AbsorbLaws.{Absorbed, absorb-Absorbed}
use bolt_api.Quic.Stream.Receive.{RecvSide, absorb_into, store_from, store}

-- Offset `o` was received: it lies below the cursor or in an extent.
abbrev pub got : RecvSide → ℕ → Bool
got r o = ltb o r.recv_cursor || covers r.recv_ext o

-- `S` is what the peer sends: the byte at each offset.
pub record Holds (S : ℕ → ℕ) (r : RecvSide) : Type 0 where
  pub read_behind : r.read_cursor ≤ r.recv_cursor
  pub cursor_behind : r.recv_cursor ≤ r.recv_high
  pub in_window : r.recv_high ≤ r.recv_max
  pub window_fits : r.recv_max ≤ r.read_cursor + stream_buffer_size
  pub count : length r.recv_ext ≤ max_recv_extents
  pub within : Within r.recv_high r.recv_ext
  pub gap : covers r.recv_ext r.recv_cursor ≡ false
  pub final : r.have_fin ≡ true → r.recv_high ≤ r.fin_off
  pub content :
      (o : ℕ) → r.read_cursor ≤ o → got r o ≡ true → r.recv_buf (o % stream_buffer_size) ≡ S o

covers-Within : (high o : ℕ) (ext : ExtentSet) → Within high ext → covers ext o ≡ true → o < high
covers-Within high o [] w e = cc
covers-Within high o (x ∷ ext) w e = ground (arith, covers-Within high o ext)

got-lt : (S : ℕ → ℕ) (r : RecvSide) (o : ℕ) → Holds S r → got r o ≡ true → o < r.recv_high
got-lt S r o h e = ground (arith, h.cursor_behind, covers-Within r.recv_high o r.recv_ext h.within)

-- What storing bytes [at, e) leaves; `r` is the state before.
pub record Stored (S : ℕ → ℕ) (r : RecvSide) (at e : ℕ) (res : Bool × RecvSide) : Type 0 where
  pub kept : Holds S res.1
  pub gained : res.0 ≡ true → (o : ℕ) → got res.1 o ≡ (got r o || holds at e o)

or_left : (x y : Bool) → x ≡ true → (x || y) ≡ true
or_left x y e = rw e

or_rotate : (x y z : Bool) → (x || (y || z)) ≡ (x || z || y)
or_rotate true y z = refl
or_rotate false true true = refl
or_rotate false true false = refl
or_rotate false false true = refl
or_rotate false false false = refl

contiguous :
    (cursor at e o : ℕ) (below : Bool)
    → at ≡ cursor
    → at ≤ e
    → (ltb o e || below) ≡ (ltb o cursor || below || holds at e o)
contiguous cursor at e o below same h = ground arith

-- Bytes that agree with the stream, none of them before the cursor, all below `recv_high`.
module _ (S : ℕ → ℕ) (r : RecvSide) (h : Holds S r) (at : ℕ) (bytes : List ℕ)
    (agrees : Agrees S at bytes) (new : r.recv_cursor ≤ at)
    (below : at + length bytes ≤ r.recv_high) (some_bytes : 0 < length bytes) where
  fits : length bytes ≤ stream_buffer_size
  fits = omega (arith, h.read_behind, h.in_window, h.window_fits)

  filled :
      (o : ℕ)
      → r.read_cursor ≤ o
      → (got r o || holds at (at + length bytes) o) ≡ true
      → ring_copy r.recv_buf at bytes (o % stream_buffer_size) ≡ S o
  filled o past e = elim (Bool-cases (holds at (at + length bytes) o)) [
    | inl new_byte ↦
        rw (ring_copy-ring_write r.recv_buf at bytes fits)
          (ring_write_hit S r.recv_buf at o bytes agrees fits (ground arith) (ground arith))
    | inr old_byte ↦
        let before : got r o ≡ true = ground arith in
        let under : o < r.recv_high = got-lt S r o h before in
        rw (ring_copy-ring_write r.recv_buf at bytes fits) (
          ring_write_miss r.recv_buf at o bytes fits (
            apart old_byte (omega (arith, h.read_behind, h.in_window, h.window_fits))
              (omega (arith, h.read_behind, h.in_window, h.window_fits)))
          ∙ h.content o past before)
  ]
    where
      apart :
          holds at (at + length bytes) o ≡ false
          → at + length bytes ≤ o + stream_buffer_size
          → o < at + stream_buffer_size
          → ((o < at) × (at + length bytes ≤ o + stream_buffer_size))
            ⊎ ((at + length bytes ≤ o) × (o < at + stream_buffer_size))
      apart e a b = ground arith

  -- The bytes are in the ring, and `cursor` and `ext` account for them.
  settled :
      (cursor : ℕ) (ext : ExtentSet)
      → r.read_cursor ≤ cursor
      → cursor ≤ r.recv_high
      → length ext ≤ max_recv_extents
      → Within r.recv_high ext
      → ((o : ℕ) → (ltb o cursor || covers ext o) ≡ (got r o || holds at (at + length bytes) o))
      → Stored S r at
          (at + length bytes)
          (true, absorb_into cursor ext (record r { recv_buf = ring_copy r.recv_buf at bytes }))
  unfolding absorb_into
  settled cursor ext past k c w accounts =
      let a : Absorbed cursor r.recv_high ext (absorb cursor ext) =
        absorb-Absorbed cursor r.recv_high ext c k w in
      record {
        kept = record {
          read_behind = omega (arith, a.forward);
          cursor_behind = a.bounded;
          in_window = h.in_window;
          window_fits = h.window_fits;
          count = omega (arith, a.short);
          within = a.within;
          gap = a.gap;
          final = h.final;
          content = λ o p g. filled o p (sym (a.same o ∙ accounts o) ∙ g);
        };
        gained = λ _ o. a.same o ∙ accounts o;
      }

  store_from-Stored : Stored S r at (at + length bytes) (store_from at bytes r)
  unfolding store_from
  store_from-Stored = elim (Bool-cases (at == r.recv_cursor)) [
    | inl next ↦
        rw (next, store_from)
          (settled (at + length bytes) r.recv_ext (omega (arith, h.read_behind)) below h.count
            h.within
            (λ o.
              contiguous r.recv_cursor at (at + length bytes) o (covers r.recv_ext o) (ground arith)
                (omega arith)))
    | inr gapped ↦ elim (Option-cases (add at (at + length bytes) r.recv_ext)) [
      | inl full ↦
          rw (gapped, full, store_from)
            (record {
              kept = record {
                read_behind = h.read_behind;
                cursor_behind = h.cursor_behind;
                in_window = h.in_window;
                window_fits = h.window_fits;
                count = h.count;
                within = h.within;
                gap = h.gap;
                final = h.final;
                content = λ o p g. filled o p (or_left (got r o) _ g);
              };
              gained = λ e. cc;
            })
      | inr (ext, added) ↦
          let a : Added at (at + length bytes) r.recv_high r.recv_ext ext =
            add-Added at (at + length bytes) r.recv_high r.recv_ext ext (omega arith) below h.within
              added in
          rw (gapped, added, store_from)
            (settled r.recv_cursor ext h.read_behind h.cursor_behind
              (length-add at (at + length bytes) r.recv_ext ext h.count added) a.within
              (λ o.
                ap (λ t. ltb o r.recv_cursor || t) (a.covered o)
                ∙ or_rotate (ltb o r.recv_cursor) (holds at (at + length bytes) o)
                    (covers r.recv_ext o)))
    ]
  ]

-- Offsets below the cursor add nothing.
known :
    (cursor offset e o : ℕ) (x : Bool)
    → e ≤ cursor
    → (ltb o cursor || x) ≡ (ltb o cursor || x || holds offset e o)
known cursor offset e o x h = ground arith

known_start :
    (cursor offset e o : ℕ) (x : Bool)
    → offset ≤ cursor
    → (ltb o cursor || x || holds cursor e o) ≡ (ltb o cursor || x || holds offset e o)
known_start cursor offset e o x h = ground arith

pub Agrees-drop :
    (S : ℕ → ℕ) (at k : ℕ) (bytes : List ℕ) → Agrees S at bytes → Agrees S (at + k) (drop k bytes)
Agrees-drop S at zero bytes a =
    let e : at ≡ at + 0 = omega arith in subst (λ t. Agrees S t bytes) e a
Agrees-drop S at (suc k) [] a = tt
Agrees-drop S at (suc k) (b ∷ bytes) (e, a) =
    let next : at + 1 + k ≡ at + suc k = omega arith in
    subst (λ t. Agrees S t (drop k bytes)) next (Agrees-drop S (at + 1) k bytes a)

pub store-Stored :
    (S : ℕ → ℕ) (r : RecvSide) (offset : ℕ) (bytes : List ℕ)
    → Holds S r
    → Agrees S offset bytes
    → 0 < length bytes
    → offset + length bytes ≤ r.recv_high
    → Stored S r offset (offset + length bytes) (store offset bytes r)
unfolding store
store-Stored S r offset bytes h a ne le = elim (Bool-cases (ltb offset r.recv_cursor)) [
  | inr ahead ↦ rw (ahead, store) (store_from-Stored S r h offset bytes a (ground arith) le ne)
  | inl behind ↦ elim (Bool-cases (leb (length bytes) (r.recv_cursor - offset))) [
    | inl duplicate ↦
        rw (behind, duplicate, store)
          (record { kept = h; gained = λ _ o. known _ _ _ o _ (ground arith) })
    | inr partial ↦ rw (behind, partial, store) (past_known (ground arith) (ground arith))
  ]
]
  where
    k : ℕ
    k = r.recv_cursor - offset

    past_known :
        offset < r.recv_cursor
        → k < length bytes
        → Stored S r offset (offset + length bytes) (store_from r.recv_cursor (drop k bytes) r)
    past_known b p =
        let start : offset + k ≡ r.recv_cursor = omega arith in
        let size : r.recv_cursor + length (drop k bytes) ≡ offset + length bytes =
          omega (arith, length-drop k bytes) in
        let rest : Agrees S r.recv_cursor (drop k bytes) =
          subst (λ t. Agrees S t (drop k bytes)) start (Agrees-drop S offset k bytes a) in
        let st : Stored S r r.recv_cursor (r.recv_cursor + length (drop k bytes))
            (store_from r.recv_cursor (drop k bytes) r) =
          store_from-Stored S r h r.recv_cursor (drop k bytes) rest (omega arith)
            (omega (arith, length-drop k bytes)) (omega (arith, length-drop k bytes)) in
        record {
          kept = st.kept;
          gained = λ e o.
              st.gained e o
              ∙ ap (λ t. got r o || holds r.recv_cursor t o) size
              ∙ known_start r.recv_cursor offset (offset + length bytes) o (covers r.recv_ext o)
                  (omega arith);
        }
