-- ===== src/WebSocket/Frame/RoundTrip.antt =====
-- parse_frame against build_frame (src/http/websocket_parser.cpp).
use bolt_api.Prelude.{
  ℕ, zero, suc, ◌+◌, ◌-◌, ◌*◌, ◌/◌, ◌%◌, ◌^◌, ◌≤◌, ◌<◌, ◌≡◌, refl, sym, ap, ◌∙◌, Bool, true, false,
  Bool-cases, ltb, leb, ◌==◌, if◌then◌else◌, List, ltb→lt, leb→le, [], ◌∷◌, ◌++◌, length,
  append_assoc, take-length_append, drop-length_append, length-append, bit_and, bit_or, not, ◌&&◌,
  inl, inr, arith,
}
use bolt_api.Prelude.Bits.{bit_and_mask, bit_and_high, bit_or_disjoint}
use bolt_api.Quic.Varint.RoundTrip.{push_byte, shift_byte}
use native.Mathlib.Nat.{div-le_self}
use bolt_api.Prelude.Bytes.{has_bit}
use bolt_api.WebSocket.Frame.{
  FrameHeader, header_ok, flag, read_be, read_key, parse_header, take_frame, parse_frame, frame_ok,
  write_be, build_frame,
}

-- The header of a frame that `build_frame` writes: not masked, and no extension bit but rsv1.
abbrev pub built_header : ℕ → ℕ → Bool → Bool → FrameHeader
built_header opcode payload_length fin rsv1 = record {
  fin = fin;
  rsv1 = rsv1;
  rsv2 = false;
  rsv3 = false;
  opcode = opcode;
  mask = false;
  payload_length = payload_length;
  masking_key = 0 ∷ 0 ∷ 0 ∷ 0 ∷ [];
}

-- The loop of the parser reads back what htons and htobe64 wrote.
read_be-write_be :
    (n v : ℕ) (rest : List ℕ) → v < 2 ^ 63 → read_be n (v / 2 ^ (8 * n)) (write_be n v ++ rest) ≡ v
unfolding read_be write_be
read_be-write_be zero v rest h = omega arith
read_be-write_be (suc n) v rest h =
    let x : ℕ = v / 2 ^ (8 * n) in
    let small : x ≤ v = div-le_self v (2 ^ (8 * n)) in
    ap (λ t. read_be n t (write_be n v ++ rest))
      (ap (λ t. bit_or (t * 256 % 2 ^ 64) (x % 256)) (shift_byte v n)
        ∙ push_byte (x / 256) (x % 256) (omega arith) (omega arith)
        ∙ omega arith)
    ∙ read_be-write_be n v rest h

and_true : (a b : Bool) → (a && b) ≡ true → (a ≡ true) × (b ≡ true)
and_true true true h = (refl, refl)
and_true true false h = cc
and_true false b h = cc

length-write_be : (n v : ℕ) → length (write_be n v) ≡ n
unfolding write_be
length-write_be zero v = refl
length-write_be (suc n) v = ap suc (length-write_be n v)

all_below : ℕ → (ℕ → Bool) → Bool
all_below zero test = true
all_below (suc n) test = test n && all_below n test

all_below_lem :
    (n : ℕ) (test : ℕ → Bool) → all_below n test ≡ true → (i : ℕ) → i < n → test i ≡ true
unfolding all_below
all_below_lem zero test h i l = absurd (omega (arith, l))
all_below_lem (suc n) test h i l = elim (Bool-cases (i == n)) [
  | inl e ↦
      let same_index : i ≡ n = ground arith in
      rw same_index ((and_true (test n) (all_below n test) h).0)
  | inr e ↦ all_below_lem n test ((and_true (test n) (all_below n test) h).1) i (ground arith)
]

abbrev first_byte : ℕ → Bool → Bool → ℕ
first_byte opcode fin rsv1 = flag rsv1 0x40 (flag fin 0x80 opcode)

abbrev same : Bool → Bool → Bool
same true b = b
same false b = not b

-- The first byte says what it was made of.
abbrev says : Bool → Bool → ℕ → Bool
says fin rsv1 opcode =
    let b = first_byte opcode fin rsv1 in
    (bit_and b 0x0F == opcode)
    && (same (has_bit b 0x80) fin
        && (same (has_bit b 0x40) rsv1 && (not (has_bit b 0x20) && not (has_bit b 0x10))))

says_all : (fin rsv1 : Bool) → all_below 16 (says fin rsv1) ≡ true
unfolding all_below
says_all true true = refl
says_all true false = refl
says_all false true = refl
says_all false false = refl

same_eq : (a b : Bool) → same a b ≡ true → a ≡ b
same_eq true true h = refl
same_eq true false h = cc
same_eq false true h = cc
same_eq false false h = refl

not-true : (a : Bool) → not a ≡ true → a ≡ false
not-true true h = cc
not-true false h = refl

record Says (fin rsv1 : Bool) (opcode b : ℕ) : Type 0 where
  low : bit_and b 0x0F ≡ opcode
  fin_bit : has_bit b 0x80 ≡ fin
  rsv1_bit : has_bit b 0x40 ≡ rsv1
  rsv2_bit : has_bit b 0x20 ≡ false
  rsv3_bit : has_bit b 0x10 ≡ false

first_byte-Says :
    (fin rsv1 : Bool) (opcode : ℕ) → opcode < 16 → Says fin rsv1 opcode (first_byte opcode fin rsv1)
first_byte-Says fin rsv1 opcode h =
    let all : says fin rsv1 opcode ≡ true =
      all_below_lem 16 (says fin rsv1) (says_all fin rsv1) opcode h in
    let b : ℕ = first_byte opcode fin rsv1 in
    let free : Bool = not (has_bit b 0x20) && not (has_bit b 0x10) in
    let one : Bool = same (has_bit b 0x40) rsv1 && free in
    let (low, flags) = and_true (bit_and b 0x0F == opcode) (same (has_bit b 0x80) fin && one) all in
    let (bit_fin, flags_1) = and_true (same (has_bit b 0x80) fin) one flags in
    let (bit_rsv1, flags_2) = and_true (same (has_bit b 0x40) rsv1) free flags_1 in
    let (bit_rsv2, bit_rsv3) = and_true (not (has_bit b 0x20)) (not (has_bit b 0x10)) flags_2 in
    record {
      low = ground (arith, low);
      fin_bit = same_eq (has_bit b 0x80) fin bit_fin;
      rsv1_bit = same_eq (has_bit b 0x40) rsv1 bit_rsv1;
      rsv2_bit = not-true (has_bit b 0x20) bit_rsv2;
      rsv3_bit = not-true (has_bit b 0x10) bit_rsv3;
    }

-- The three length fields, each with the header that is read from it.
module _ (b0 opcode len : ℕ) (fin rsv1 : Bool) (rest : List ℕ) (s : Says fin rsv1 opcode b0) where
  parse_header_short :
      ltb len 126 ≡ true
      → parse_header (b0 ∷ len ∷ rest) ≡ header_ok (built_header opcode len fin rsv1) 2
  unfolding parse_header read_key
  parse_header_short small =
      let low : bit_and len 0x7F ≡ len = omega (arith, bit_and_mask 7 len, ltb→lt len 126 small) in
      let no_mask : bit_and len 0x80 ≡ 0 =
        bit_and_high 7 1 len
        ∙ ap (λ t. bit_and t 1 * 2 ^ 7)
            (let z : len / 2 ^ 7 ≡ 0 = omega (arith, ltb→lt len 126 small) in z) in
      rw (low, small, no_mask, s.low, s.fin_bit, s.rsv1_bit, s.rsv2_bit, s.rsv3_bit) refl

  parse_header_mid :
      leb len 0xFFFF ≡ true
      → parse_header (b0 ∷ 126 ∷ (write_be 2 len ++ rest))
        ≡ header_ok (built_header opcode len fin rsv1) 4
  unfolding parse_header read_key write_be
  parse_header_mid mid =
      let le : len ≤ 0xFFFF = leb→le len 0xFFFF mid in
      let enough : ltb (suc (suc (suc (suc (length rest))))) 4 ≡ false = ground arith in
      let value : bit_or (len / 2 ^ 8 % 256 * 256) (len / 2 ^ 0 % 256) ≡ len =
        bit_or_disjoint 8 (len / 2 ^ 8 % 256) (len / 2 ^ 0 % 256) (omega arith) ∙ omega arith in
      rw (enough, value, s.low, s.fin_bit, s.rsv1_bit, s.rsv2_bit, s.rsv3_bit) refl

  parse_header_long :
      len < 2 ^ 63
      → parse_header (b0 ∷ 127 ∷ (write_be 8 len ++ rest))
        ≡ header_ok (built_header opcode len fin rsv1) 10
  unfolding parse_header read_key
  parse_header_long h =
      let size : length (write_be 8 len ++ rest) ≡ 8 + length rest =
        omega (arith, length-append (write_be 8 len) rest, length-write_be 8 len) in
      let enough : ltb (suc (suc (length (write_be 8 len ++ rest)))) 10 ≡ false =
        ground (arith, size) in
      let zero_top : len / 2 ^ 64 ≡ 0 = omega arith in
      let value : read_be 8 0 (write_be 8 len ++ rest) ≡ len =
        ap (λ t. read_be 8 t (write_be 8 len ++ rest)) (sym zero_top)
        ∙ read_be-write_be 8 len rest h in
      let legal : (len / 2 ^ 63 == 0) ≡ true = ground arith in
      rw (enough, value, legal, s.low, s.fin_bit, s.rsv1_bit, s.rsv2_bit, s.rsv3_bit) refl

-- What `build_frame` writes in front of the payload.
abbrev front : ℕ → ℕ → Bool → Bool → List ℕ
front opcode len fin rsv1 =
    first_byte opcode fin rsv1
    ∷ (if ltb len 126
        then len ∷ []
        else if leb len 0xFFFF
        then 126 ∷ write_be 2 len
        else 127 ∷ write_be 8 len)

parse_header-front :
    (opcode len : ℕ) (fin rsv1 : Bool) (rest : List ℕ)
    → opcode < 16
    → len < 2 ^ 63
    → parse_header (front opcode len fin rsv1 ++ rest)
      ≡ header_ok (built_header opcode len fin rsv1) (length (front opcode len fin rsv1))
parse_header-front opcode len fin rsv1 rest small_op h =
    let b0 : ℕ = first_byte opcode fin rsv1 in
    let s : Says fin rsv1 opcode b0 = first_byte-Says fin rsv1 opcode small_op in
    elim (Bool-cases (ltb len 126)) [
      | inl small ↦ rw small (parse_header_short b0 opcode len fin rsv1 rest s small)
      | inr large ↦ elim (Bool-cases (leb len 0xFFFF)) [
        | inl mid ↦
            rw (large, mid, length-write_be 2 len)
              (parse_header_mid b0 opcode len fin rsv1 rest s mid)
        | inr big ↦
            rw (large, big, length-write_be 8 len)
              (parse_header_long b0 opcode len fin rsv1 rest s h)
      ]
    ]

parse_frame-front :
    (head payload rest : List ℕ) (h : FrameHeader)
    → parse_header (head ++ (payload ++ rest)) ≡ header_ok h (length head)
    → h.payload_length ≡ length payload
    → parse_frame (head ++ (payload ++ rest)) ≡ frame_ok h payload (length head + length payload)
unfolding parse_frame take_frame
parse_frame-front head payload rest h e l =
    let enough : ltb (length (head ++ (payload ++ rest)) - length head) (length payload) ≡ false =
      ground (arith, length-append head (payload ++ rest), length-append payload rest) in
    rw (e, l, enough, drop-length_append head (payload ++ rest), take-length_append payload rest)
      refl

-- A frame that `build_frame` writes, of any opcode and flags and of any payload below 2^63 bytes, is
-- parsed back whole, whatever follows it: the same header, not masked, the same payload, and as
-- many bytes consumed as were written.
pub parse_frame-build_frame :
    (opcode : ℕ) (payload rest : List ℕ) (fin rsv1 : Bool)
    → opcode < 16
    → length payload < 2 ^ 63
    → parse_frame (build_frame opcode payload fin rsv1 ++ rest)
      ≡ frame_ok
          (built_header opcode (length payload) fin rsv1)
          payload
          (length (build_frame opcode payload fin rsv1))
unfolding build_frame
parse_frame-build_frame opcode payload rest fin rsv1 small h =
    let head : List ℕ = front opcode (length payload) fin rsv1 in
    rw (append_assoc head payload rest, length-append head payload)
      (parse_frame-front head payload rest (built_header opcode (length payload) fin rsv1)
        (parse_header-front opcode (length payload) fin rsv1 (payload ++ rest) small h) refl)
