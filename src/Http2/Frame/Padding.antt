-- ===== src/Http2/Frame/Padding.antt =====
-- Padding in the parsers of src/http/http2_frame.cpp.
use bolt_api.Prelude.{
  ℕ, zero, suc, ◌+◌, ◌-◌, ◌≤◌, ◌≡◌, refl, sym, ap, ◌∙◌, Bool, true, false, ◌==◌, if◌then◌else◌,
  Bool-cases, inl, inr, ltb, leb, Option, none, List, [], ◌∷◌, ◌++◌, length, drop, append-nil,
  length-append, length-drop, arith,
}
use bolt_api.Prelude.Bytes.{has_bit}
use bolt_api.Http2.Frame.{
  FrameHeader, padded_flag, priority_flag, read_uint32, body, priority_spec, read_priority,
  parse_data_frame, parse_headers_frame, parse_push_promise_frame,
}
use bolt_api.Http2.Frame.Payloads.{wide, body_lem, whole}

drop-front :
    (n : ℕ) (bytes padding : List ℕ)
    → n ≤ length bytes
    → drop n (bytes ++ padding) ≡ drop n bytes ++ padding
drop-front zero bytes padding h = refl
drop-front (suc n) [] padding h = absurd (omega (arith, h))
drop-front (suc n) (b ∷ bytes) padding h = drop-front n bytes padding (omega arith)

spec_front :
    (bytes padding : List ℕ)
    → 5 ≤ length bytes
    → priority_spec (bytes ++ padding) ≡ priority_spec bytes
unfolding priority_spec
spec_front (a ∷ b ∷ c ∷ d ∷ e ∷ bytes) padding h = refl
spec_front [] padding h = absurd (omega (arith, h))
spec_front (a ∷ []) padding h = absurd (omega (arith, h))
spec_front (a ∷ b ∷ []) padding h = absurd (omega (arith, h))
spec_front (a ∷ b ∷ c ∷ []) padding h = absurd (omega (arith, h))
spec_front (a ∷ b ∷ c ∷ d ∷ []) padding h = absurd (omega (arith, h))

number_front :
    (bytes padding : List ℕ) → 4 ≤ length bytes → read_uint32 (bytes ++ padding) ≡ read_uint32 bytes
unfolding read_uint32
number_front (a ∷ b ∷ c ∷ d ∷ bytes) padding h = refl
number_front [] padding h = absurd (omega (arith, h))
number_front (a ∷ []) padding h = absurd (omega (arith, h))
number_front (a ∷ b ∷ []) padding h = absurd (omega (arith, h))
number_front (a ∷ b ∷ c ∷ []) padding h = absurd (omega (arith, h))

either_none {ℓ} : {A : Type ℓ} (b : Bool) → ◌≡◌ {A = Option A} (if b then none else none) none
either_none true = refl
either_none false = refl

module _ (payload padding : List ℕ) (frame_type flags flags_padded stream_id : ℕ) where
  abbrev padded : List ℕ
  padded = length padding ∷ (payload ++ padding)

  -- The same frame without and with the padding.
  abbrev plain_header : FrameHeader
  plain_header = wide (length payload) frame_type flags stream_id

  abbrev padded_header : FrameHeader
  padded_header = wide (length padded) frame_type flags_padded stream_id

  module _ (unset : has_bit flags padded_flag ≡ false)
      (set : has_bit flags_padded padded_flag ≡ true)
      (same : has_bit flags_padded priority_flag ≡ has_bit flags priority_flag) where
    unpadded : body padded 1 (length padding) ≡ payload
    unpadded = body_lem padded payload padding 1 refl (omega (arith, length-append payload padding))

    size : (length padded == length padded) ≡ true
    size = ground arith

    size_plain : (length payload == length payload) ≡ true
    size_plain = ground arith

    room : ltb (length padded) 1 ≡ false
    room = ground arith

    data_padding : parse_data_frame padded_header padded ≡ parse_data_frame plain_header payload
    unfolding parse_data_frame
    data_padding =
        let more : leb (length padded) (length padding) ≡ false =
          ground (arith, length-append payload padding) in
        rw (size, set, room, more, unpadded, size_plain, unset, whole payload) refl

    -- The bytes behind `n` bytes of fields.
    behind : (n : ℕ) → n ≤ length payload → body padded (1 + n) (length padding) ≡ body payload n 0
    behind n h =
        let rest : List ℕ = drop n payload in
        let count : length rest ≡ length payload - n = length-drop n payload in
        body_lem padded rest padding (1 + n)
          (ap (λ t. drop t padded) (let e : 1 + n ≡ suc n = omega arith in e)
            ∙ drop-front n payload padding h)
          (omega (arith, count, length-append payload padding))
        ∙ sym (body_lem payload rest [] n (sym (append-nil rest)) (omega (arith, count)))

    fields_padding :
        read_priority padded_header padded 1 (length padding)
        ≡ read_priority plain_header payload 0 0
    unfolding read_priority
    fields_padding = elim (Bool-cases (has_bit flags priority_flag)) [
      | inl with_priority ↦ elim (Bool-cases (ltb (length payload) 5)) [
        | inl short ↦
            let no_room : ltb (length padded) (6 + length padding) ≡ true =
              ground (arith, length-append payload padding) in
            rw (same, with_priority, short, no_room) (either_none (ltb (length padded) 6))
        | inr long ↦
            let enough : 5 ≤ length payload = ground arith in
            let first : ltb (length padded) 6 ≡ false =
              ground (arith, length-append payload padding) in
            let fits : ltb (length padded) (6 + length padding) ≡ false =
              ground (arith, length-append payload padding) in
            rw
              (
                same,
                with_priority,
                long,
                first,
                fits,
                spec_front payload padding enough,
                behind 5 enough,
              )
              refl
      ]
      | inr no_priority ↦
          let fits : ltb (length padded) (1 + length padding) ≡ false =
            ground (arith, length-append payload padding) in
          let any : ltb (length payload) 0 ≡ false = ground arith in
          rw (same, no_priority, fits, any, behind 0 (omega arith)) refl
    ]

    headers_padding :
        parse_headers_frame padded_header padded ≡ parse_headers_frame plain_header payload
    unfolding parse_headers_frame
    headers_padding = rw (size, set, room, size_plain, unset) fields_padding

    promise_padding :
        parse_push_promise_frame padded_header padded
        ≡ parse_push_promise_frame plain_header payload
    unfolding parse_push_promise_frame
    promise_padding = elim (Bool-cases (ltb (length payload) 4)) [
      | inl short ↦
          let no_room : ltb (length padded) (5 + length padding) ≡ true =
            ground (arith, length-append payload padding) in
          rw (size, set, room, size_plain, unset, short, no_room)
            (either_none (ltb (length padded) 5))
      | inr long ↦
          let enough : 4 ≤ length payload = ground arith in
          let first : ltb (length padded) 5 ≡ false =
            ground (arith, length-append payload padding) in
          let fits : ltb (length padded) (5 + length padding) ≡ false =
            ground (arith, length-append payload padding) in
          rw
            (
              size,
              set,
              room,
              size_plain,
              unset,
              long,
              first,
              fits,
              number_front payload padding enough,
              behind 4 enough,
            )
            refl
    ]

-- Padding is transparent: a frame whose payload is padded, by any bytes and with the PADDED flag
-- set, gives DATA, HEADERS and PUSH_PROMISE what the frame without the padding and the flag
-- gives, the errors included; the PRIORITY flag is the same in both.
pub parse-padding :
    (payload padding : List ℕ) (frame_type flags flags_padded stream_id : ℕ)
    → has_bit flags padded_flag ≡ false
    → has_bit flags_padded padded_flag ≡ true
    → has_bit flags_padded priority_flag ≡ has_bit flags priority_flag
    → let bytes = length padding ∷ (payload ++ padding) in
      let h_padded = wide (length bytes) frame_type flags_padded stream_id in
      let h = wide (length payload) frame_type flags stream_id in
      (parse_data_frame h_padded bytes ≡ parse_data_frame h payload)
      × (parse_headers_frame h_padded bytes ≡ parse_headers_frame h payload)
      × (parse_push_promise_frame h_padded bytes ≡ parse_push_promise_frame h payload)
parse-padding payload padding frame_type flags flags_padded stream_id unset set same = (
  data_padding payload padding frame_type flags flags_padded stream_id unset set same,
  headers_padding payload padding frame_type flags flags_padded stream_id unset set same,
  promise_padding payload padding frame_type flags flags_padded stream_id unset set same,
)
