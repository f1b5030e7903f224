-- ===== src/Http2/Frame/Fields.antt =====
-- What the parsers of src/http/http2_frame.cpp read from the payloads of SETTINGS and HEADERS.
use bolt_api.Prelude.{
  ℕ, ◌+◌, ◌*◌, ◌/◌, ◌%◌, ◌^◌, ◌<◌, ◌≡◌, refl, sym, ap₂, ◌∙◌, ltb, Bool, true, false, ◌==◌,
  if◌then◌else◌, Option, none, some, List, [], ◌∷◌, ◌++◌, length, All, bit_and, bit_or, append-nil,
  arith,
}
use bolt_api.Prelude.Bits.{bit_and_mask, bit_or_disjoint, bit_or_comm}
use bolt_api.Prelude.Bytes.{has_bit}
use bolt_api.Http2.Frame.{
  PrioritySpec, SettingsParameter, headers_type, settings_type, end_stream_flag, ack_flag,
  end_headers_flag, priority_flag, priority_spec, read_priority, parse_headers_frame, read_settings,
  parse_settings_frame, padded_flag, body,
}
use bolt_api.Http2.Frame.Write.{
  write_uint16, write_uint32, headers_flags, priority_size, stream_dep, write_priority,
  write_setting, write_settings,
}
use bolt_api.Http2.Frame.Numbers.{read_uint16-write_uint16, read_uint32-write_uint32}
use bolt_api.Http2.Frame.Layout.{headers_frame, settings_frame, dispatch}
use bolt_api.Http2.Frame.Payloads.{wide, low_31, body_lem, whole}

abbrev pub IsSetting : SettingsParameter → Type 0
IsSetting param = (param.id < 2 ^ 16) × (param.value < 2 ^ 32)

abbrev setting : ℕ → ℕ → SettingsParameter
setting id value = record { id = id; value = value }

read_settings-write_settings :
    (params : List SettingsParameter)
    → All IsSetting params
    → read_settings (length params) (write_settings params) ≡ params
unfolding read_settings write_settings write_setting write_uint16 write_uint32
read_settings-write_settings [] v = refl
read_settings-write_settings (param ∷ params) ((small_id, small_value), v) =
    ap₂ ◌∷◌
      (ap₂ setting
        (read_uint16-write_uint16 param.id (write_uint32 param.value ++ write_settings params)
          small_id)
        (read_uint32-write_uint32 param.value (write_settings params) small_value))
      (read_settings-write_settings params v)

pub length-write_settings :
    (params : List SettingsParameter) → length (write_settings params) ≡ length params * 6
unfolding write_settings write_setting write_uint16 write_uint32
length-write_settings [] = refl
length-write_settings (param ∷ params) = omega (arith, length-write_settings params)

pub dispatch-settings_frame :
    (params : List SettingsParameter)
    → All IsSetting params
    → dispatch (wide (length params * 6) settings_type 0 0) (write_settings params)
      ≡ some (settings_frame params false)
unfolding dispatch parse_settings_frame
dispatch-settings_frame params v =
    let size : length (write_settings params) ≡ length params * 6 = length-write_settings params in
    let whole_params : (length params * 6 % 6 == 0) ≡ true = ground arith in
    let count : length params * 6 / 6 ≡ length params = omega arith in
    rw (size, whole_params, count, read_settings-write_settings params v) refl

pub dispatch-settings_ack :
    dispatch (wide 0 settings_type ack_flag 0) [] ≡ some (settings_frame [] true)
unfolding dispatch parse_settings_frame
dispatch-settings_ack = refl

pub priority_spec-stream_dep :
    (p : PrioritySpec) (block : List ℕ)
    → p.stream_dependency < 2 ^ 31
    → priority_spec (write_uint32 (stream_dep p) ++ (p.weight ∷ block)) ≡ p
unfolding priority_spec write_uint32
priority_spec-stream_dep p block h = fields p.exclusive p.stream_dependency p.weight h
  where
    fields :
        (exclusive : Bool) (dep weight : ℕ)
        → dep < 2 ^ 31
        → priority_spec
            (write_uint32 (if exclusive then bit_or dep 0x80000000 else dep) ++ (weight ∷ block))
          ≡ record { exclusive = exclusive; stream_dependency = dep; weight = weight }
    fields true dep weight h =
        let number : bit_or dep 0x80000000 ≡ 2 ^ 31 + dep =
          bit_or_comm dep 0x80000000 ∙ bit_or_disjoint 31 1 dep h in
        let low : bit_and (2 ^ 31 + dep) 0x7FFFFFFF ≡ dep =
          omega (arith, bit_and_mask 31 (2 ^ 31 + dep)) in
        let high : bit_and ((2 ^ 31 + dep) / 2 ^ 31) 1 ≡ 1 =
          omega (arith, bit_and_mask 1 ((2 ^ 31 + dep) / 2 ^ 31)) in
        rw
          (
            number,
            read_uint32-write_uint32 (2 ^ 31 + dep) (weight ∷ block) (omega arith),
            low,
            high,
          )
          refl
    fields false dep weight h =
        let high : bit_and (dep / 2 ^ 31) 1 ≡ 0 = omega (arith, bit_and_mask 1 (dep / 2 ^ 31)) in
        rw (read_uint32-write_uint32 dep (weight ∷ block) (omega arith), low_31 dep h, high) refl

module _ (stream_id : ℕ) (block : List ℕ) where
  -- Flags of which only these bits are known.
  headers_none :
      (flags : ℕ)
      → has_bit flags padded_flag ≡ false
      → has_bit flags priority_flag ≡ false
      → dispatch (wide (0 + length block) headers_type flags stream_id) block
        ≡ some (
            headers_frame stream_id block
              (has_bit flags end_stream_flag)
              (has_bit flags end_headers_flag)
              none)
  unfolding dispatch parse_headers_frame read_priority
  headers_none flags unpadded plain =
      let size : (0 + length block == length block) ≡ true = ground arith in
      let room : ltb (length block) 0 ≡ false = ground arith in
      rw (size, unpadded, plain, room, whole block) refl

  headers_some :
      (p : PrioritySpec) (flags : ℕ)
      → has_bit flags padded_flag ≡ false
      → has_bit flags priority_flag ≡ true
      → p.stream_dependency < 2 ^ 31
      → dispatch
          (wide (5 + length block) headers_type flags stream_id)
          (write_priority (some p) ++ block)
        ≡ some (
            headers_frame stream_id block
              (has_bit flags end_stream_flag)
              (has_bit flags end_headers_flag)
              (some p))
  unfolding dispatch parse_headers_frame read_priority write_priority write_uint32
  headers_some p flags unpadded with_priority h =
      let payload : List ℕ = write_priority (some p) ++ block in
      let size : (5 + length block == length payload) ≡ true = ground arith in
      let room : ltb (length payload) 5 ≡ false = ground arith in
      let rest : body payload 5 0 ≡ block =
        body_lem payload block [] 5 (sym (append-nil block)) (omega arith) in
      rw (size, unpadded, with_priority, room, rest, priority_spec-stream_dep p block h) refl

abbrev pub IsDependency : Option PrioritySpec → Type 0
IsDependency none = Unit
IsDependency (some p) = p.stream_dependency < 2 ^ 31

pub dispatch-headers_frame :
    (stream_id : ℕ) (block : List ℕ) (end_stream end_headers : Bool)
    (priority : Option PrioritySpec)
    → IsDependency priority
    → dispatch
        (wide
          (priority_size priority + length block)
          headers_type
          (headers_flags end_stream end_headers priority)
          stream_id)
        (write_priority priority ++ block)
      ≡ some (headers_frame stream_id block end_stream end_headers priority)
unfolding write_priority
dispatch-headers_frame stream_id block true true none d = headers_none stream_id block 0x5 refl refl
dispatch-headers_frame stream_id block true false none d =
    headers_none stream_id block 0x1 refl refl
dispatch-headers_frame stream_id block false true none d =
    headers_none stream_id block 0x4 refl refl
dispatch-headers_frame stream_id block false false none d =
    headers_none stream_id block 0x0 refl refl
dispatch-headers_frame stream_id block true true (some p) d =
    headers_some stream_id block p 0x25 refl refl d
dispatch-headers_frame stream_id block true false (some p) d =
    headers_some stream_id block p 0x21 refl refl d
dispatch-headers_frame stream_id block false true (some p) d =
    headers_some stream_id block p 0x24 refl refl d
dispatch-headers_frame stream_id block false false (some p) d =
    headers_some stream_id block p 0x20 refl refl d

pub length-write_priority :
    (priority : Option PrioritySpec) (block : List ℕ)
    → length (write_priority priority ++ block) ≡ priority_size priority + length block
unfolding write_priority write_uint32
length-write_priority none block = omega arith
length-write_priority (some p) block = omega arith
