-- ===== src/Http2/Frame/Buffers.antt =====
-- The writers of src/http/http2_frame.cpp into a buffer of the caller, against the frame as bytes.
use bolt_api.Prelude.{
  ◌⊎◌, ℕ, zero, suc, ◌+◌, ◌*◌, ◌≤◌, ◌<◌, ◌≡◌, refl, sym, ap, ap₂, ◌∙◌, false, ◌==◌, if◌then◌else◌,
  Bool-cases, inl, inr, ltb, ltb→lt, Option, none, some, List, [], ◌∷◌, ◌++◌, length, drop,
  append_assoc, append-nil, length-append, take-length_append, drop-length_append, arith,
}
use bolt_api.Http2.Frame.{FrameHeader, PrioritySpec, SettingsParameter}
use bolt_api.Http2.Frame.Write.{
  write_uint16, write_uint24, write_uint32, write_frame_header, stream_dep, write_priority,
  write_setting, write_settings,
}
use bolt_api.Http2.Frame.WriteTo.{store_at, copy, put_priority, put_settings}

drop-nil : (n : ℕ) → ◌≡◌ {A = List ℕ} (drop n []) []
drop-nil zero = refl
drop-nil (suc n) = refl

drop-drop : (n m : ℕ) (buf : List ℕ) → drop n (drop m buf) ≡ drop (m + n) buf
drop-drop n zero buf = ap (λ t. drop t buf) (let e : n ≡ 0 + n = omega arith in e)
drop-drop n (suc m) [] = drop-nil n ∙ sym (drop-nil (suc m + n))
drop-drop n (suc m) (b ∷ buf) =
    drop-drop n m buf
    ∙ ap (λ t. drop t (b ∷ buf)) (let e : suc (m + n) ≡ suc m + n = omega arith in e)

-- The buffer with its first bytes overwritten.
abbrev pub filled : List ℕ → List ℕ → List ℕ
filled buf written = written ++ drop (length written) buf

module _ (buf : List ℕ) where
  pub store_at-front : (bytes : List ℕ) → store_at 0 bytes buf ≡ filled buf bytes
  unfolding store_at
  store_at-front bytes =
      ap (λ t. bytes ++ drop t buf) (let e : 0 + length bytes ≡ length bytes = omega arith in e)

  -- Bytes stored right behind those that are written already.
  pub store_at-filled :
      (written bytes : List ℕ) (offset : ℕ)
      → length written ≡ offset
      → store_at offset bytes (filled buf written) ≡ filled buf (written ++ bytes)
  unfolding store_at
  store_at-filled written bytes offset e =
      let n : ℕ = length written in
      ap (λ t. store_at t bytes (filled buf written)) (sym e)
      ∙ ap₂ (λ t u. t ++ (bytes ++ u)) (take-length_append written (drop n buf))
          (sym (drop-drop (length bytes) n (filled buf written))
            ∙ ap (drop (length bytes)) (drop-length_append written (drop n buf))
            ∙ drop-drop (length bytes) n buf
            ∙ ap (λ t. drop t buf) (sym (length-append written bytes)))
      ∙ sym (append_assoc written bytes (drop (length (written ++ bytes)) buf))

  pub copy-filled :
      (written bytes : List ℕ) (offset : ℕ)
      → length written ≡ offset
      → copy offset bytes (filled buf written) ≡ filled buf (written ++ bytes)
  copy-filled written [] offset e = ap (filled buf) (sym (append-nil written))
  copy-filled written (b ∷ bytes) offset e =
      let some_bytes : (length (b ∷ bytes) == 0) ≡ false = ground arith in
      rw some_bytes (store_at-filled written (b ∷ bytes) offset e)

  -- What a buffer writer does: the whole frame, with its length returned and the bytes behind it
  -- kept, or nothing at all in a buffer that is too small.
  abbrev pub IsWritten : List ℕ → ℕ × List ℕ → Type 0
  IsWritten frame result =
      ((length frame ≤ length buf) × (result ≡ (length frame, filled buf frame)))
      ⊎ ((length buf < length frame) × (result ≡ (0, buf)))

  pub tested :
      (frame result : List ℕ) (size : ℕ)
      → length frame ≡ size
      → result ≡ filled buf frame
      → IsWritten frame (if ltb (length buf) size then (0, buf) else (size, result))
  tested frame result size e r = elim (Bool-cases (ltb (length buf) size)) [
    | inl small ↦ inr (omega (arith, e, ltb→lt (length buf) size small), rw small refl)
    | inr large ↦ inl (ground arith, rw large (ap₂ (λ t u. (t, u)) (sym e) r))
  ]

  pub length-write_frame_header : (h : FrameHeader) → length (write_frame_header h) ≡ 9
  unfolding write_frame_header write_uint24 write_uint32
  length-write_frame_header h = refl

  -- A header and a payload that is stored in one piece behind it.
  pub one_piece :
      (h : FrameHeader) (bytes : List ℕ)
      → store_at 9 bytes (store_at 0 (write_frame_header h) buf)
        ≡ filled buf (write_frame_header h ++ bytes)
  one_piece h bytes =
      ap (store_at 9 bytes) (store_at-front (write_frame_header h))
      ∙ store_at-filled (write_frame_header h) bytes 9 (length-write_frame_header h)

  pub one_copy :
      (h : FrameHeader) (bytes : List ℕ)
      → copy 9 bytes (store_at 0 (write_frame_header h) buf)
        ≡ filled buf (write_frame_header h ++ bytes)
  one_copy h bytes =
      ap (copy 9 bytes) (store_at-front (write_frame_header h))
      ∙ copy-filled (write_frame_header h) bytes 9 (length-write_frame_header h)

  pub size_lem :
      (h : FrameHeader) (payload : List ℕ) (n : ℕ)
      → length payload ≡ n
      → length (write_frame_header h ++ payload) ≡ 9 + n
  size_lem h payload n e =
      omega (arith, length-append (write_frame_header h) payload, length-write_frame_header h, e)

  pub put_settings-filled :
      (params : List SettingsParameter) (i : ℕ) (written : List ℕ)
      → length written ≡ 9 + i * 6
      → put_settings i params (filled buf written) ≡ filled buf (written ++ write_settings params)
  unfolding put_settings write_settings write_setting write_uint16 write_uint32
  put_settings-filled [] i written e = ap (filled buf) (sym (append-nil written))
  put_settings-filled (param ∷ params) i written e =
      let id : List ℕ = write_uint16 param.id in
      let value : List ℕ = write_uint32 param.value in
      let rest : List ℕ = write_settings params in
      let first : length (written ++ id) ≡ 9 + i * 6 + 2 =
        omega (arith, length-append written id) in
      let second : length ((written ++ id) ++ value) ≡ 9 + (i + 1) * 6 =
        omega (arith, length-append (written ++ id) value) in
      ap (λ t. put_settings (i + 1) params (store_at (9 + i * 6 + 2) value t))
        (store_at-filled written id (9 + i * 6) e)
      ∙ ap (put_settings (i + 1) params)
          (store_at-filled (written ++ id) value (9 + i * 6 + 2) first)
      ∙ put_settings-filled params (i + 1) ((written ++ id) ++ value) second
      ∙ ap (filled buf)
          (append_assoc (written ++ id) value rest ∙ append_assoc written id (value ++ rest))

  pub put_priority-filled :
      (priority : Option PrioritySpec) (block written : List ℕ)
      → length written ≡ 9
      → (let r = put_priority priority 9 (filled buf written) in copy (r.0) block (r.1))
        ≡ filled buf (written ++ (write_priority priority ++ block))
  unfolding put_priority write_priority write_uint32
  put_priority-filled none block written e = copy-filled written block 9 e
  put_priority-filled (some p) block written e =
      let dep : List ℕ = write_uint32 (stream_dep p) in
      let weight : List ℕ = p.weight ∷ [] in
      let first : length (written ++ dep) ≡ 9 + 4 = omega (arith, length-append written dep) in
      let second : length ((written ++ dep) ++ weight) ≡ 9 + 5 =
        omega (arith, length-append (written ++ dep) weight) in
      ap (λ t. copy 14 block (store_at 13 weight t)) (store_at-filled written dep 9 e)
      ∙ ap (copy 14 block) (store_at-filled (written ++ dep) weight 13 first)
      ∙ copy-filled ((written ++ dep) ++ weight) block 14 second
      ∙ ap (filled buf)
          (append_assoc (written ++ dep) weight block ∙ append_assoc written dep (weight ++ block))
