-- ===== src/Quic/Frames/PayloadRoundTrip.antt =====
-- STREAM, CRYPTO and CONNECTION_CLOSE frames: what is serialized is parsed back.
use bolt_api.Prelude.{
  ℕ, ◌≤◌, ◌<◌, ◌≡◌, ◌+◌, refl, sym, ap, ap₂, ◌∙◌, subst, if◌then◌else◌, Bool, true, false, List, [],
  ◌∷◌, ◌++◌, append_assoc, length, take, arith,
}
use bolt_api.Prelude
use bolt_api.Quic.Varint.{var_int_max, varint_encode}
use bolt_api.Quic.Frames.Reader.{
  frame_ok, read_varint, read_bytes, read_varint-varint_encode, read_bytes-append, bind_ok,
}
use bolt_api.Quic.Frames.Payload.{
  StreamFrame, CryptoFrame, parse_stream, serialize_stream, stream_type_byte, parse_crypto,
  serialize_crypto,
}
use bolt_api.Quic.Frames.Close.{ConnectionCloseFrame, parse_close, serialize_close}

pub head_of : {x y : ℕ} {xs ys : List ℕ} → x ∷ xs ≡ y ∷ ys → x ≡ y
head_of e = cc

pub tail_of : {x y : ℕ} {xs ys : List ℕ} → x ∷ xs ≡ y ∷ ys → xs ≡ ys
tail_of e = cc

-- One field written in front of the rest of the frame and of what follows it.
pub read_field :
    (v : ℕ) (more rest : List ℕ)
    → v ≤ var_int_max
    → read_varint ((varint_encode v ++ more) ++ rest) ≡ frame_ok (v, more ++ rest)
read_field v more rest h =
    rw (append_assoc (varint_encode v) more rest) (read_varint-varint_encode v (more ++ rest) h)

take_whole : (n : ℕ) (bytes : List ℕ) → length bytes ≡ n → take n bytes ≡ bytes
take_whole n [] e = subst (λ n. take {A = ℕ} n [] ≡ []) e refl
take_whole n (b ∷ bytes) e =
    subst (λ n. take n (b ∷ bytes) ≡ b ∷ bytes) e
      (ap (◌∷◌ b) (take_whole (length bytes) bytes refl))

read_payload :
    (n : ℕ) (bytes rest : List ℕ)
    → length bytes ≡ n
    → read_bytes n (take n bytes ++ rest) ≡ frame_ok (bytes, rest)
read_payload n bytes rest e = rw (take_whole n bytes e) (
    subst (λ n. read_bytes n (bytes ++ rest) ≡ frame_ok (bytes, rest)) e
      (read_bytes-append bytes rest))

-- The fields fit their integers, and the view has the length that the frame says.
pub record IsStreamFrame (f : StreamFrame) : Type 0 where
  pub id_fits : f.stream_id ≤ var_int_max
  pub offset_fits : f.offset ≤ var_int_max
  pub length_fits : f.length ≤ var_int_max
  pub data_length : Prelude.length f.data_bytes ≡ f.length

stream_body :
    (f : StreamFrame) (fin : Bool) (rest : List ℕ)
    → f.fin ≡ fin
    → IsStreamFrame f
    → parse_stream (stream_type_byte fin) (
        (varint_encode f.stream_id
          ++ (varint_encode f.offset ++ (varint_encode f.length ++ take f.length f.data_bytes)))
        ++ rest)
      ≡ frame_ok (f, rest)
unfolding parse_stream stream_type_byte
stream_body f true rest e v =
    bind_ok _ _ (read_field f.stream_id _ rest v.id_fits)
    ∙ bind_ok _ _ (read_field f.offset _ rest v.offset_fits)
    ∙ bind_ok _ _ (read_field f.length _ rest v.length_fits)
    ∙ bind_ok _ _ (read_payload f.length f.data_bytes rest v.data_length)
    ∙ ap (λ b. frame_ok (record f { fin = b }, rest)) (sym e)
stream_body f false rest e v =
    bind_ok _ _ (read_field f.stream_id _ rest v.id_fits)
    ∙ bind_ok _ _ (read_field f.offset _ rest v.offset_fits)
    ∙ bind_ok _ _ (read_field f.length _ rest v.length_fits)
    ∙ bind_ok _ _ (read_payload f.length f.data_bytes rest v.data_length)
    ∙ ap (λ b. frame_ok (record f { fin = b }, rest)) (sym e)

-- A STREAM frame is parsed back from its serialization, flag and all, whatever follows it: the
-- type byte goes to the caller, and the parser takes the rest of the frame and no more.
pub parse_stream-serialize_stream :
    (f : StreamFrame) (type_byte : ℕ) (body rest : List ℕ)
    → IsStreamFrame f
    → serialize_stream f ≡ type_byte ∷ body
    → parse_stream type_byte (body ++ rest) ≡ frame_ok (f, rest)
unfolding serialize_stream
parse_stream-serialize_stream f t body rest v e =
    rw (← head_of e, ← tail_of e) (stream_body f f.fin rest refl v)

pub record IsCryptoFrame (f : CryptoFrame) : Type 0 where
  pub offset_fits : f.offset ≤ var_int_max
  pub length_fits : f.length ≤ var_int_max
  pub data_length : Prelude.length f.data_bytes ≡ f.length

-- A CRYPTO frame is parsed back from its serialization, whatever follows it.
parse_crypto-serialize_crypto :
    (f : CryptoFrame) (type_byte : ℕ) (body rest : List ℕ)
    → IsCryptoFrame f
    → serialize_crypto f ≡ type_byte ∷ body
    → (type_byte ≡ 0x06) × (parse_crypto (body ++ rest) ≡ frame_ok (f, rest))
unfolding serialize_crypto parse_crypto
parse_crypto-serialize_crypto f t body rest v e = (
  sym (head_of e),
  rw (← tail_of e) (
      bind_ok _ _ (read_field f.offset _ rest v.offset_fits)
      ∙ bind_ok _ _ (read_field f.length _ rest v.length_fits)
      ∙ bind_ok _ _ (read_payload f.length f.data_bytes rest v.data_length)),
)

-- The application variant has no frame type, which then reads as 0.
pub record IsCloseFrame (f : ConnectionCloseFrame) : Type 0 where
  pub code_fits : f.error_code ≤ var_int_max
  pub type_fits : f.frame_type ≤ var_int_max
  pub no_type : f.is_application ≡ true → f.frame_type ≡ 0
  pub length_fits : f.reason_length ≤ var_int_max
  pub reason : Prelude.length f.reason_phrase ≡ f.reason_length

close_body :
    (f : ConnectionCloseFrame) (app : Bool) (rest : List ℕ)
    → f.is_application ≡ app
    → IsCloseFrame f
    → parse_close app (
        (varint_encode f.error_code
          ++ ((if app then [] else varint_encode f.frame_type)
              ++ (varint_encode f.reason_length ++ take f.reason_length f.reason_phrase)))
        ++ rest)
      ≡ frame_ok (f, rest)
unfolding parse_close
close_body f true rest e v =
    bind_ok _ _ (read_field f.error_code _ rest v.code_fits)
    ∙ bind_ok _ _ (read_field f.reason_length _ rest v.length_fits)
    ∙ bind_ok _ _ (read_payload f.reason_length f.reason_phrase rest v.reason)
    ∙ ap₂ (λ b t. frame_ok (record f { is_application = b; frame_type = t }, rest)) (sym e)
        (sym (v.no_type e))
close_body f false rest e v =
    bind_ok _ _ (read_field f.error_code _ rest v.code_fits)
    ∙ bind_ok _ _ (read_field f.frame_type _ rest v.type_fits)
    ∙ bind_ok _ _ (read_field f.reason_length _ rest v.length_fits)
    ∙ bind_ok _ _ (read_payload f.reason_length f.reason_phrase rest v.reason)
    ∙ ap (λ b. frame_ok (record f { is_application = b }, rest)) (sym e)

-- A CONNECTION_CLOSE frame of either variant is parsed back from its serialization, whatever
-- follows it; the type byte tells the variants apart.
pub parse_close-serialize_close :
    (f : ConnectionCloseFrame) (type_byte : ℕ) (body rest : List ℕ)
    → IsCloseFrame f
    → serialize_close f ≡ type_byte ∷ body
    → (type_byte ≡ (if f.is_application then 0x1D else 0x1C))
      × (parse_close f.is_application (body ++ rest) ≡ frame_ok (f, rest))
unfolding serialize_close
parse_close-serialize_close f t body rest v e =
    (sym (head_of e), rw (← tail_of e) (close_body f f.is_application rest refl v))
