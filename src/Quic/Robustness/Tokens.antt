-- ===== src/Quic/Robustness/Tokens.antt =====
-- Retry packets, address tokens and stateless resets of include/boltapi/quic/robustness.h.
use bolt_api.Prelude.{
  ℕ, zero, suc, ◌+◌, ◌-◌, ◌≤◌, ◌≡◌, refl, sym, ap, ◌∙◌, true, false, ltb, if◌then◌else◌, Bool-cases,
  inl, inr, some, List, [], ◌∷◌, ◌++◌, length, take, drop, length-append, length-take, length-drop,
  take-length_append, drop-length_append, arith,
}
use mathlib.Core.Option.{some-injective, some-ne-none}
use bolt_api.Quic.Robustness.{
  Crypto, IsCrypto, retry_integrity_tag, retry_front, build_retry, verify_retry_integrity,
  compute_mac, mint_token, verify_token, shape, build_stateless_reset, is_stateless_reset,
}

-- The parts of a list whose lengths are known.
take_front : (xs ys : List ℕ) (n : ℕ) → n ≡ length xs → take n (xs ++ ys) ≡ xs
take_front xs ys n e = ap (λ t. take t (xs ++ ys)) e ∙ take-length_append xs ys

drop_front : (xs ys : List ℕ) (n : ℕ) → n ≡ length xs → drop n (xs ++ ys) ≡ ys
drop_front xs ys n e = ap (λ t. drop t (xs ++ ys)) e ∙ drop-length_append xs ys

length-shape : (bytes : List ℕ) → length (shape bytes) ≡ length bytes
length-shape [] = refl
length-shape (b ∷ bytes) = refl

module _ (c : Crypto) (laws : IsCrypto c) where
  equal_self : (xs : List ℕ) → c.equal xs xs ≡ true
  equal_self xs = (laws.equal_lem xs xs).1 refl

  -- The MAC of a connection id: 16 bytes.
  compute_mac_lem :
      (odcid : List ℕ) → (mac : List ℕ) × (compute_mac c odcid ≡ some mac) × (length mac ≡ 16)
  unfolding compute_mac
  compute_mac_lem odcid =
      let (full, e, l) = laws.hmac_lem odcid in
      let long : ltb (length full) 16 ≡ false = ground (arith, l) in
      (take 16 full, rw (e, long) refl, omega (arith, length-take 16 full, l))

  verify_token-mint_token :
      (odcid : List ℕ) (cap : ℕ)
      → length odcid ≤ 20
      → 16 + length odcid ≤ cap
      → verify_token c (mint_token c odcid cap) ≡ some odcid
  unfolding verify_token mint_token
  verify_token-mint_token odcid cap h room =
      let (mac, e, l) = compute_mac_lem odcid in
      let token : List ℕ = mac ++ odcid in
      let size : length token ≡ 16 + length odcid = omega (arith, length-append mac odcid, l) in
      let fits : ltb cap (16 + length odcid) ≡ false = ground (arith, room) in
      let fits_max : ltb 256 (16 + length odcid) ≡ false = ground (arith, h) in
      let long : ltb (length token) 16 ≡ false = ground (arith, size) in
      let short : ltb 20 (length token - 16) ≡ false = ground (arith, size, h) in
      rw
        (
          fits,
          fits_max,
          e,
          long,
          short,
          drop_front mac odcid 16 (sym l),
          take_front mac odcid 16 (sym l),
          e,
          equal_self mac,
        )
        refl

  retry_lem :
      (odcid client_scid server_scid token : List ℕ) (cap : ℕ)
      → length (retry_front client_scid server_scid token) + 16 ≤ cap
      → length (retry_front client_scid server_scid token) + 16 ≤ 512
      → verify_retry_integrity c odcid (build_retry c odcid client_scid server_scid token cap)
        ≡ true
  unfolding verify_retry_integrity build_retry retry_integrity_tag
  retry_lem odcid client_scid server_scid token cap room max_room =
      let front : List ℕ = retry_front client_scid server_scid token in
      let need : ℕ = 1 + 4 + 1 + length client_scid + 1 + length server_scid + length token + 16 in
      let tail : List ℕ = server_scid ++ token in
      let size : need ≡ length front + 16 = omega (
        arith,
        length-append client_scid (length server_scid ∷ tail),
        length-append server_scid token,
      ) in
      let (tag, e, l) = laws.gcm_tag_lem (length odcid ∷ (odcid ++ front)) in
      let total : length (front ++ tag) ≡ length front + 16 =
        omega (arith, length-append front tag, l) in
      let fits : ltb cap need ≡ false = ground (arith, size, room) in
      let fits_max : ltb 512 need ≡ false = ground (arith, size, max_room) in
      let bounded : ltb 512 (length front) ≡ false = ground (arith, max_room) in
      let long : ltb (length (front ++ tag)) 17 ≡ false = ground (arith, total) in
      let body : length (front ++ tag) - 16 ≡ length front = omega (arith, total) in
      rw
        (
          fits,
          fits_max,
          bounded,
          e,
          long,
          take_front front tag (length (front ++ tag) - 16) body,
          drop_front front tag (length (front ++ tag) - 16) body,
          bounded,
          e,
          equal_self tag,
        )
        refl

  reset_lem :
      (random : ℕ → List ℕ) (token : List ℕ) (pad_len cap : ℕ)
      → ((n : ℕ) → length (random n) ≡ n)
      → length token ≡ 16
      → pad_len + 21 ≤ cap
      → is_stateless_reset c (build_stateless_reset random token pad_len cap) token ≡ true
  unfolding is_stateless_reset build_stateless_reset
  reset_lem random token pad_len cap filled l room =
      let pad : ℕ = if ltb pad_len 5 then 5 else pad_len in
      let enough : (5 ≤ pad) × (pad ≤ pad_len + 5) = ground arith in
      let bytes : List ℕ = shape (random pad) in
      let size : length bytes ≡ pad = length-shape (random pad) ∙ filled pad in
      let total : length (bytes ++ token) ≡ pad + 16 =
        omega (arith, length-append bytes token, size, l) in
      let fits : ltb cap (pad + 16) ≡ false = ground (arith, room, enough) in
      let legal : ltb (pad + 16) 21 ≡ false = ground (arith, enough) in
      let long : ltb (length (bytes ++ token)) 21 ≡ false = ground (arith, total, enough) in
      let at_end : length (bytes ++ token) - 16 ≡ length bytes = omega (arith, total, size) in
      rw
        (
          fits,
          legal,
          long,
          drop_front bytes token (length (bytes ++ token) - 16) at_end,
          equal_self token,
        )
        refl

take-drop : (n : ℕ) (xs : List ℕ) → take n xs ++ drop n xs ≡ xs
take-drop zero xs = refl
take-drop (suc n) [] = refl
take-drop (suc n) (x ∷ xs) = ap (◌∷◌ x) (take-drop n xs)

-- What an endpoint emits is accepted: a Retry packet that fits its buffer and 512 bytes verifies
-- under the connection id that it answers; a token for a connection id of up to 20 bytes, in a buffer
-- with room for 16 bytes more than the id, gives that id back; and a stateless reset, in a buffer of
-- the padding and 21 bytes, is recognised by its token of 16 bytes. The cryptographic calls succeed,
-- and the library gives as many random bytes as are asked for.
pub verify-emitted :
    (c : Crypto) (random : ℕ → List ℕ) (odcid client_scid server_scid token reset_token : List ℕ)
    (retry_cap token_cap reset_cap pad_len : ℕ)
    → IsCrypto c
    → ((n : ℕ) → length (random n) ≡ n)
    → length odcid ≤ 20
    → length reset_token ≡ 16
    → length (retry_front client_scid server_scid token) + 16 ≤ 512
    → length (retry_front client_scid server_scid token) + 16 ≤ retry_cap
    → 16 + length odcid ≤ token_cap
    → pad_len + 21 ≤ reset_cap
    → (verify_retry_integrity c odcid (build_retry c odcid client_scid server_scid token retry_cap)
        ≡ true)
      × (verify_token c (mint_token c odcid token_cap) ≡ some odcid)
      × (is_stateless_reset c
            (build_stateless_reset random reset_token pad_len reset_cap)
            reset_token
          ≡ true)
verify-emitted c random odcid client_scid server_scid token reset_token retry_cap token_cap
      reset_cap pad_len laws filled h l fits room token_room reset_room =
    (
      retry_lem c laws odcid client_scid server_scid token retry_cap room fits,
      verify_token-mint_token c laws odcid token_cap h token_room,
      reset_lem c laws random reset_token pad_len reset_cap filled l reset_room,
    )

-- A token that is accepted is one that the validator mints: whatever bytes a client sends, if
-- they are taken for the connection id `odcid`, they are the token that `mint_token` makes of it.
pub mint_token-verify_token :
    (c : Crypto) (token odcid : List ℕ)
    → IsCrypto c
    → verify_token c token ≡ some odcid
    → mint_token c odcid 256 ≡ token
unfolding verify_token mint_token
mint_token-verify_token c token odcid laws accepted =
    let cid : List ℕ = drop 16 token in
    let (mac, e, l) = compute_mac_lem c laws cid in
    elim (Bool-cases (ltb (length token) 16)) [
      | inl short ↦ absurd (some-ne-none odcid (sym accepted ∙ rw short refl))
      | inr long ↦ elim (Bool-cases (ltb 20 (length token - 16))) [
        | inl big ↦ absurd (some-ne-none odcid (sym accepted ∙ rw (long, big) refl))
        | inr small ↦ elim (Bool-cases (c.equal mac (take 16 token))) [
          | inr other ↦ absurd (some-ne-none odcid (sym accepted ∙ rw (long, small, e, other) refl))
          | inl same ↦
              let front : mac ≡ take 16 token = (laws.equal_lem mac (take 16 token)).0 same in
              let result : verify_token c token ≡ some cid = rw (long, small, e, same) refl in
              let id : odcid ≡ cid = some-injective odcid cid (sym accepted ∙ result) in
              let fits : ltb 256 (16 + length cid) ≡ false =
                ground (arith, length-drop 16 token, small, long) in
              ap (λ t. mint_token c t 256) id
              ∙ rw (fits, e) (ap (λ m. m ++ cid) front ∙ take-drop 16 token)
        ]
      ]
    ]
