-- ===== src/Quic/RobustnessTests.antt =====
-- Version negotiation, tokens and the anti-amplification limit at concrete inputs, with a
-- cryptographic library whose MAC and tag are the first bytes of the input.
use bolt_api.Prelude.{
  ℕ, zero, suc, ◌+◌, ◌*◌, ◌≤◌, ◌≡◌, refl, ap, ap₂, subst, Bool, true, false, ◌&&◌, ◌==◌, some, List,
  [], ◌∷◌, ◌++◌, length, arith,
}
use bolt_api.Quic.Robustness.{
  Crypto, IsCrypto, build_version_negotiation, parse_version_negotiation_versions, build_retry,
  verify_retry_integrity, mint_token, verify_token, build_stateless_reset, is_stateless_reset,
}
use bolt_api.Quic.Robustness.Tokens.{verify-emitted, mint_token-verify_token}
use bolt_api.Quic.Robustness.Negotiation.{parse-build_version_negotiation}
use bolt_api.Quic.Robustness.Amplification.{receive, send, steps, sent_bytes, sent-limit}

abbrev zeros : ℕ → List ℕ
zeros zero = []
zeros (suc n) = 0 ∷ zeros n

length-zeros : (n : ℕ) → length (zeros n) ≡ n
length-zeros zero = refl
length-zeros (suc n) = ap suc (length-zeros n)

-- The first `n` bytes, filled up with zeros.
abbrev fill : ℕ → List ℕ → List ℕ
fill zero bytes = []
fill (suc n) [] = zeros (suc n)
fill (suc n) (b ∷ bytes) = b ∷ fill n bytes

length-fill : (n : ℕ) (bytes : List ℕ) → length (fill n bytes) ≡ n
length-fill zero bytes = refl
length-fill (suc n) [] = length-zeros (suc n)
length-fill (suc n) (b ∷ bytes) = ap suc (length-fill n bytes)

abbrev same_list : List ℕ → List ℕ → Bool
same_list [] [] = true
same_list (x ∷ xs) (y ∷ ys) = (x == y) && same_list xs ys
same_list [] (y ∷ ys) = false
same_list (x ∷ xs) [] = false

both : (a b : Bool) → (a && b) ≡ true → (a ≡ true) × (b ≡ true)
both true true h = (refl, refl)
both true false h = cc
both false b h = cc

same_list_eq : (xs ys : List ℕ) → same_list xs ys ≡ true → xs ≡ ys
same_list_eq [] [] h = refl
same_list_eq (x ∷ xs) (y ∷ ys) h =
    let (e, rest) = both (x == y) (same_list xs ys) h in
    ap₂ ◌∷◌ (let head : x ≡ y = ground (arith, e) in head) (same_list_eq xs ys rest)
same_list_eq [] (y ∷ ys) h = cc
same_list_eq (x ∷ xs) [] h = cc

same_list_self : (xs : List ℕ) → same_list xs xs ≡ true
same_list_self [] = refl
same_list_self (x ∷ xs) = let e : (x == x) ≡ true = ground arith in rw (e, same_list_self xs) refl

abbrev library : Crypto
library = record {
  hmac = λ bytes. some (fill 32 bytes);
  gcm_tag = λ bytes. some (fill 16 bytes);
  equal = same_list;
}

library-IsCrypto : IsCrypto library
library-IsCrypto = record {
  hmac_lem = λ bytes. (fill 32 bytes, refl, length-fill 32 bytes);
  gcm_tag_lem = λ bytes. (fill 16 bytes, refl, length-fill 16 bytes);
  equal_lem =
      λ xs ys. (same_list_eq xs ys, λ e. subst (λ t. same_list xs t ≡ true) e (same_list_self xs));
}

abbrev odcid : List ℕ
odcid = 1 ∷ 2 ∷ 3 ∷ []

abbrev scid : List ℕ
scid = 9 ∷ 8 ∷ []

verify-emitted_example :
    (verify_retry_integrity library odcid (build_retry library odcid scid scid odcid 1200) ≡ true)
    × (verify_token library (mint_token library odcid 256) ≡ some odcid)
    × (is_stateless_reset library (build_stateless_reset zeros (zeros 16) 7 1200) (zeros 16) ≡ true)
verify-emitted_example =
    verify-emitted library zeros odcid scid scid odcid (zeros 16) 1200 256 1200 7 library-IsCrypto
      length-zeros (omega arith) refl (omega arith) (omega arith) (omega arith) (omega arith)

abbrev token : List ℕ
token = fill 16 odcid ++ odcid

mint_token-verify_token_example : mint_token library odcid 256 ≡ token
mint_token-verify_token_example =
    mint_token-verify_token library token odcid library-IsCrypto (unfold verify_token in refl)

parse-build_version_negotiation_example :
    parse_version_negotiation_versions
      (build_version_negotiation odcid scid (1 ∷ 0x6b3343cf ∷ []) 256)
      (7 + length scid + length odcid)
      16
    ≡ 1 ∷ 0x6b3343cf ∷ []
parse-build_version_negotiation_example =
    parse-build_version_negotiation odcid scid (0x6b3343cf ∷ []) 1 256 16
      (omega arith, (omega arith, tt)) (omega arith) (omega arith)

sent-limit_example : sent_bytes (send 1200 ∷ send 2400 ∷ receive 1200 ∷ []) ≤ 3 * 1200
sent-limit_example =
    sent-limit (send 1200 ∷ send 2400 ∷ receive 1200 ∷ []) (omega arith) (unfold steps in refl)
