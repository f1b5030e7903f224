-- ===== src/Quic/Robustness/Amplification.antt =====
-- The anti-amplification limit of include/boltapi/quic/robustness.h.
use bolt_api.Prelude.{
  ℕ, ◌+◌, ◌-◌, ◌*◌, ◌%◌, ◌^◌, ◌≤◌, ◌<◌, ◌≡◌, refl, Bool, true, false, ◌||◌, leb, if◌then◌else◌,
  Bool-cases, inl, inr, List, [], ◌∷◌, arith,
}
use bolt_api.Quic.Robustness.{
  AntiAmplification, unvalidated, on_received, on_sent, validate, budget, can_send,
}

-- What a server does; a datagram is sent only when `can_send` allows it.
pub data Step : Type 0 where
  receive : ℕ → Step
  send : ℕ → Step
  validated_peer : Step

unfoldable pub take_step : Step → AntiAmplification → AntiAmplification
unfolding on_received on_sent validate can_send
take_step (receive n) a = on_received n a
take_step (send n) a = if can_send n a then on_sent n a else a
take_step validated_peer a = validate a

-- The steps of a connection, the last one first.
unfoldable pub steps : List Step → AntiAmplification
unfolding take_step
steps [] = unvalidated
steps (s ∷ ss) = take_step s (steps ss)

abbrev pub received_bytes : List Step → ℕ
received_bytes [] = 0
received_bytes (receive n ∷ ss) = n + received_bytes ss
received_bytes (s ∷ ss) = received_bytes ss

-- The bytes of the datagrams that were sent: those that `can_send` allowed when their turn came.
unfoldable pub sent_bytes : List Step → ℕ
unfolding can_send steps
sent_bytes [] = 0
sent_bytes (receive n ∷ ss) = sent_bytes ss
sent_bytes (validated_peer ∷ ss) = sent_bytes ss
sent_bytes (send n ∷ ss) =
    let before = sent_bytes ss in if can_send n (steps ss) then n + before else before

record IsLimited (total out : ℕ) (a : AntiAmplification) : Type 0 where
  exact : a.received ≡ total
  counted : a.validated ≡ false → a.sent ≡ out
  limit : a.validated ≡ false → out ≤ 3 * total

-- A datagram that the budget allows.
within_budget :
    (validated : Bool) (received sent n total : ℕ)
    → validated ≡ false
    → received ≡ total
    → total < 2 ^ 62
    → sent ≤ 3 * total
    → (let cap = received * 3 % 2 ^ 64 in
        validated
        || leb n (if validated then 2 ^ 64 - 1 else if leb cap sent then 0 else cap - sent))
      ≡ true
    → sent + n ≤ 3 * total
within_budget true received sent n total unknown exact small limit allowed = cc
within_budget false received sent n total unknown exact small limit allowed = ground arith

send_lem :
    (n total out : ℕ) (a : AntiAmplification)
    → total < 2 ^ 62
    → IsLimited total out a
    → IsLimited total
        (if can_send n a then n + out else out)
        (if can_send n a then on_sent n a else a)
unfolding can_send budget on_sent
send_lem n total out a small v = elim (Bool-cases (can_send n a)) [
  | inr refused ↦ rw refused v
  | inl allowed ↦
      let room : a.validated ≡ false → a.sent + n ≤ 3 * total = λ unknown.
        within_budget a.validated a.received a.sent n total unknown v.exact small
          (omega (arith, v.counted unknown, v.limit unknown)) allowed in
      rw allowed (record {
        exact = v.exact;
        counted = λ unknown. omega (arith, v.counted unknown, room unknown);
        limit = λ unknown. omega (arith, v.counted unknown, room unknown);
      })
]

steps-IsLimited :
    (ss : List Step)
    → received_bytes ss < 2 ^ 62
    → IsLimited (received_bytes ss) (sent_bytes ss) (steps ss)
unfolding steps take_step on_received validate sent_bytes
steps-IsLimited [] h = record { exact = refl; counted = λ e. refl; limit = λ e. omega arith }
steps-IsLimited (receive n ∷ ss) h =
    let v : IsLimited (received_bytes ss) (sent_bytes ss) (steps ss) =
      steps-IsLimited ss (omega arith) in
    record {
      exact = omega (arith, v.exact);
      counted = v.counted;
      limit = λ e. omega (arith, v.limit e);
    }
steps-IsLimited (send n ∷ ss) h =
    send_lem n (received_bytes ss) (sent_bytes ss) (steps ss) h (steps-IsLimited ss h)
steps-IsLimited (validated_peer ∷ ss) h =
    let v : IsLimited (received_bytes ss) (sent_bytes ss) (steps ss) = steps-IsLimited ss h in
    record { exact = v.exact; counted = λ e. cc; limit = λ e. cc }

-- Until the peer's address is validated, the datagrams of a server that asks `can_send` before each
-- of them have at most three times the bytes that it received, whatever came and went, in any order;
-- the bytes received are below 2^62.
pub sent-limit :
    (ss : List Step)
    → received_bytes ss < 2 ^ 62
    → (steps ss).validated ≡ false
    → sent_bytes ss ≤ 3 * received_bytes ss
sent-limit ss h unknown = (steps-IsLimited ss h).limit unknown
