-- ===== src/Quic/SendTests.antt =====
-- Runs of the sending half of a QUIC stream, and its theorem at a concrete input.
use bolt_api.Prelude.{ℕ, ◌+◌, ◌≤◌, ◌≡◌, refl, true, [], ◌∷◌, length, arith}
use bolt_api.Quic.Stream.RingLaws.{Agrees}
use bolt_api.Quic.Stream.Send.{
  SendSide, open_send, write, mark_sent, rewind_sent, peek_unsent, unsent,
}
use bolt_api.Quic.Stream.Send.Delivery.{start, more, writes, sends, loses, peek_unsent-SendRun}

-- The application writes the byte 10 at offset 0, 11 at offset 1, and so on.
abbrev counting : ℕ → ℕ
counting o = o + 10

abbrev opened : SendSide
opened = open_send 1000 (λ i. 0)

abbrev written : SendSide
written = (write (10 ∷ 11 ∷ 12 ∷ []) true opened).1

abbrev sent : SendSide
sent = (mark_sent 3 true written).1

-- The packet with the last two bytes is lost.
abbrev lost : SendSide
lost = rewind_sent 1 true sent

peek_lost :
    peek_unsent 100 lost ≡ record { work = true; off = 1; bytes = 11 ∷ 12 ∷ []; out_fin = true }
unfolding peek_unsent rewind_sent mark_sent write open_send
peek_lost = refl

peek_unsent-SendRun_example :
    let c = peek_unsent 100 lost in
    Agrees counting c.off c.bytes
    × (length c.bytes ≤ 100)
    × (lost.send_base ≤ c.off)
    × (c.off + length c.bytes ≤ lost.send_end)
    × (c.out_fin ≡ true → c.off + length c.bytes ≡ lost.send_end)
unfolding unsent write open_send
peek_unsent-SendRun_example =
    peek_unsent-SendRun counting 1000 100 (λ i. 0)
      (more
        (more (more start (writes opened (10 ∷ 11 ∷ 12 ∷ []) true (omega arith)))
          (sends written 3 true (omega arith)))
        (loses sent 1 true))
