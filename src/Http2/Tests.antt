-- ===== src/Http2/Tests.antt =====
-- Runs of an HTTP/2 stream, and its theorems at concrete inputs.
use bolt_api.Prelude.{
  ℕ, ◌+◌, ◌^◌, ◌≤◌, ◌<◌, ◌≡◌, refl, true, false, none, some, ◌⊎◌, List, [], ◌∷◌, ◌++◌, length,
  arith,
}
use bolt_api.Http2.Stream.{
  opened, on_data_sent, on_data_received, can_send, signed_rank, update_window, consume_window,
}
use bolt_api.Http2.Stream.Closing.{start, more, data_received, can_send-after_end}
use bolt_api.Http2.Stream.Windows.{windows_lem}
use bolt_api.Http2.Integer.{encode_integer, decode_integer}
use bolt_api.Http2.Integer.IntegerRoundTrip.{decode_integer-encode_integer}

can_send-after_end_example : can_send (on_data_received true (on_data_sent true opened)) ≡ false
can_send-after_end_example =
    can_send-after_end opened (unfold can_send in refl)
      (more start (data_received true (on_data_sent true opened)))

decode_integer-encode_integer_example :
    (bytes : List ℕ) × (encode_integer 1337 5 0 16 ≡ some bytes)
    × (decode_integer (bytes ++ 0x40 ∷ []) 5 ≡ some (1337, length bytes))
decode_integer-encode_integer_example =
    decode_integer-encode_integer 1337 5 0 16 (0x40 ∷ []) (omega arith) (omega arith) (omega arith)
      (omega arith)

windows_lem_example :
    (((w : ℕ) × ((update_window 10 65535 ≡ some w)
          × ((signed_rank w ≡ signed_rank 65535 + 10)
              × ((1 ≤ 10) × ((10 < 2 ^ 31) × (signed_rank 65535 + 10 < 2 ^ 32))))))
      ⊎ ((update_window 10 65535 ≡ none)
          × (((◌≡◌ {A = ℕ} 10 0) ⊎ (2 ^ 31 ≤ 10)) ⊎ (2 ^ 32 ≤ signed_rank 65535 + 10))))
    × (((w : ℕ) × ((consume_window 20 65535 ≡ some w)
            × ((signed_rank w + 20 ≡ signed_rank 65535) × (2 ^ 31 ≤ signed_rank w))))
        ⊎ ((consume_window 20 65535 ≡ none) × (signed_rank 65535 < 2 ^ 31 + 20)))
windows_lem_example = windows_lem 10 20 65535 (omega arith) (omega arith) (omega arith)

-- A size of 2^31 or more is a negative number to the test, and the window grows.
consume_2_31 : consume_window (2 ^ 31) 0 ≡ some (2 ^ 31)
unfolding consume_window
consume_2_31 = refl
