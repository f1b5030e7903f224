-- ===== src/Http2/Stream/Windows.antt =====
-- The flow-control windows of an HTTP/2 stream, as signed numbers.
use bolt_api.Prelude.{ℕ, ◌+◌, ◌^◌, ◌<◌, ◌≤◌, ◌≡◌, ◌⊎◌, none, some, arith}
use bolt_api.Http2.Stream.{signed_rank, update_window, consume_window}

update_window_lem :
    (increment window : ℕ)
    → increment < 2 ^ 32
    → window < 2 ^ 32
    → ((w : ℕ) × ((update_window increment window ≡ some w)
          × ((signed_rank w ≡ signed_rank window + increment)
              × ((1 ≤ increment)
                  × ((increment < 2 ^ 31) × (signed_rank window + increment < 2 ^ 32))))))
      ⊎ ((update_window increment window ≡ none)
          × (((increment ≡ 0) ⊎ (2 ^ 31 ≤ increment)) ⊎ (2 ^ 32 ≤ signed_rank window + increment)))
unfolding update_window
update_window_lem i w hi hw = ground arith

consume_window_lem :
    (size window : ℕ)
    → size < 2 ^ 31
    → window < 2 ^ 32
    → ((w : ℕ) × ((consume_window size window ≡ some w)
          × ((signed_rank w + size ≡ signed_rank window) × (2 ^ 31 ≤ signed_rank w))))
      ⊎ ((consume_window size window ≡ none) × (signed_rank window < 2 ^ 31 + size))
unfolding consume_window
consume_window_lem n w hn hw = ground arith

-- An increment from 1 to 2^31 - 1 is added to the window when the sum is at most 2^31 - 1, and the
-- sum does not wrap around; every other increment is refused. A size below 2^31 is taken off the window and leaves
-- it at 0 or above; it is refused exactly when it is larger than the window.
pub windows_lem :
    (increment size window : ℕ)
    → increment < 2 ^ 32
    → size < 2 ^ 31
    → window < 2 ^ 32
    → (((w : ℕ) × ((update_window increment window ≡ some w)
            × ((signed_rank w ≡ signed_rank window + increment)
                × ((1 ≤ increment)
                    × ((increment < 2 ^ 31) × (signed_rank window + increment < 2 ^ 32))))))
        ⊎ ((update_window increment window ≡ none)
            × (((increment ≡ 0) ⊎ (2 ^ 31 ≤ increment))
                ⊎ (2 ^ 32 ≤ signed_rank window + increment))))
      × (((w : ℕ) × ((consume_window size window ≡ some w)
              × ((signed_rank w + size ≡ signed_rank window) × (2 ^ 31 ≤ signed_rank w))))
          ⊎ ((consume_window size window ≡ none) × (signed_rank window < 2 ^ 31 + size)))
windows_lem increment size window hi hs hw =
    (update_window_lem increment window hi hw, consume_window_lem size window hs hw)
