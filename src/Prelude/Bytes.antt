-- ===== src/Prelude/Bytes.antt =====
-- Bytes, and the wrapping subtraction of machine words.
use Prim.Native.Nat.{ℕ, ◌+◌, ◌-◌, ◌%◌, ◌^◌, ◌<◌, bit_and}
use mathlib.Core.Bool.{Bool, not}
use mathlib.Core.List.{List}
use bolt_api.Prelude.Lists.{get_or}
use bolt_api.Prelude.Tests.{◌==◌}

abbrev pub IsByte : ℕ → Type 0
IsByte b = b < 256

-- `a - b` of two uint64_t.
abbrev pub sub64 : ℕ → ℕ → ℕ
sub64 a b = (a + 2 ^ 64 - b) % 2 ^ 64

-- Byte `i`; every use stands behind a test of the length.
abbrev pub at : List ℕ → ℕ → ℕ
at bytes i = get_or bytes i 0

-- The C++ test `(b & m) != 0`.
abbrev pub has_bit : ℕ → ℕ → Bool
has_bit b m = not (bit_and b m == 0)
