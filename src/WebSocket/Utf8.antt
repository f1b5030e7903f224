-- ===== src/WebSocket/Utf8.antt =====
-- FrameParser::validate_utf8 of src/http/websocket_parser.cpp.
pub mod Rounds
use bolt_api.Prelude.{
  ℕ, zero, suc, ◌-◌, Bool, true, false, ◌&&◌, ◌||◌, ltb, leb, ◌==◌, if◌then◌else◌, List, [], ◌∷◌,
  Option, none, some, length, drop, bit_and,
}
use bolt_api.Prelude.Bytes.{at}

-- What the first byte says: the length of the sequence and the range of its second byte.
unfoldable pub lead : ℕ → Option (ℕ × (ℕ × ℕ))
lead c =
    if leb 0xC2 c && leb c 0xDF
    then some (2, (0x80, 0xBF))
    else if c == 0xE0
    then some (3, (0xA0, 0xBF))
    else if leb 0xE1 c && leb c 0xEC
    then some (3, (0x80, 0xBF))
    else if c == 0xED
    then some (3, (0x80, 0x9F))
    else if leb 0xEE c && leb c 0xEF
    then some (3, (0x80, 0xBF))
    else if c == 0xF0
    then some (4, (0x90, 0xBF))
    else if leb 0xF1 c && leb c 0xF3
    then some (4, (0x80, 0xBF))
    else if c == 0xF4
    then some (4, (0x80, 0x8F))
    else none

-- The loop over the further bytes of a sequence, with `n` of them left.
unfoldable pub continues : ℕ → List ℕ → Bool
continues zero bytes = true
continues (suc n) [] = false
continues (suc n) (b ∷ bytes) = (bit_and b 0xC0 == 0x80) && continues n bytes

-- One sequence at the front: how many bytes it takes, if it is a legal one.
unfoldable pub sequence : List ℕ → Option ℕ
unfolding lead continues
sequence [] = none
sequence (c ∷ rest) = if ltb c 0x80 then some 1 else elim (lead c) [
  | none ↦ none
  | some (n, (lo, hi)) ↦
      if ltb (length (c ∷ rest)) n
      then none
      else if ltb (at rest 0) lo || ltb hi (at rest 0)
      then none
      else if continues (n - 2) (drop 1 rest)
      then some n
      else none
]

-- The loop, on fuel; `none` when it runs out. The number of bytes is enough.
unfoldable pub validate_rounds : ℕ → List ℕ → Option Bool
unfolding sequence
validate_rounds fuel [] = some true
validate_rounds zero (c ∷ rest) = none
validate_rounds (suc fuel) (c ∷ rest) = elim (sequence (c ∷ rest)) [
  | none ↦ some false
  | some n ↦ validate_rounds fuel (drop n (c ∷ rest))
]

unfoldable pub validate_utf8 : List ℕ → Bool
unfolding validate_rounds
validate_utf8 bytes = elim (validate_rounds (length bytes) bytes) [
  | none ↦ false
  | some valid ↦ valid
]
