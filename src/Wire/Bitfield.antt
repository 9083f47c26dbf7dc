-- ===== src/Wire/Bitfield.antt =====
-- message.go: the bitfield of pieces, most significant bit first.
use Prim.Native.Nat.{bit_and, bit_or}
use bit_torrent_project.Common.{
  ℕ, ◌-◌, ◌/◌, ◌%◌, ◌^◌, Bool, not, List, get_elem?, set, ◌==◌, nat_eq, none, some, ok, or_panic,
  ◌>>=◌,
}
use bit_torrent_project.Wire.Words.{Wire}

-- `b>>(7-offset)&1 != 0`, where `>>` and `&` associate to the left.
abbrev pub test_bit : ℕ → ℕ → Bool
test_bit b offset = not (bit_and (b / 2 ^ (7 - offset)) 1 == 0)

-- `b |= 1 << (7 - offset)`.
abbrev pub set_bit : ℕ → ℕ → ℕ
set_bit b offset = bit_or b (2 ^ (7 - offset))

-- An index past the end panics.
unfoldable pub has_piece : List ℕ → ℕ → Wire Bool
has_piece bf index = do b ← or_panic (get_elem? bf (index / 8)); ok (test_bit b (index % 8))

-- `SetPiece`; an index past the end is discarded.
unfoldable pub set_piece : List ℕ → ℕ → List ℕ
set_piece bf index = elim (get_elem? bf (index / 8)) [
  | none ↦ bf
  | some b ↦ set bf (index / 8) (set_bit b (index % 8))
]
