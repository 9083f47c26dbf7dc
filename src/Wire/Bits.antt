-- ===== src/Wire/Bits.antt =====
-- message.go: `HasPiece` after `SetPiece`.
use mathlib.Core.Option.{some-injective}
use native.Mathlib.Decide.{ℕ_discrete}
use bit_torrent_project.Common.{
  ℕ, ◌/◌, ◌%◌, ◌<◌, ◌≡◌, refl, sym, ap, ◌∙◌, inl, inr, Bool, true, false, not, ◌&&◌, ◌||◌, List,
  length, get_elem?, set, All, length-set, get_elem?-set_self, get_elem?-set_ne, get_elem?-some,
  All-set, All-get_elem?, ltb, nat_eq, nat_beq, some, Option-cases, ok, arith,
}
use bit_torrent_project.Common.Tables.{holds_under, holds_under-at, both_true}
use bit_torrent_project.Wire.Words.{IsByte}
use bit_torrent_project.Wire.Bitfield.{test_bit, set_bit, has_piece, set_piece}

abbrev bool_eq : Bool → Bool → Bool
bool_eq true b = b
bool_eq false b = not b

bool_eq-eq : (a b : Bool) → bool_eq a b ≡ true → a ≡ b
bool_eq-eq true b h = sym h
bool_eq-eq false true h = cc
bool_eq-eq false false h = refl

abbrev agrees : ℕ → ℕ → ℕ → Bool
agrees i j b =
    bool_eq (test_bit (set_bit b i) j) (nat_beq i j || test_bit b j) && ltb (set_bit b i) 256

abbrev row_agrees : ℕ → ℕ → Bool
row_agrees i j = holds_under (agrees i j) 256

abbrev table_agrees : ℕ → Bool
table_agrees i = holds_under (row_agrees i) 8

bit_table : holds_under table_agrees 8 ≡ true
unfolding holds_under
bit_table = refl

byte_agrees : (i j b : ℕ) → i < 8 → j < 8 → b < 256 → agrees i j b ≡ true
byte_agrees i j b hi hj hb =
    holds_under-at (agrees i j) 256 b hb
      (holds_under-at (row_agrees i) 8 j hj (holds_under-at table_agrees 8 i hi bit_table))

test_bit-set_bit :
    (i j b : ℕ) → i < 8 → j < 8 → b < 256 → test_bit (set_bit b i) j ≡ (nat_beq i j || test_bit b j)
test_bit-set_bit i j b hi hj hb = bool_eq-eq _ _ (both_true _ _ (byte_agrees i j b hi hj hb)).0

ltb→lt : (a b : ℕ) → ltb a b ≡ true → a < b
ltb→lt a b h = ground arith

set_bit-IsByte : (i b : ℕ) → i < 8 → b < 256 → IsByte (set_bit b i)
set_bit-IsByte i b hi hb = ltb→lt _ _ (both_true _ _ (byte_agrees i i b hi hi hb)).1

-- The byte at `j / 8` after a write at `i / 8`.
byte-set :
    (bf : List ℕ) (i j x y : ℕ)
    → i / 8 < length bf
    → get_elem? bf (i / 8) ≡ some x
    → get_elem? bf (j / 8) ≡ some y
    → (z : ℕ) × (get_elem? (set bf (i / 8) (set_bit x (i % 8))) (j / 8) ≡ some z)
      × (y < 256 → test_bit z (j % 8) ≡ (nat_beq i j || test_bit y (j % 8)))
byte-set bf i j x y hi ex ey = elim (ℕ_discrete (i / 8) (j / 8)) [
  | yes same ↦ (
    set_bit x (i % 8),
    rw (← same) (get_elem?-set_self bf (i / 8) (set_bit x (i % 8)) hi),
    λ hy.
        let e : x ≡ y = some-injective _ _ (sym ex ∙ (ap (get_elem? bf) same ∙ ey)) in
        ground (arith, test_bit-set_bit (i % 8) (j % 8) y (omega arith) (omega arith) hy),
  )
  | no other ↦ (y, get_elem?-set_ne bf (set_bit x (i % 8)) other ∙ ey, λ hy. ground arith)
]

-- In a bitfield of bytes, for two pieces that it has room for: after `SetPiece` of the one,
-- `HasPiece` of the other answers yes if they are the same, and else as before.
pub has_piece-set_piece :
    (bf : List ℕ) (i j : ℕ)
    → All IsByte bf
    → i / 8 < length bf
    → j / 8 < length bf
    → (b : Bool) × (has_piece bf j ≡ ok b) × (has_piece (set_piece bf i) j ≡ ok (nat_beq i j || b))
unfolding has_piece set_piece
has_piece-set_piece bf i j h hi hj =
    let (x, ex) = get_elem?-some bf (i / 8) hi in
    let (y, ey) = get_elem?-some bf (j / 8) hj in
    let (z, ez, bit) = byte-set bf i j x y hi ex ey in
    (
      test_bit y (j % 8),
      rw ey,
      rw (ex, set_piece) (rw ez (ap ok (bit (All-get_elem? IsByte bf (j / 8) y h ey)))),
    )

-- `SetPiece` keeps the length of the bitfield and its bytes, at any index.
pub set_piece_shape :
    (bf : List ℕ) (i : ℕ)
    → All IsByte bf
    → (length (set_piece bf i) ≡ length bf) × All IsByte (set_piece bf i)
unfolding set_piece
set_piece_shape bf i h = elim (Option-cases (get_elem? bf (i / 8))) [
  | inl e ↦ rw (e, set_piece) (refl, h)
  | inr (b, e) ↦
      rw (e, set_piece)
        (
          length-set bf (i / 8) (set_bit b (i % 8)),
          All-set IsByte bf (i / 8) (set_bit b (i % 8)) h
              (set_bit-IsByte (i % 8) b (omega arith) (All-get_elem? IsByte bf (i / 8) b h e)),
        )
]
