-- ===== src/Wire/Tests.antt =====
-- The wire protocol on concrete messages: runs, and the theorems at inputs that meet their
-- hypotheses.
use bit_torrent_project.Common.{
  ℕ, ◌≡◌, refl, Bool, List, [], ◌∷◌, ◌++◌, length, some, ok, nat_beq, ◌||◌, arith, replicate, codes,
}
use bit_torrent_project.Wire.Words.{uint32, read_full, copy_at}
use bit_torrent_project.Wire.Message.{Message, serialize, deserialize}
use bit_torrent_project.Wire.Bitfield.{has_piece, set_piece}
use bit_torrent_project.Wire.Handshake.{Handshake, protocol}
use bit_torrent_project.Wire.Framing.{deserialize-serialize, Framed, deserialize-Framed}
use bit_torrent_project.Wire.Bits.{has_piece-set_piece}

abbrev have_seven : Message
have_seven = record { id = 5; payload = 0 ∷ 0 ∷ 0 ∷ 7 ∷ [] }

deserialize-serialize_example :
    (bs : List ℕ) × (serialize (some have_seven) ≡ ok bs)
    × (length bs ≡ 9)
    × (deserialize (bs ++ 1 ∷ []) ≡ ok (some have_seven, 1 ∷ []))
deserialize-serialize_example = deserialize-serialize have_seven (1 ∷ []) (omega arith)

read_have : deserialize (0 ∷ 0 ∷ 0 ∷ 5 ∷ 5 ∷ 0 ∷ 0 ∷ 0 ∷ 7 ∷ 1 ∷ []) ≡ ok (some have_seven, 1 ∷ [])
unfolding deserialize read_full uint32
read_have = refl

deserialize-Framed_example : Framed (0 ∷ 0 ∷ 0 ∷ 5 ∷ 5 ∷ 0 ∷ 0 ∷ 0 ∷ 7 ∷ 1 ∷ []) have_seven (1 ∷ [])
deserialize-Framed_example =
    deserialize-Framed (0 ∷ 0 ∷ 0 ∷ 5 ∷ 5 ∷ 0 ∷ 0 ∷ 0 ∷ 7 ∷ 1 ∷ []) have_seven (1 ∷ []) read_have

written_block : copy_at 1 (8 ∷ 9 ∷ []) (replicate 4 0) ≡ 0 ∷ 8 ∷ 9 ∷ 0 ∷ []
unfolding copy_at
written_block = refl

has_piece-set_piece_example :
    (b : Bool) × (has_piece (0 ∷ 128 ∷ []) 8 ≡ ok b)
    × (has_piece (set_piece (0 ∷ 128 ∷ []) 3) 8 ≡ ok (nat_beq 3 8 || b))
has_piece-set_piece_example =
    has_piece-set_piece (0 ∷ 128 ∷ []) 3 8 (omega arith) (omega arith) (omega arith)

set_third : set_piece (0 ∷ 128 ∷ []) 3 ≡ 16 ∷ 128 ∷ []
unfolding set_piece
set_third = refl

abbrev greeting : Handshake
greeting = record {
  pstr = protocol;
  peer_id = codes "peer-01";
  info_hash = codes "abcdefghijklmnopqrst";
}
