-- ===== src/Wire/Exchange.antt =====
-- message.go: the parsers on what the builders write, and `ParsePiece` on any message.
use bit_torrent_project.Common.{
  ℕ, ◌+◌, ◌%◌, ◌^◌, ◌<◌, ◌≡◌, ◌≢◌, ap, List, ◌++◌, arith, ltb, leb, nat_eq, if◌then◌else◌, length,
  ok, err,
}
use bit_torrent_project.Wire.Words.{
  length_too_big, data_too_long, begin_too_high, wrong_index, put_uint32, uint32, copy_at,
}
use bit_torrent_project.Wire.Message.{Message, piece}
use bit_torrent_project.Wire.Payloads.{
  build_have, build_request, parse_have, parse_request, parse_piece,
}

-- A HAVE message carries its index modulo 2 ^ 32.
pub parse_have-build_have : (index : ℕ) → parse_have (build_have index) ≡ ok (index % 2 ^ 32)
unfolding parse_have build_have put_uint32 uint32
parse_have-build_have index = ap ok (omega arith)

-- A REQUEST is read back with its three numbers modulo 2 ^ 32 where the length is at most 16, and
-- is refused where it is more.
pub parse_request-build_request :
    (index begin len : ℕ)
    → parse_request (build_request index begin len) ≡ (
        if leb (len % 2 ^ 32) 16
        then ok (index % 2 ^ 32, begin % 2 ^ 32, len % 2 ^ 32)
        else err length_too_big)
unfolding parse_request build_request put_uint32 uint32
parse_request-build_request index begin len = ground arith

-- The PIECE message that answers a request: index and begin, then the block.
abbrev pub piece_message : ℕ → ℕ → List ℕ → Message
piece_message index begin block = record {
  id = piece;
  payload = put_uint32 index ++ (put_uint32 begin ++ block);
}

-- `ParsePiece`, for the index that it expects, on a PIECE message with this index and a begin,
-- both below 2 ^ 32: the block is copied to its place where it fits the buffer, and each way in
-- which it does not fit has its error.
pub parse_piece-piece_message :
    (index begin : ℕ) (block buf : List ℕ)
    → index < 2 ^ 32
    → begin < 2 ^ 32
    → parse_piece index buf (piece_message index begin block) ≡ (
        if ltb begin (length buf)
        then (if leb (begin + length block) (length buf)
            then ok (copy_at begin block buf, length block)
            else err data_too_long)
        else err begin_too_high)
unfolding parse_piece put_uint32 uint32
parse_piece-piece_message index begin block buf hi hb = ground arith

-- A PIECE message for another index is refused before the buffer is touched.
pub parse_piece_other_index :
    (index other begin : ℕ) (block buf : List ℕ)
    → index < 2 ^ 32
    → other ≢ index
    → parse_piece other buf (piece_message index begin block) ≡ err wrong_index
unfolding parse_piece put_uint32 uint32
parse_piece_other_index index other begin block buf hi ne = ground arith
