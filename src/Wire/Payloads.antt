-- ===== src/Wire/Payloads.antt =====
-- message.go: the builders and parsers of HAVE, REQUEST and PIECE messages.
use bit_torrent_project.Common.{
  ℕ, ◌+◌, List, ◌++◌, ltb, leb, ◌==◌, nat_eq, length, take, drop, ok, ◌>>=◌, ◌>>◌, require,
}
use bit_torrent_project.Wire.Words.{
  Wire, wrong_id, wrong_length, payload_too_short, wrong_index, begin_too_high, data_too_long,
  length_too_big, put_uint32, uint32, copy_at,
}
use bit_torrent_project.Wire.Message.{Message, have, piece, request}

unfoldable pub build_have : ℕ → Message
build_have index = record { id = have; payload = put_uint32 index }

unfoldable pub build_request : ℕ → ℕ → ℕ → Message
build_request index begin len = record {
  id = request;
  payload = put_uint32 index ++ (put_uint32 begin ++ put_uint32 len);
}

unfoldable pub parse_have : Message → Wire ℕ
parse_have m = do
  require (m.id == have) wrong_id
  require (length m.payload == 4) wrong_length
  uint32 m.payload

-- The buffer is written in place only where the call succeeds: the result is the new buffer and
-- the number of bytes.
unfoldable pub parse_piece : ℕ → List ℕ → Message → Wire (List ℕ × ℕ)
parse_piece index buf m = do
  require (m.id == piece) wrong_id
  require (leb 8 (length m.payload)) payload_too_short
  parsed_index ← uint32 (take 4 m.payload)
  require (parsed_index == index) wrong_index
  parsed_begin ← uint32 (take 4 (drop 4 m.payload))
  require (ltb parsed_begin (length buf)) begin_too_high
  let bytes = drop 8 m.payload
  require (leb (parsed_begin + length bytes) (length buf)) data_too_long
  ok (copy_at parsed_begin bytes buf, length bytes)

unfoldable pub parse_request : Message → Wire (ℕ × ℕ × ℕ)
parse_request m = do
  require (m.id == request) wrong_id
  require (leb 12 (length m.payload)) payload_too_short
  parsed_index ← uint32 (take 4 m.payload)
  parsed_begin ← uint32 (take 4 (drop 4 m.payload))
  parsed_length ← uint32 (take 4 (drop 8 m.payload))
  require (leb parsed_length 16) length_too_big
  ok (parsed_index, parsed_begin, parsed_length)
