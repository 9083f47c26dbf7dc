-- ===== src/Peer/Pieces.antt =====
-- torrent.go and torrent_files.go: the lengths of pieces and their hashes. Go's int is a number: an
-- index of a message is below 2 ^ 32, and lengths are those of files.
use bit_torrent_project.Common.{
  ℕ, zero, suc, ◌+◌, ◌-◌, ◌*◌, ◌/◌, ◌%◌, List, [], ◌∷◌, ◌++◌, length, take, drop, ltb, ◌==◌, nat_eq,
  if◌then◌else◌, Outcome, ok, err, panic,
}
use bit_torrent_project.Dht.Node.{Panics}

-- `pieceLength`. Past the end of the file the difference is negative, and the buffer that is made
-- with it panics.
unfoldable pub piece_length : ℕ → ℕ → ℕ → Panics ℕ
piece_length piece_size file_length index =
    if ltb file_length ((index + 1) * piece_size)
    then (if ltb file_length (index * piece_size)
        then panic
        else ok (file_length - index * piece_size))
    else ok piece_size

-- The loop of `splitPiecesHash`, for so many hashes.
unfoldable pub split_loop : ℕ → List ℕ → List (List ℕ)
split_loop zero buf = []
split_loop (suc n) buf = take 20 buf ∷ split_loop n (drop 20 buf)

-- The error of `splitPiecesHash`: the length that is no multiple of 20.
unfoldable pub split_pieces_hash : List ℕ → Outcome ℕ (List (List ℕ))
unfolding split_loop
split_pieces_hash pieces =
    if length pieces % 20 == 0
    then ok (split_loop (length pieces / 20) pieces)
    else err (length pieces)

abbrev pub new_piece_length : ℕ
new_piece_length = 256

module _ (sha1 : List ℕ → List ℕ) where
  -- The loop of `BuildTorrentFile`, for so many pieces of 256 bytes; `end` never passes the end.
  unfoldable pub hash_loop : ℕ → List ℕ → List ℕ
  hash_loop zero buf = []
  hash_loop (suc n) buf =
      sha1 (take new_piece_length buf) ++ hash_loop n (drop new_piece_length buf)

  -- `piecesHash` of `BuildTorrentFile`.
  unfoldable pub pieces_hash : List ℕ → List ℕ
  unfolding hash_loop
  pieces_hash buf =
      (if length buf / new_piece_length == 0 then sha1 buf else [])
      ++ hash_loop (length buf / new_piece_length) buf
