-- ===== src/Peer/Requests.antt =====
-- torrent_peer.go: the requests that `DownloadPiece` sends.
use bit_torrent_project.Common.{ℕ, zero, suc, ◌+◌, ◌-◌, List, [], ◌∷◌, ltb, if◌then◌else◌}

abbrev pub max_blocks : ℕ
max_blocks = 5

abbrev pub max_block_size : ℕ
max_block_size = 16

-- The size of the block that follows `requested` bytes of a piece.
unfoldable pub block_size : ℕ → ℕ → ℕ
block_size piece_size requested =
    if ltb (piece_size - requested) max_block_size then piece_size - requested else max_block_size

-- The blocks, as begin and size, that the inner loop requests; `rounds` is what is left of the
-- `max_blocks` that may be pending.
unfoldable pub request_blocks : ℕ → ℕ → ℕ → List (ℕ × ℕ)
unfolding block_size
request_blocks zero piece_size requested = []
request_blocks (suc rounds) piece_size requested =
    let rest = request_blocks rounds piece_size (requested + block_size piece_size requested) in
    if ltb requested piece_size then (requested, block_size piece_size requested) ∷ rest else []
