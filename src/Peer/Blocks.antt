-- ===== src/Peer/Blocks.antt =====
-- torrent_peer.go: the requests of `DownloadPiece` run through the piece.
use bit_torrent_project.Common.{
  ℕ, zero, suc, ◌+◌, ◌-◌, ◌*◌, ◌≤◌, ◌<◌, ◌≡◌, List, [], ◌∷◌, length, leb, if◌then◌else◌, arith,
}
use bit_torrent_project.Peer.Requests.{block_size, request_blocks}

-- Each block begins where the one before ends, has between 1 and 16 bytes, and ends in the piece.
abbrev pub RunsFrom : ℕ → ℕ → List (ℕ × ℕ) → Type 0
RunsFrom piece_size requested [] = Unit {0}
RunsFrom piece_size requested ((begin, size) ∷ blocks) =
    (begin ≡ requested)
    × (0 < size)
    × (size ≤ 16)
    × (begin + size ≤ piece_size)
    × RunsFrom piece_size (begin + size) blocks

abbrev pub total : List (ℕ × ℕ) → ℕ
total [] = 0
total ((begin, size) ∷ blocks) = size + total blocks

-- The requests that are sent in one go follow each other without a gap from the first byte that was
-- not requested, each for 1 to 16 bytes within the piece; there are at most as many as may be
-- pending, and together they ask for all that is left of the piece or for 16 bytes each.
pub request_blocks-RunsFrom :
    (rounds piece_size requested : ℕ)
    → requested ≤ piece_size
    → RunsFrom piece_size requested (request_blocks rounds piece_size requested)
      × (length (request_blocks rounds piece_size requested) ≤ rounds)
      × (total (request_blocks rounds piece_size requested) ≡ (
          if leb (piece_size - requested) (16 * rounds)
          then piece_size - requested
          else 16 * rounds))
unfolding request_blocks block_size
request_blocks-RunsFrom zero piece_size requested h = (tt, omega arith, ground arith)
request_blocks-RunsFrom (suc rounds) piece_size requested h =
    let ih =
      request_blocks-RunsFrom rounds piece_size (requested + block_size piece_size requested) in
    ground (arith, ih)
