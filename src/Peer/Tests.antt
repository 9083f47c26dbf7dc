-- ===== src/Peer/Tests.antt =====
-- Runs of the exchange of pieces on concrete files, peers and blocks.
use bit_torrent_project.Common.{
  ℕ, ◌+◌, ◌*◌, ◌≤◌, ◌≡◌, refl, List, [], ◌∷◌, Option, none, some, length, take, drop, get_elem?,
  replicate, All, ltb, if◌then◌else◌, ok, arith,
}
use bit_torrent_project.Common.Dict.{Dict}
use bit_torrent_project.Wire.Words.{copy_at}
use bit_torrent_project.Wire.Bitfield.{has_piece}
use bit_torrent_project.Wire.Message.{Message}
use bit_torrent_project.Wire.Payloads.{build_request, parse_piece}
use bit_torrent_project.Peer.Selection.{number_of_peers, rarest_first}
use bit_torrent_project.Peer.Rarest.{rarest_first-IsRarest}
use bit_torrent_project.Peer.Upload.{
  ClientTorrentFileInfo, get_client_torrent_file_info, ConnectionsState, handle_request,
}
use bit_torrent_project.Peer.Transfer.{handle_request-parse_piece}

abbrev file : List ℕ
file = 10 ∷ 11 ∷ 12 ∷ 13 ∷ 14 ∷ 15 ∷ 16 ∷ 17 ∷ []

abbrev torrents : Dict (List ℕ) ClientTorrentFileInfo
torrents =
    (
      1 ∷ [],
      record {
        pieces = [];
        bitfield = 192 ∷ [];
        path = 5 ∷ [];
        piece_size = 4;
        info_hash = 9 ∷ [];
      },
    )
    ∷ []

abbrev read_file : List ℕ → Option (List ℕ)
read_file path = some file

handle_request-parse_piece_example :
    (m : Message) × (handle_request read_file torrents (9 ∷ []) (build_request 1 1 2)
      ≡ ok (m ∷ [], none))
    × (parse_piece 1 (replicate 4 0) m
        ≡ ok (copy_at 1 (take 2 (drop (1 * 4 + 1) file)) (replicate 4 0), 2))
unfolding get_client_torrent_file_info
handle_request-parse_piece_example =
    handle_request-parse_piece read_file torrents (9 ∷ []) file (replicate 4 0) 1 1 2 (omega arith)
      (omega arith) (omega arith) (omega arith) (omega arith) refl (omega arith)

abbrev sha1 : List ℕ → List ℕ
sha1 bytes = replicate 20 (length bytes)

abbrev bitfields : List (List ℕ)
bitfields = (192 ∷ []) ∷ (128 ∷ []) ∷ []

-- The numbers of peers that have each piece.
abbrev peers_with : ℕ → ℕ
peers_with index = if ltb index 1 then 2 else 1

rarest_first-IsRarest_example :
    (p : ℕ) × (found : ℕ) × (rarest_first (0 ∷ 1 ∷ []) bitfields ≡ ok p)
    × (get_elem? (0 ∷ 1 ∷ []) p ≡ some found)
    × All (λ j. peers_with found ≤ peers_with j) (0 ∷ 1 ∷ [])
unfolding number_of_peers has_piece
rarest_first-IsRarest_example =
    rarest_first-IsRarest bitfields peers_with 0 (1 ∷ [])
      ((refl, omega arith), ((refl, omega arith), tt))

abbrev no_uploads : ConnectionsState
no_uploads = record { last_upload = []; blocks_in_last_30_seconds = []; number_of_upload_peers = 0 }

abbrev two_blocks : List (ℕ × ℕ)
two_blocks = (0, 5) ∷ (5, 3) ∷ []
