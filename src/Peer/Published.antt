-- ===== src/Peer/Published.antt =====
-- torrent_files.go, torrent.go and torrent_peer.go: a file that is published is downloaded.
use bit_torrent_project.Common.{
  ℕ, ◌/◌, ◌%◌, ◌<◌, ◌≡◌, ◌⊎◌, List, [], ◌∷◌, length, ltb, nat_eq, if◌then◌else◌,
}
use bit_torrent_project.Peer.Hashes.{hashes}
use bit_torrent_project.Peer.TorrentFile.{TorrentFile}

module _ (sha1 : List ℕ → List ℕ) where
  -- The hashes that a torrent of a file holds.
  abbrev pub hashes_of : List ℕ → List (List ℕ)
  hashes_of file =
      if ltb (length file) 256 then sha1 file ∷ [] else hashes sha1 (length file / 256) file

  -- A file that its torrent covers: it is shorter than one piece, or no bytes are left at its end.
  abbrev pub IsCovered : List ℕ → Type 0
  IsCovered file = (length file < 256) ⊎ (length file % 256 ≡ 0)
