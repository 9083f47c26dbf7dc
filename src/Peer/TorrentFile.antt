-- ===== src/Peer/TorrentFile.antt =====
-- torrent_files.go: torrents, and the steps of `DownloadTo`. SHA-1 is a function; the file system
-- and the bencode library are read as in the comments of the definitions.
use bit_torrent_project.Common.{
  ℕ, ◌+◌, ◌%◌, ◌^◌, List, [], ◌∷◌, ◌++◌, Bool, Option, none, some, String, length, take, replicate,
  get_elem?, string_eq, if◌then◌else◌, Outcome, ok, err, panic, ◌>>=◌, ◌>>◌, require, or_panic,
}
use bit_torrent_project.Common.Dict.{Dict, insert}
use bit_torrent_project.Tracker.Process.{split_colons}
use bit_torrent_project.Dht.Node.{Panics}
use bit_torrent_project.Peer.Pieces.{split_pieces_hash, new_piece_length, pieces_hash}

pub record BencodeInfo : Type 0 where
  pub name : String
  pub info_hash : List ℕ
  pub piece_size : ℕ
  pub pieces : List ℕ
  pub file_length : ℕ

pub record BencodeTorrent : Type 0 where
  pub announce : String
  pub info : BencodeInfo

pub record TorrentInfo : Type 0 where
  pub name : String
  pub info_hash : List ℕ
  pub piece_size : ℕ
  pub pieces : List (List ℕ)
  pub file_length : ℕ

pub record TorrentFile : Type 0 where
  pub announce : String
  pub info : TorrentInfo

unfoldable pub convert_to_torrent_file : BencodeTorrent → Outcome ℕ TorrentFile
convert_to_torrent_file bto = do
  pieces ← split_pieces_hash bto.info.pieces
  ok (record {
    announce = bto.announce;
    info = record {
      name = bto.info.name;
      info_hash = bto.info.info_hash;
      piece_size = bto.info.piece_size;
      pieces = pieces;
      file_length = bto.info.file_length;
    };
  })

-- What `BuildTorrentFile` encodes, of a file that it can read, with the characters of
-- `randstr.Hex(10)`.
unfoldable pub build_torrent_file :
    (List ℕ → List ℕ) → String → List ℕ → String → List ℕ → BencodeTorrent
build_torrent_file sha1 name buf tracker_url random = record {
  announce = tracker_url;
  info = record {
    name = name;
    info_hash = take 20 (random ++ replicate 20 0);
    piece_size = new_piece_length;
    pieces = pieces_hash sha1 buf;
    file_length = length buf;
  };
}

-- `OpenTorrentFile`, on what the bencode library reads of the file, if it can be opened and read.
pub data OpenError : Type 0 where
  not_read : OpenError
  malformed_pieces : ℕ → OpenError

unfoldable pub open_torrent_file : Option BencodeTorrent → Outcome OpenError TorrentFile
open_torrent_file none = err not_read
open_torrent_file (some bto) = elim (convert_to_torrent_file bto) [
  | panic ↦ panic
  | err n ↦ err (malformed_pieces n)
  | ok tf ↦ ok tf
]

-- peer.Peer.
pub record Peer : Type 0 where
  pub id : String
  pub ip : List ℕ
  pub port : ℕ

-- Functions of package net and strconv: `net.ParseIP` with nil as [], `strconv.Itoa`, and
-- `strconv.Atoi` without its error.
module _ (parse_ip : String → List ℕ) (itoa : ℕ → String) (atoi : String → ℕ) where
  -- The addresses of the DHT, numbered from `i` on.
  unfoldable pub numbered : ℕ → List String → Dict String String → Dict String String
  numbered i [] dict = dict
  numbered i (addr ∷ addrs) dict = numbered (i + 1) addrs (insert (itoa i) addr dict)

  -- The peers to ask: those of the tracker, or where its response is an error those of the DHT.
  unfoldable pub peers_dict :
      {E : Type 0}
      → Option (Dict String String)
      → Outcome E (List String)
      → Outcome E (Dict String String)
  unfolding numbered
  peers_dict (some peers) dht = ok peers
  peers_dict none dht = dht >>= λ addrs. ok (numbered 0 addrs [])

  -- The loop over the peers, in the order of `range`. An address without a colon panics.
  unfoldable pub peers_of : {E : Type 0} → Dict String String → Outcome E (List Peer)
  unfolding split_colons
  peers_of [] = ok []
  peers_of ((k, v) ∷ dict) = do
    ip ← or_panic (get_elem? (split_colons v) 0)
    port ← or_panic (get_elem? (split_colons v) 1)
    rest ← peers_of dict
    ok (record { id = k; ip = parse_ip ip; port = atoi port % 2 ^ 16 } ∷ rest)

pub data DownloadError (E : Type 0) : Type 0 where
  no_peers : E → DownloadError E
  not_announced : DownloadError E
  not_created : DownloadError E
  not_written : DownloadError E

-- `DownloadTo` after its peers are known, with what `DownloadFile` makes of them: the completed
-- download is announced, through a nil client where the tracker has given no peers, and then the
-- file is written.
unfoldable pub finish_download :
    {E : Type 0} → Bool → Bool → Bool → Bool → Panics (List ℕ) → Outcome (DownloadError E) (List ℕ)
finish_download has_tracker announced created written panic = panic
finish_download has_tracker announced created written (err x) = elim x [ ]
finish_download has_tracker announced created written (ok res) = do
  or_panic (if has_tracker then some tt else none)
  require announced not_announced
  require created not_created
  require written not_written
  ok res
