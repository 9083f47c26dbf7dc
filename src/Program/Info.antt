-- ===== src/Program/Info.antt =====
-- utils.go and main.go: the client's file info.json, and what the programs do around a download.
use bit_torrent_project.Common.{
  ℕ, List, [], ◌∷◌, ◌++◌, replicate, length, take, drop, Bool, true, false, String, Option, none,
  some, codes, ◌==◌, bytes_eq_instance, string_eq, Outcome, ok, err, panic, ◌>>=◌, if◌then◌else◌,
}
use bit_torrent_project.Common.Dict.{Dict, lookup, insert}
use bit_torrent_project.Dht.Node.{Panics}
use bit_torrent_project.Tracker.Process.{Loaded, unreadable, malformed, decoded, Written, save}
use bit_torrent_project.Tracker.Publish.{PublishQuery}
use bit_torrent_project.Tracker.Client.{publish_query}
use bit_torrent_project.Peer.Upload.{ClientTorrentFileInfo, no_info}
use bit_torrent_project.Peer.Worker.{PieceResult}
use bit_torrent_project.Peer.TorrentFile.{TorrentFile, OpenError}

abbrev pub TorrentFiles : Type 0
TorrentFiles = Dict (List ℕ) ClientTorrentFileInfo

pub record ClientInfo : Type 0 where
  pub peer_id : String
  pub torrent_files : TorrentFiles

-- `LoadInfo`, on what is in the file: `none` is the end of the process.
unfoldable pub load_info : Loaded ClientInfo → Option ClientInfo
load_info unreadable = none
load_info malformed = none
load_info (decoded info) = some info

-- The loop of `SaveToInfo` over the torrents of the old file: those that are copied, and the key of
-- the last one with the info hash.
unfoldable pub copy_files :
    List ℕ → TorrentFiles → TorrentFiles → Option (List ℕ) → TorrentFiles × Option (List ℕ)
copy_files info_hash [] copied index = (copied, index)
copy_files info_hash ((k, v) ∷ files) copied index =
    copy_files info_hash files (insert k v copied)
      (if info_hash == v.info_hash then some k else index)

abbrev pub pieces_of : Option ClientTorrentFileInfo → List (List ℕ)
pieces_of none = []
pieces_of (some v) = v.pieces

abbrev pub piece_size_of : Option ClientTorrentFileInfo → ℕ
piece_size_of none = 0
piece_size_of (some v) = v.piece_size

abbrev pub contains_hash : List (List ℕ) → List ℕ → Bool
contains_hash [] hash = false
contains_hash (h ∷ hashes) hash = if h == hash then true else contains_hash hashes hash

-- What the last loop leaves in the list of hashes that is stored, which shares its array with
-- `temp`: for the first piece whose hash is missing `copied` is copied over it; the hash that is
-- appended lies behind the end of the stored list, and further copies make no difference.
unfoldable pub stored_pieces :
    (List ℕ → List ℕ) → List (List ℕ) → List (List ℕ) → List PieceResult → List (List ℕ)
stored_pieces sha1 copied temp [] = temp
stored_pieces sha1 copied temp (p ∷ pieces) =
    if contains_hash temp (sha1 p.bytes)
    then stored_pieces sha1 copied temp pieces
    else take (length temp) copied ++ drop (length copied) temp

-- The key "1", `strconv.Itoa(len(newInfo.TorrentFiles) + 1)` of a map that is empty there.
abbrev pub first_index : List ℕ
first_index = codes "1"

-- The value that is encoded as the new content of the file.
unfoldable pub updated_info :
    (List ℕ → List ℕ) → List ℕ → List PieceResult → List ℕ → List ℕ → ClientInfo → ClientInfo
unfolding copy_files stored_pieces
updated_info sha1 path pieces info_hash bitfield info =
    let (copied, index) = copy_files info_hash info.torrent_files [] none in
    let files : TorrentFiles = elim index [
      | none ↦ insert first_index no_info copied
      | some k ↦ copied
    ] in
    let key : List ℕ = elim index [ none ↦ first_index | some k ↦ k ] in
    let old = lookup key info.torrent_files in
    record {
      peer_id = info.peer_id;
      torrent_files =
          insert info_hash
            (record {
              pieces =
                  stored_pieces sha1 (pieces_of (lookup info_hash info.torrent_files))
                    (pieces_of old) pieces;
              bitfield = bitfield;
              path = path;
              piece_size = elim index [ none ↦ 256 | some k ↦ piece_size_of old ];
              info_hash = info_hash;
            })
            files;
    }

-- `SaveToInfo`, on the file and with how its writing ends; `none` is the end of the process. The second
-- argument is what encoding/json reads back from its own text of a value: it replaces bytes of the
-- keys and of other texts that are no UTF-8.
unfoldable pub save_to_info :
    (List ℕ → List ℕ)
    → (ClientInfo → ClientInfo)
    → Written
    → List ℕ
    → List PieceResult
    → List ℕ
    → List ℕ
    → Loaded ClientInfo
    → Option (Loaded ClientInfo)
unfolding load_info updated_info save
save_to_info sha1 json written path pieces info_hash bitfield file = elim (load_info file) [
  | none ↦ none
  | some info ↦
      some (save written (json (updated_info sha1 path pieces info_hash bitfield info)) file)
]

-- The peer id of a program: the one of the file, or a random one.
unfoldable pub choose_peer_id : ClientInfo → String → String
choose_peer_id info random = if info.peer_id == "" then random else info.peer_id

-- What a download gives: the results, the info hash and the bitfield.
pub record Download : Type 0 where
  pub pieces : List PieceResult
  pub info_hash : List ℕ
  pub bitfield : List ℕ

-- `Download`, which drops every error: of a torrent that cannot be opened it goes on with nil, which
-- panics, and after a failed download it gives the empty values that come with the error.
unfoldable pub download :
    {E : Type 0}
    → Outcome OpenError TorrentFile
    → (TorrentFile → Outcome E Download)
    → Panics Download
download panic download_to = panic
download (err e) download_to = panic
download (ok tf) download_to = elim (download_to tf) [
  | panic ↦ panic
  | err e ↦ ok (record { pieces = []; info_hash = replicate 20 0; bitfield = [] })
  | ok d ↦ ok d
]

-- What the program does with the word that it reads: a download, and what it makes of info.json.
unfoldable pub run_download :
    {E : Type 0}
    → (List ℕ → List ℕ)
    → (ClientInfo → ClientInfo)
    → Written
    → String
    → List ℕ
    → Outcome OpenError TorrentFile
    → (TorrentFile → Outcome E Download)
    → Loaded ClientInfo
    → Panics (Option (Loaded ClientInfo))
unfolding download save_to_info
run_download sha1 json written word torrent_path opened download_to file =
    if word == "d"
    then (download opened download_to >>= λ d.
        ok (save_to_info sha1 json written torrent_path d.pieces d.info_hash d.bitfield file))
    else ok (some file)

-- `Publish`: the request to the tracker, of a torrent that can be opened.
unfoldable pub publish_file :
    Outcome OpenError TorrentFile → String → String → Panics (Option PublishQuery)
unfolding publish_query
publish_file panic peer_id ip = panic
publish_file (err e) peer_id ip = ok none
publish_file (ok tf) peer_id ip = ok (some (publish_query tf.info.info_hash peer_id ip))
