-- ===== src/Program/Served.antt =====
-- main.go, utils.go and uploader_client.go: what becomes of info.json, and what a client serves, once
-- it has downloaded a torrent.
use bit_torrent_project.Common.{
  ℕ, ◌+◌, ◌*◌, ◌^◌, ◌≤◌, ◌<◌, ◌≡◌, ◌≢◌, refl, ap, ◌∙◌, List, [], ◌∷◌, replicate, length, take, drop,
  All, Bool-cases, inl, inr, sym, bytes_eq_iff, true, false, Option, none, some, ◌==◌,
  bytes_eq_instance, if◌then◌else◌, Outcome, ok,
}
use bit_torrent_project.Common.Dict.{lookup, IsMap, lookup-insert}
use bit_torrent_project.Wire.Words.{copy_at}
use bit_torrent_project.Wire.Message.{Message}
use bit_torrent_project.Wire.Payloads.{build_request, parse_piece}
use bit_torrent_project.Tracker.Process.{Loaded, decoded, whole, save}
use bit_torrent_project.Peer.Upload.{
  ClientTorrentFileInfo, no_info, get_client_torrent_file_info, block_of, handle_request,
}
use bit_torrent_project.Peer.Transfer.{parse_small_request, handle_request-parse_piece}
use bit_torrent_project.Peer.Worker.{PieceResult}
use bit_torrent_project.Peer.TorrentFile.{TorrentFile}
use bit_torrent_project.Program.Info.{
  TorrentFiles, ClientInfo, copy_files, first_index, load_info, updated_info, save_to_info,
  Download, download, run_download,
}
use bit_torrent_project.Program.Saved.{
  AreKeyed, or_else, lookup-copy_files, copy_files_index, updated_info-found,
}

-- No torrent of the file has this info hash.
abbrev pub IsNew : List ℕ → TorrentFiles → Type 0
IsNew h files = All (λ (k, v). (h == v.info_hash) ≡ false) files

or_else-none : (o : Option ClientTorrentFileInfo) → or_else o none ≡ o
or_else-none none = refl
or_else-none (some v) = refl

-- `SaveToInfo` of a torrent that is new: of every key but its info hash, the file holds what it held
-- before, except that an empty torrent now stands under the key "1", whatever stood there.
pub lookup-updated_info :
    (sha1 : List ℕ → List ℕ) (path : List ℕ) (pieces : List PieceResult) (h bitfield k : List ℕ)
    (info : ClientInfo)
    → IsMap info.torrent_files
    → IsNew h info.torrent_files
    → (h == k) ≡ false
    → lookup k (updated_info sha1 path pieces h bitfield info).torrent_files
      ≡ (if first_index == k then some no_info else lookup k info.torrent_files)
unfolding updated_info
lookup-updated_info sha1 path pieces h bitfield k info m n other =
    let copied = (copy_files h info.torrent_files [] none).0 in
    let same : lookup k copied ≡ lookup k info.torrent_files =
      lookup-copy_files h k info.torrent_files [] none m
      ∙ or_else-none (lookup k info.torrent_files) in
    lookup-insert h k _ _
    ∙ rw other (
        rw (copy_files_index h info.torrent_files [] none n)
          (lookup-insert first_index k no_info copied ∙ rw same refl))

-- No torrent is found under an info hash that is new.
get_info-IsNew :
    (h : List ℕ) (files : TorrentFiles)
    → IsNew h files
    → get_client_torrent_file_info files h ≡ no_info
unfolding get_client_torrent_file_info
get_info-IsNew h [] n = refl
get_info-IsNew h ((k, v) ∷ files) n =
    let other : (v.info_hash == h) ≡ false = elim (Bool-cases (v.info_hash == h)) [
      | inr f ↦ f
      | inl t ↦
          let same : (h == v.info_hash) ≡ true =
            (bytes_eq_iff h v.info_hash).1 (sym ((bytes_eq_iff v.info_hash h).0 t)) in
          cc
    ] in
    rw other (get_info-IsNew h files n.1)

-- A program with a readable info.json, whose torrents stand under their info hashes, that downloads
-- a torrent it did not know, with an info hash that is not all zeros, where the file is written and
-- JSON gives the new content back. The uploader that runs beside the download, with the content
-- that was loaded at the start, does not answer a request for this torrent, before or after (no file has
-- the empty path). Once the program is started again and has loaded the file, its uploader answers a
-- request for 1 to 16 bytes with those that stand, with pieces of 256 bytes, at this place in the
-- torrent's own file, from which the download was started; the downloaded file is not served.
pub run_download-handle_request :
    {E : Type 0} (sha1 : List ℕ → List ℕ) (json : ClientInfo → ClientInfo)
    (read_file : List ℕ → Option (List ℕ)) (torrent_path text buf : List ℕ) (tf : TorrentFile)
    (download_to : TorrentFile → Outcome E Download) (d : Download) (info : ClientInfo)
    (index begin len : ℕ)
    → download_to tf ≡ ok d
    → AreKeyed d.info_hash info.torrent_files
    → IsNew d.info_hash info.torrent_files
    → d.info_hash ≢ replicate 20 0
    → json (updated_info sha1 torrent_path d.pieces d.info_hash d.bitfield info)
      ≡ updated_info sha1 torrent_path d.pieces d.info_hash d.bitfield info
    → read_file [] ≡ none
    → read_file torrent_path ≡ some text
    → index < 2 ^ 32
    → begin < 2 ^ 32
    → 0 < len
    → len ≤ 16
    → begin + len ≤ length buf
    → index * 256 + begin + len ≤ length text
    → (file : Loaded ClientInfo) × (again : ClientInfo) × (m : Message) × (run_download sha1 json
          whole "d" torrent_path
          (ok tf)
          download_to
          (decoded info)
        ≡ ok (some file))
      × (handle_request read_file info.torrent_files d.info_hash (build_request index begin len)
          ≡ ok ([], none))
      × (load_info file ≡ some again)
      × (handle_request read_file again.torrent_files d.info_hash (build_request index begin len)
          ≡ ok (m ∷ [], none))
      × (parse_piece index buf m
          ≡ ok (copy_at begin (take len (drop (index * 256 + begin) text)) buf, len))
unfolding run_download download save_to_info load_info save handle_request block_of
run_download-handle_request sha1 json read_file torrent_path text buf tf download_to d info index
      begin len e a n nz kept no_file opened hi hb hp hl fits within =
    let after = updated_info sha1 torrent_path d.pieces d.info_hash d.bitfield info in
    let (v, found, p, _, size) =
      updated_info-found sha1 torrent_path d.pieces d.info_hash d.bitfield info a nz in
    let path = ap ClientTorrentFileInfo.path found ∙ p in
    let piece_size = ap ClientTorrentFileInfo.piece_size found ∙ size n in
    let (m, answers, takes) =
      handle_request-parse_piece read_file after.torrent_files d.info_hash text buf index begin len
        hi hb hp hl fits (ap read_file path ∙ opened) (rw piece_size within) in
    let unknown = get_info-IsNew d.info_hash info.torrent_files n in
    (
      decoded after,
      after,
      m,
      rw (e, run_download, download) (ap (λ x. ok (some (decoded x))) kept),
      rw (parse_small_request index begin len hi hb hl, handle_request)
          (rw (unknown, block_of) (rw no_file refl)),
      refl,
      answers,
      takes ∙ rw piece_size refl,
    )
