-- ===== src/Program/Tests.antt =====
-- Runs of the client's programs on a concrete file info.json and a concrete session.
use bit_torrent_project.Common.{
  ℕ, ◌+◌, ◌*◌, ◌≡◌, refl, List, [], ◌∷◌, replicate, length, take, drop, String, Option, none, some,
  codes, ◌==◌, bytes_eq_instance, string_eq, if◌then◌else◌, ok, arith,
}
use bit_torrent_project.Common.Dict.{lookup}
use bit_torrent_project.Wire.Words.{copy_at}
use bit_torrent_project.Wire.Message.{Message}
use bit_torrent_project.Wire.Payloads.{build_request, parse_piece}
use bit_torrent_project.Tracker.Process.{Loaded, decoded, whole}
use bit_torrent_project.Peer.Upload.{ClientTorrentFileInfo, no_info, handle_request}
use bit_torrent_project.Peer.TorrentFile.{TorrentFile, OpenError}
use bit_torrent_project.Program.Info.{
  ClientInfo, load_info, first_index, updated_info, Download, run_download,
}
use bit_torrent_project.Program.Served.{lookup-updated_info, run_download-handle_request}
use bit_torrent_project.Program.Window.{Window, new_window, set_ip, set_port, press_start}
use bit_torrent_project.Program.Session.{
  Session, opened, acts, types_ip, sets_ip, types_port, sets_port, types_folder, types_torrent,
  starts, IsWindow, Session-IsWindow,
}

abbrev sha1 : List ℕ → List ℕ
sha1 bytes = replicate 20 (length bytes)

abbrev known_torrent : ClientTorrentFileInfo
known_torrent = record {
  pieces = [];
  bitfield = 128 ∷ [];
  path = 1 ∷ [];
  piece_size = 256;
  info_hash = replicate 20 3;
}

-- A file with a torrent under its info hash and one under the key "1".
abbrev info : ClientInfo
info = record {
  peer_id = "p";
  torrent_files = (replicate 20 3, known_torrent) ∷ (first_index, no_info) ∷ [];
}

lookup-updated_info_example :
    lookup
      (replicate 20 3)
      (updated_info sha1 (2 ∷ []) [] (replicate 20 9) (64 ∷ []) info).torrent_files
    ≡ (if first_index == replicate 20 3
        then some no_info
        else lookup (replicate 20 3) info.torrent_files)
lookup-updated_info_example =
    lookup-updated_info sha1 (2 ∷ []) [] (replicate 20 9) (64 ∷ []) (replicate 20 3) info
      (refl, (refl, tt)) (refl, (refl, tt)) refl

abbrev a_download : Download
a_download = record { pieces = []; info_hash = replicate 20 9; bitfield = 128 ∷ [] }

abbrev torrent : TorrentFile
torrent = record {
  announce = "t";
  info = record {
    name = "a";
    info_hash = replicate 20 9;
    piece_size = 256;
    pieces = sha1 [] ∷ [];
    file_length = 0;
  };
}

abbrev text : List ℕ
text = codes "d8:announce1:t4:infoe"

abbrev read_torrent : List ℕ → Option (List ℕ)
read_torrent [] = none
read_torrent (x ∷ xs) = some text

run_download-handle_request_example :
    (file : Loaded ClientInfo) × (again : ClientInfo) × (m : Message) × (run_download
        {E = OpenError} sha1
        (λ i. i)
        whole
        "d"
        (2 ∷ [])
        (ok torrent)
        (λ tf. ok a_download)
        (decoded info)
      ≡ ok (some file))
    × (handle_request read_torrent info.torrent_files (replicate 20 9) (build_request 0 2 4)
        ≡ ok ([], none))
    × (load_info file ≡ some again)
    × (handle_request read_torrent again.torrent_files (replicate 20 9) (build_request 0 2 4)
        ≡ ok (m ∷ [], none))
    × (parse_piece 0 (replicate 8 0) m
        ≡ ok (copy_at 2 (take 4 (drop (0 * 256 + 2) text)) (replicate 8 0), 4))
run_download-handle_request_example =
    run_download-handle_request {E = OpenError} sha1 (λ i. i) read_torrent (2 ∷ []) text
      (replicate 8 0) torrent (λ tf. ok a_download) a_download info 0 2 4 refl
      ((λ e. cc), ((λ e. cc), tt)) (refl, (refl, tt)) (λ e. cc) refl refl refl (omega arith)
      (omega arith) (omega arith) (omega arith) (omega arith) (omega arith)

abbrev parse_ip : String → Option (List ℕ)
parse_ip s = if s == "" then none else some (10 ∷ 0 ∷ 0 ∷ 1 ∷ [])

abbrev atoi : String → Option ℕ
atoi s = if s == "" then none else some 50051

-- A session in which an IP and a port are set, and a download is started.
abbrev with_ip : Window
with_ip = set_ip parse_ip atoi (record new_window { ip_entry = "10.0.0.1" })

abbrev ready : Window
ready = record (set_port parse_ip atoi (record with_ip { port_entry = "50051" })) {
  folder_entry = 5 ∷ [];
  torrent_entry = 6 ∷ [];
}

a-Session : Session parse_ip atoi (press_start parse_ip atoi ready)
unfolding new_window set_ip set_port
a-Session =
    acts
      (acts
        (acts
          (acts
            (acts (acts (acts opened (types_ip "10.0.0.1" refl)) sets_ip) (types_port "50051" refl))
            sets_port)
          (types_folder (5 ∷ [])))
        (types_torrent (6 ∷ [])))
      starts

Session-IsWindow_example : IsWindow parse_ip atoi (press_start parse_ip atoi ready)
Session-IsWindow_example =
    Session-IsWindow parse_ip atoi (press_start parse_ip atoi ready) a-Session
