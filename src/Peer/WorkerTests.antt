-- ===== src/Peer/WorkerTests.antt =====
-- Runs of downloads, connections and choking rounds on concrete files and peers.
use bit_torrent_project.Common.{
  ℕ, ◌+◌, ◌≡◌, refl, List, [], ◌∷◌, ◌++◌, true, false, none, some, length, replicate, get_elem?,
  All, ok, err, panic, arith, bytes_eq_instance,
}
use bit_torrent_project.Common.Dict.{Dict}
use bit_torrent_project.Wire.Words.{Wire, put_uint32, uint32, copy_at}
use bit_torrent_project.Wire.Bitfield.{has_piece}
use bit_torrent_project.Wire.Payloads.{parse_piece}
use bit_torrent_project.Wire.Message.{Message, unchoke, deserialize}
use bit_torrent_project.Peer.Upload.{
  ClientTorrentFileInfo, ConnectionsState, PeerConnection, get_client_torrent_file_info,
}
use bit_torrent_project.Peer.Download.{ask, receive, download_loop, download_piece}
use bit_torrent_project.Peer.Assembly.{arrivals}
use bit_torrent_project.Peer.Worker.{
  PieceTask, Attempt, Work, start_work, work_loop, try_piece, work_on, work_at, work_round,
  select_piece, check, remove, put_back, finish_piece, note_client, last_progress,
}
use bit_torrent_project.Peer.Ledger.{work_loop-checked}
use bit_torrent_project.Peer.TorrentFile.{TorrentFile}
use bit_torrent_project.Peer.Connect.{
  Client, handshake_time, bare, send_handshake, start_connection_with_peer,
}
use bit_torrent_project.Peer.Serve.{open_connection}
use bit_torrent_project.Peer.Greet.{start_connection-open_connection}
use bit_torrent_project.Wire.Handshake.{deserialize as read_handshake}
use bit_torrent_project.Wire.Words.{read_full, wrong_protocol_size, timed_out}
use bit_torrent_project.Peer.Download.{Progress}
use bit_torrent_project.Peer.Honest.{IsTaskOf}
use bit_torrent_project.Peer.Conversation.{at_start, conversation}
use bit_torrent_project.Peer.Collector.{piece_at}
use bit_torrent_project.Peer.Uploading.{reply, download_piece-reply}
use bit_torrent_project.Peer.Accept.{Arrival, server_tcp, Stops, server_tcp-unread}
use bit_torrent_project.Peer.Choking.{Contact}

abbrev file : List ℕ
file = 10 ∷ 11 ∷ 12 ∷ 13 ∷ 14 ∷ 15 ∷ 16 ∷ 17 ∷ []

abbrev sha1 : List ℕ → List ℕ
sha1 bytes = replicate 20 (length bytes)

abbrev no_uploads : ConnectionsState
no_uploads = record { last_upload = []; blocks_in_last_30_seconds = []; number_of_upload_peers = 0 }

abbrev all_pieces : List ℕ
all_pieces = 255 ∷ []

abbrev one_task : PieceTask
one_task = record { index = 0; hash = sha1 file; size = 8 }

-- One peer that sends the piece in two blocks, after a piece of other bytes.
abbrev attempts : List Attempt
attempts =
    record { random = 4; messages = λ task. arrivals 60 0 (1 ∷ 2 ∷ []) ((0, 2) ∷ []) }
    ∷ record { random = 4; messages = λ task. arrivals 60 0 file ((0, 5) ∷ (5, 3) ∷ []) }
    ∷ []

abbrev run : Wire Work
run =
    work_loop sha1 (7 ∷ []) [] attempts
      (start_work (one_task ∷ []) all_pieces no_uploads (length (one_task ∷ [])) 8)

abbrev work_of : Wire Work → Work
work_of (ok w) = w
work_of (err e) = start_work [] [] no_uploads 0 0
work_of panic = start_work [] [] no_uploads 0 0

run_returns : run ≡ ok (work_of run)
unfolding work_loop start_work work_round select_piece work_at work_on try_piece download_piece
    download_loop receive check remove put_back finish_piece note_client last_progress has_piece ask
    parse_piece put_uint32 uint32 copy_at
run_returns = refl

work_loop-checked_example :
    All
      (λ r.
        (k : ℕ) × (task : PieceTask) × (get_elem? (one_task ∷ []) k ≡ some task)
        × (r.index ≡ task.index)
        × (sha1 r.bytes ≡ task.hash))
      (work_of run).responses
    × All (λ t. (k : ℕ) × (get_elem? (one_task ∷ []) k ≡ some t)) (work_of run).tasks
    × (length (work_of run).responses + length (work_of run).tasks ≡ 1)
work_loop-checked_example =
    work_loop-checked sha1 (7 ∷ []) all_pieces [] no_uploads 8 (one_task ∷ []) attempts
      (work_of run) run_returns

abbrev torrents : Dict (List ℕ) ClientTorrentFileInfo
torrents =
    (
      1 ∷ [],
      record {
        pieces = [];
        bitfield = 192 ∷ [];
        path = 5 ∷ [];
        piece_size = 4;
        info_hash = replicate 20 9;
      },
    )
    ∷ []

start_connection-open_connection_example :
    (pc : PeerConnection) × (bytes after : List ℕ) × (c : Client) × (open_connection torrents
        (replicate 20 2)
        false
        2
        (send_handshake (replicate 20 9) (replicate 20 1) ++ [])
      ≡ ok (pc, bytes))
    × (pc.peer ≡ replicate 20 1)
    × (pc.info_hash ≡ replicate 20 9)
    × (start_connection_with_peer (replicate 20 2) bytes ≡ ok (c, after))
    × (c.bitfield ≡ (get_client_torrent_file_info torrents (replicate 20 9)).bitfield)
    × (deserialize after ≡ ok (some (bare unchoke), []))
    × (open_connection torrents
          (replicate 20 2)
          false
          (handshake_time 0 + 0)
          (send_handshake (replicate 20 9) (replicate 20 1) ++ [])
        ≡ err timed_out)
unfolding get_client_torrent_file_info
start_connection-open_connection_example =
    start_connection-open_connection torrents (replicate 20 9) (replicate 20 1) (replicate 20 2) []
      2 0 0 refl refl refl (omega arith) (omega arith)

abbrev interested : ℕ → Contact
interested id = record { id = id ∷ []; peer_choked = true; peer_interested = true }

abbrev four : List Contact
four = interested 1 ∷ interested 2 ∷ interested 3 ∷ interested 4 ∷ []

-- A peer that greets, and one that sends a single byte.
abbrev greeting : Arrival
greeting = record {
  deadline_fails = false;
  bitfield_fails = false;
  unchoke_fails = false;
  arrives = 1;
  stream = send_handshake (replicate 20 9) (replicate 20 1);
  messages = [];
}

abbrev mute : Arrival
mute = record greeting { stream = 5 ∷ [] }

mute-unread : read_handshake mute.stream ≡ err wrong_protocol_size
unfolding read_handshake read_full
mute-unread = refl

server_tcp-unread_example :
    (server_tcp
        (λ path. none)
        torrents
        (replicate 20 2)
        (greeting ∷ mute ∷ greeting ∷ [])
        no_uploads
      ≡ server_tcp (λ path. none) torrents (replicate 20 2) (greeting ∷ mute ∷ []) no_uploads)
    × Stops
        (λ path. none)
        torrents
        (replicate 20 2)
        (server_tcp
          (λ path. none)
          torrents
          (replicate 20 2)
          (greeting ∷ mute ∷ greeting ∷ [])
          no_uploads)
server_tcp-unread_example =
    server_tcp-unread (λ path. none) torrents (replicate 20 2) (greeting ∷ []) (greeting ∷ []) mute
      wrong_protocol_size no_uploads mute-unread

abbrev second_task : PieceTask
second_task = record { index = 1; hash = sha1 (14 ∷ 15 ∷ 16 ∷ 17 ∷ []); size = 4 }

abbrev second_task-IsTaskOf : IsTaskOf sha1 4 file second_task
second_task-IsTaskOf = record {
  hashed = refl;
  sized = refl;
  begins = omega arith;
  indexed = omega arith;
}

abbrev connection : PeerConnection
connection = record {
  choked = false;
  peer_choked = false;
  interested = false;
  peer_interested = true;
  peer = 7 ∷ [];
  info_hash = replicate 20 9;
}

download_piece-reply_example :
    (q : Progress) × (download_piece 1 (7 ∷ []) 4 true false (64 ∷ []) no_uploads (
        conversation
          (reply (λ path. some file) torrents connection no_uploads 1)
          true
          1
          (7 ∷ [])
          4
          (at_start 4 true false (64 ∷ []) no_uploads))
      ≡ ok q)
    × (q.buf ≡ piece_at 4 file 1)
unfolding get_client_torrent_file_info
download_piece-reply_example =
    download_piece-reply (λ path. some file) torrents connection no_uploads sha1 file 4 second_task
      (7 ∷ []) (64 ∷ []) true true false no_uploads (omega arith) second_task-IsTaskOf refl refl
      refl refl refl
