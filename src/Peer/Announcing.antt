-- ===== src/Peer/Announcing.antt =====
-- torrent_peer.go and torrent_files.go: what a client announces to the tracker in a download.
use bit_torrent_project.Common.{ℕ, List, [], ◌∷◌, false, String, Option, none, some}
use bit_torrent_project.Tracker.State.{Net, PeersPool, TrackerServer, blocked, crashed, returns}
use bit_torrent_project.Tracker.Queries.{AnnounceQuery}
use bit_torrent_project.Tracker.Announce.{announce}
use bit_torrent_project.Tracker.Client.{client_port}

-- The query that all of them fill in, with the port 50051 that `DownloadTo` passes on. What a query
-- leaves out is 0, or false.
abbrev pub announcement : List ℕ → String → String → String → ℕ → ℕ → AnnounceQuery
announcement info_hash peer_id ip event left downloaded = record {
  info_hash = info_hash;
  peer_id = peer_id;
  ip = ip;
  port = client_port;
  uploaded = 0;
  downloaded = downloaded;
  left = left;
  event = event;
  num_want = 0;
  request = false;
}

-- `StartPeerDownload` before its loop.
unfoldable pub started_query : List ℕ → String → String → ℕ → AnnounceQuery
started_query info_hash peer_id ip left = announcement info_hash peer_id ip "started" left 0

-- `StartPeerDownload` after a piece, and `KeepAliveToTracker`.
unfoldable pub progress_query : List ℕ → String → String → ℕ × ℕ → AnnounceQuery
progress_query info_hash peer_id ip (left, downloaded) =
    announcement info_hash peer_id ip "request" left downloaded

-- `DownloadTo` after the download.
unfoldable pub completed_query : List ℕ → String → String → AnnounceQuery
completed_query info_hash peer_id ip = announcement info_hash peer_id ip "completed" 0 0

-- `DownloadTo` when it ends.
unfoldable pub stopped_query : List ℕ → String → String → AnnounceQuery
stopped_query info_hash peer_id ip = announcement info_hash peer_id ip "stopped" 0 0

-- The announcements of a piece after the other, with the counters that they carry.
abbrev pub progress_queries : List ℕ → String → String → List (ℕ × ℕ) → List AnnounceQuery
progress_queries info_hash peer_id ip [] = []
progress_queries info_hash peer_id ip (c ∷ cs) =
    progress_query info_hash peer_id ip c ∷ progress_queries info_hash peer_id ip cs

module _ (net : Net) (again : PeersPool → PeersPool) where
  -- The tracker after these announcements; `none` where one of them does not come back.
  unfoldable pub announce_all : List AnnounceQuery → TrackerServer → Option TrackerServer
  announce_all [] tk = some tk
  announce_all (q ∷ qs) tk = elim (announce net again tk q) [
    | blocked ↦ none
    | crashed ↦ none
    | returns tk' r e ↦ announce_all qs tk'
  ]
