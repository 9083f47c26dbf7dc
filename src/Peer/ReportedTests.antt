-- ===== src/Peer/ReportedTests.antt =====
-- A run of the announcements of a download on a concrete tracker.
use bit_torrent_project.Common.{
  ℕ, ◌≡◌, refl, false, List, [], ◌∷◌, ◌++◌, none, some, codes, string_eq, bytes_eq_instance,
  if◌then◌else◌, ◌==◌,
}
use bit_torrent_project.Tracker.State.{Net, PeersPool, TorrentTk, TrackerServer}
use bit_torrent_project.Peer.Announcing.{
  started_query, progress_queries, completed_query, announce_all,
}
use bit_torrent_project.Peer.Reported.{Holds, announce_all-completed}

abbrev some_ip : List ℕ
some_ip = 10 ∷ 0 ∷ 0 ∷ 1 ∷ []

abbrev local_net : Net
local_net = record {
  parse_ip = λ s. if s == "" then none else some some_ip;
  ip_string = λ ip. "10.0.0.1";
  join_host_port = λ host port. host;
  addr_string = λ ip port. "10.0.0.1";
}

abbrev in_order : PeersPool → PeersPool
in_order pool = pool

abbrev some_hash : List ℕ
some_hash = codes "abcdefghijklmnopqrst"

abbrev published : TorrentTk
published = record { hash = some_hash; downloaded = 0; complete = 1; peers = [] }

abbrev tracker : TrackerServer
tracker = record {
  tk_id = "";
  interval = 30;
  torrents = (some_hash, published) ∷ [];
  red_key = 1 ∷ [];
  backup_trackers = [];
  locked = false;
}

announce_all-completed_example :
    (tk' : TrackerServer) × (announce_all local_net in_order
        (started_query some_hash "p2" "1" 300
          ∷ (progress_queries some_hash "p2" "1" ((44, 256) ∷ (0, 300) ∷ [])
              ++ completed_query some_hash "p2" "1" ∷ []))
        tracker
      ≡ some tk')
    × Holds local_net in_order some_hash some_ip "p2" "1" 1 0 tk'
announce_all-completed_example =
    announce_all-completed local_net in_order some_hash some_ip "p2" "1" refl refl refl 300
      ((44, 256) ∷ (0, 300) ∷ []) tracker published refl refl
