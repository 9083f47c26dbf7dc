-- ===== src/Tracker/Announce.antt =====
-- tacker.go: the Announce request.
use bit_torrent_project.Common.{
  ◌+◌, ◌%◌, ◌^◌, List, [], ◌++◌, replicate, length, String, Option, none, some, ◌==◌, ok, err,
  panic, nat_eq, bytes_eq_instance, string_eq, if◌then◌else◌,
}
use bit_torrent_project.Common.Dict.{lookup, insert}
use bit_torrent_project.Tracker.State.{
  Net, PeerTk, PeersPool, TorrentTk, TrackerServer, TrackersPool, TrackerError, unknown_torrent,
  Call, crashed, returns, with_lock,
}
use bit_torrent_project.Tracker.Publish.{addresses, re_publish_request_manager}
use bit_torrent_project.Tracker.Queries.{
  AnnounceQuery, ParseAnnounce, AnnounceResponse, announce_query_check, torrent_stats, get_peer,
  get_random_peers,
}

-- `pp[id].State = state`, which goes through nil where the peer is missing.
unfoldable pub set_state : String → String → PeersPool → Option PeersPool
set_state id state pool = elim (lookup id pool) [
  | none ↦ none
  | some p ↦ some (insert id (record p { state = state }) pool)
]

abbrev pub new_peer : ParseAnnounce → PeerTk
new_peer pa = record { id = pa.peer_id; ip = pa.ip; port = pa.port; state = "started" }

abbrev pub with_peers : TorrentTk → Option PeersPool → Option TorrentTk
with_peers ttk none = none
with_peers ttk (some pool) = some (record ttk { peers = pool })

abbrev pub count_complete : Option TorrentTk → Option TorrentTk
count_complete none = none
count_complete (some ttk) = some (record ttk {
  complete = (ttk.complete + 1) % 2 ^ 64;
  downloaded = (ttk.downloaded + 1) % 2 ^ 64;
})

-- `switch event`; `none` is a crash.
unfoldable pub apply_event : ParseAnnounce → TorrentTk → Option TorrentTk
unfolding set_state get_peer
apply_event pa ttk =
    if pa.event == "started"
    then (elim (get_peer ttk.peers pa.peer_id) [
      | none ↦ some (record ttk { peers = insert pa.peer_id (new_peer pa) ttk.peers })
      | some p ↦ with_peers ttk (set_state pa.peer_id "started" ttk.peers)
    ])
    else if pa.event == "request"
    then some ttk
    else if pa.event == "complete"
    then count_complete (with_peers ttk (set_state pa.peer_id "complete" ttk.peers))
    else if pa.event == "stopped"
    then with_peers ttk (set_state pa.peer_id "stopped" ttk.peers)
    else some ttk

-- The addresses of the RePublish block, which follows `complete` alone.
unfoldable pub announce_targets : ParseAnnounce → TrackersPool → List String
unfolding re_publish_request_manager
announce_targets pa bks =
    if pa.event == "complete"
    then re_publish_request_manager (replicate (length bks) "" ++ addresses bks)
    else []

abbrev pub failure : TrackerError → AnnounceResponse
failure e = record {
  peers = [];
  interval = 0;
  complete = 0;
  incomplete = 0;
  republished = [];
  failure_reason = some e;
}

-- `again` is the order in which the second loop of `getRandomPeers` meets the peers.
module _ (net : Net) (again : PeersPool → PeersPool) where
  unfoldable pub announce_found : ParseAnnounce → TorrentTk → TrackerServer → Call AnnounceResponse
  unfolding torrent_stats announce_targets apply_event
  announce_found pa ttk tk =
      let peer_set =
        if pa.request
        then get_random_peers net ttk.peers (again ttk.peers) pa.peer_id pa.num_want
        else [] in
      elim (apply_event pa ttk) [
        | none ↦ crashed
        | some ttk' ↦
            returns (record tk { torrents = insert pa.info_hash ttk' tk.torrents })
              (some (record {
                peers = peer_set;
                interval = tk.interval;
                complete = (torrent_stats ttk'.peers).0;
                incomplete = (torrent_stats ttk'.peers).1;
                republished = announce_targets pa tk.backup_trackers;
                failure_reason = none;
              }))
              none
      ]

  unfoldable pub announce_checked : ParseAnnounce → TrackerServer → Call AnnounceResponse
  unfolding announce_found
  announce_checked pa tk = elim (lookup pa.info_hash tk.torrents) [
    | none ↦ returns tk (some (failure unknown_torrent)) (some unknown_torrent)
    | some ttk ↦ announce_found pa ttk tk
  ]

  unfoldable pub announce : TrackerServer → AnnounceQuery → Call AnnounceResponse
  announce tk q = elim (announce_query_check net q) [
    | err e ↦ returns tk (some (failure e)) (some e)
    | panic ↦ crashed
    | ok pa ↦ with_lock tk (announce_checked pa tk)
  ]
