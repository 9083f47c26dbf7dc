-- ===== src/Tracker/Network.antt =====
-- tacker.go: the trackers of a network, and the RePublish requests between them.
use bit_torrent_project.Common.{ℕ, List, [], ◌∷◌, String, none, some, string_eq}
use bit_torrent_project.Common.Dict.{Dict, lookup, insert}
use bit_torrent_project.Tracker.State.{Net, TrackerServer, Call, blocked, crashed, returns}
use bit_torrent_project.Tracker.Publish.{PublishQuery, re_publish}

-- The request of `makeRePublishRequest`.
unfoldable pub re_publish_query : Net → List ℕ → List ℕ → String → List ℕ → ℕ → PublishQuery
re_publish_query net key info_hash peer_id ip port = record {
  info_hash = info_hash;
  peer_id = peer_id;
  ip = net.ip_string ip;
  port = port;
  red_key = key;
}

-- The tracker after a call. One that waits for its mutex stays as it is.
abbrev pub after_call : {R : Type 0} → TrackerServer → Call R → TrackerServer
after_call tk blocked = tk
after_call tk crashed = tk
after_call tk (returns tk' r e) = tk'

-- The goroutines of `RePublishRequestManager` on the trackers of a network by their addresses, in
-- the order in which their requests arrive. An address without a tracker is an error that is logged.
unfoldable pub re_publish_all :
    Net → PublishQuery → List String → Dict String TrackerServer → Dict String TrackerServer
re_publish_all net q [] network = network
re_publish_all net q (addr ∷ addrs) network = elim (lookup addr network) [
  | none ↦ re_publish_all net q addrs network
  | some tk ↦ re_publish_all net q addrs (insert addr (after_call tk (re_publish net tk q)) network)
]
