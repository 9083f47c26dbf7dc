-- ===== src/Tracker/Client.antt =====
-- Client/client/tracker_communication: what a client asks of a tracker and makes of the answers.
-- The connection itself is there.
use bit_torrent_project.Common.{ℕ, List, [], ◌∷◌, true, String, none, some}
use bit_torrent_project.Common.Dict.{Dict}
use bit_torrent_project.Tracker.State.{TrackerError, Call, blocked, crashed, returns}
use bit_torrent_project.Tracker.Publish.{PublishQuery, PublishResponse}
use bit_torrent_project.Tracker.Queries.{AnnounceQuery, AnnounceResponse}
use bit_torrent_project.Tracker.Scrape.{ScraperResponse}

-- `PORT`, read by `strconv.Atoi`.
abbrev pub client_port : ℕ
client_port = 50051

-- How a request of a client ends: it waits for ever, since its context has no deadline, it ends the
-- process by `log.Fatalf`, it returns an error, or a value.
pub data ClientEnd (A : Type 0) : Type 0 where
  waits : ClientEnd A
  exits : ClientEnd A
  fails : TrackerError → ClientEnd A
  gives : A → ClientEnd A

-- The request that `PublishTorrent` makes.
unfoldable pub publish_query : List ℕ → String → String → PublishQuery
publish_query info_hash peer_id ip = record {
  info_hash = info_hash;
  peer_id = peer_id;
  ip = ip;
  port = client_port;
  red_key = [];
}

-- What an RPC gives: an error of the handler, or the loss of the server, is an error of the call,
-- and the client exits on it. Without an error a handler gives a response.
unfoldable pub answered : {A : Type 0} → Call A → ClientEnd A
answered blocked = waits
answered crashed = exits
answered (returns tk r (some e)) = exits
answered (returns tk none none) = exits
answered (returns tk (some res) none) = gives res

-- `PublishTorrent` after its request.
unfoldable pub publish_response : Call PublishResponse → ClientEnd PublishResponse
unfolding answered
publish_response call = answered call

-- The request of `Announce`.
unfoldable pub announce_query : List ℕ → String → String → AnnounceQuery
announce_query info_hash ip peer_id = record {
  info_hash = info_hash;
  peer_id = peer_id;
  ip = ip;
  port = client_port;
  uploaded = 0;
  downloaded = 0;
  left = 0;
  event = "request";
  num_want = 0;
  request = true;
}

-- `Announce` after its request.
unfoldable pub announce_response : Call AnnounceResponse → ClientEnd AnnounceResponse
unfolding answered
announce_response call = elim (answered call) [
  | waits ↦ waits
  | exits ↦ exits
  | fails e ↦ fails e
  | gives res ↦ elim res.failure_reason [ none ↦ gives res | some e ↦ fails e ]
]

-- `RequestPeers` after its request.
unfoldable pub request_peers : Call AnnounceResponse → ClientEnd (Dict String String)
unfolding announce_response
request_peers call = elim (announce_response call) [
  | waits ↦ waits
  | exits ↦ exits
  | fails e ↦ fails e
  | gives res ↦ gives res.peers
]

-- The request of `Scrape`, and what follows it.
unfoldable pub scraper_query : List ℕ → List (List ℕ)
scraper_query info_hash = info_hash ∷ []

unfoldable pub scraper_response : Call ScraperResponse → ClientEnd ScraperResponse
unfolding answered
scraper_response call = answered call
