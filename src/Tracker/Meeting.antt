-- ===== src/Tracker/Meeting.antt =====
-- tracker_communication and tacker.go: two clients find each other by a tracker.
use bit_torrent_project.Common.{
  ℕ, ◌≡◌, refl, ◌∙◌, List, [], ◌∷◌, true, false, String, none, some, length, ◌==◌, nat_eq,
  bytes_eq_instance, string_eq, ok,
}
use bit_torrent_project.Common.Dict.{lookup, insert, lookup-insert_self}
use bit_torrent_project.Tracker.State.{
  Net, PeersPool, TorrentTk, TrackerServer, returns, with_lock_free, ok_status,
}
use bit_torrent_project.Tracker.Publish.{
  PublishResponse, re_publish_request_manager, list_addr, seeder, check_publish, publish_torrent,
  publish, publish_checked,
}
use bit_torrent_project.Tracker.Queries.{
  ParseAnnounce, announce_query_check, get_random_peers, max_peers, clip, first_loop, second_loop,
}
use bit_torrent_project.Tracker.Announce.{announce, announce_checked, announce_found, apply_event}
use bit_torrent_project.Tracker.Client.{
  client_port, gives, publish_query, announce_query, answered, announce_response, request_peers,
}

-- The queries of a client pass the checks of the tracker.
check_publish-publish_query :
    (net : Net) (info_hash ip : List ℕ) (peer_id ip_text : String)
    → length info_hash ≡ 20
    → (peer_id == "") ≡ false
    → net.parse_ip ip_text ≡ some ip
    → check_publish net (publish_query info_hash peer_id ip_text) ≡ ok ip
unfolding check_publish publish_query
check_publish-publish_query net info_hash ip peer_id ip_text h named p = rw (h, named, p) refl

abbrev pub asked : List ℕ → String → List ℕ → ParseAnnounce
asked info_hash peer_id ip = record {
  info_hash = info_hash;
  peer_id = peer_id;
  ip = ip;
  port = client_port;
  uploaded = 0;
  downloaded = 0;
  left = 0;
  event = "request";
  num_want = 40;
  request = true;
}

check-announce_query :
    (net : Net) (info_hash ip : List ℕ) (peer_id ip_text : String)
    → length info_hash ≡ 20
    → (peer_id == "") ≡ false
    → net.parse_ip ip_text ≡ some ip
    → announce_query_check net (announce_query info_hash ip_text peer_id)
      ≡ ok (asked info_hash peer_id ip)
unfolding announce_query_check announce_query
check-announce_query net info_hash ip peer_id ip_text h named p = rw (h, named, p) refl

-- A pool with one seeder is given to any other peer in full.
get_random_peers-single :
    (net : Net) (other id : String) (port : ℕ) (ip : List ℕ)
    → (id == other) ≡ false
    → get_random_peers net ((id, seeder id port ip) ∷ []) ((id, seeder id port ip) ∷ []) other 40
      ≡ (id, net.addr_string ip port) ∷ []
unfolding get_random_peers max_peers clip first_loop second_loop
get_random_peers-single net other id port ip h =
    rw (h, get_random_peers, max_peers, clip, first_loop, second_loop) refl

-- What a tracker holds of a torrent that one client published.
abbrev pub single : List ℕ → String → List ℕ → TorrentTk
single info_hash id ip = record {
  hash = info_hash;
  downloaded = 0;
  complete = 1;
  peers = (id, seeder id client_port ip) ∷ [];
}

abbrev pub with_single : List ℕ → String → List ℕ → TrackerServer → TrackerServer
with_single info_hash id ip tk = record tk {
  torrents = insert info_hash (single info_hash id ip) tk.torrents;
}

abbrev pub accepted : TrackerServer → PublishResponse
accepted tk = record {
  status = ok_status;
  republished = re_publish_request_manager (list_addr tk.backup_trackers);
}

pub publish-new :
    (net : Net) (tk : TrackerServer) (info_hash ip : List ℕ) (id text : String)
    → tk.locked ≡ false
    → length info_hash ≡ 20
    → (id == "") ≡ false
    → net.parse_ip text ≡ some ip
    → lookup info_hash tk.torrents ≡ none
    → publish net tk (publish_query info_hash id text)
      ≡ returns (with_single info_hash id ip tk) (some (accepted tk)) none
unfolding publish publish_checked publish_torrent publish_query
publish-new net tk info_hash ip id text l h n p new =
    rw (check_publish-publish_query net info_hash ip id text h n p, publish)
      (with_lock_free tk _ l ∙ rw (new, publish_checked, publish_torrent) refl)

module _ (net : Net) (again : PeersPool → PeersPool) where
  pub request_peers-single :
      (tk : TrackerServer) (info_hash ip1 ip2 : List ℕ) (id1 id2 text2 : String)
      → tk.locked ≡ false
      → length info_hash ≡ 20
      → (id2 == "") ≡ false
      → (id1 == id2) ≡ false
      → net.parse_ip text2 ≡ some ip2
      → lookup info_hash tk.torrents ≡ some (single info_hash id1 ip1)
      → again (single info_hash id1 ip1).peers ≡ (single info_hash id1 ip1).peers
      → request_peers (announce net again tk (announce_query info_hash text2 id2))
        ≡ gives ((id1, net.addr_string ip1 client_port) ∷ [])
  unfolding announce announce_checked announce_found apply_event request_peers announce_response
      answered announce_query
  request_peers-single tk info_hash ip1 ip2 id1 id2 text2 l h n other p stored order =
      let c = check-announce_query net info_hash ip2 id2 text2 h n p in
      let pa = asked info_hash id2 ip2 in
      let free = with_lock_free tk (announce_checked net again pa tk) l in
      let one = get_random_peers-single net id2 id1 client_port ip1 other in
      rw (c, announce, free, stored, announce_checked, order, one) refl

  -- A torrent with an info hash of twenty bytes that an unlocked tracker does not know: after
  -- `PublishTorrent` by a client with a name and an IP that can be parsed, which is answered with
  -- OK, `RequestPeers` by a client with another name gives exactly the publisher's address with the
  -- port 50051, if the second loop over a pool of one peer meets this peer.
  pub publish-request_peers :
      (tk : TrackerServer) (info_hash ip1 ip2 : List ℕ) (id1 id2 text1 text2 : String)
      → tk.locked ≡ false
      → length info_hash ≡ 20
      → (id1 == "") ≡ false
      → (id2 == "") ≡ false
      → (id1 == id2) ≡ false
      → net.parse_ip text1 ≡ some ip1
      → net.parse_ip text2 ≡ some ip2
      → lookup info_hash tk.torrents ≡ none
      → again ((id1, seeder id1 client_port ip1) ∷ []) ≡ (id1, seeder id1 client_port ip1) ∷ []
      → (tk' : TrackerServer) × (r : PublishResponse) × (publish net tk
            (publish_query info_hash id1 text1)
          ≡ returns tk' (some r) none)
        × (r.status ≡ ok_status)
        × (request_peers (announce net again tk' (announce_query info_hash text2 id2))
            ≡ gives ((id1, net.addr_string ip1 client_port) ∷ []))
  publish-request_peers tk info_hash ip1 ip2 id1 id2 text1 text2 l h n1 n2 other p1 p2 new order =
      let tk' = with_single info_hash id1 ip1 tk in
      let stored : lookup info_hash tk'.torrents ≡ some (single info_hash id1 ip1) =
        lookup-insert_self info_hash (single info_hash id1 ip1) tk.torrents in
      (
        tk',
        accepted tk,
        publish-new net tk info_hash ip1 id1 text1 l h n1 p1 new,
        refl,
        request_peers-single tk' info_hash ip1 ip2 id1 id2 text2 l h n2 other p2 stored order,
      )
