-- ===== src/Tracker/Tests.antt =====
-- The tracker on concrete calls: runs, and the theorems at inputs that meet their hypotheses.
use bit_torrent_project.Common.{
  ℕ, ◌+◌, ◌≤◌, ◌≡◌, refl, true, false, not, ◌||◌, List, [], ◌∷◌, length, All, String, Option, none,
  some, ◌==◌, if◌then◌else◌, ok, codes, arith, bytes_eq_instance, string_eq, nat_eq,
}
use bit_torrent_project.Common.Dict.{lookup, has}
use bit_torrent_project.Tracker.State.{
  Net, PeerTk, PeersPool, TorrentTk, TrackerServer, TrackerError, Call, blocked, returns,
  new_tracker_server, already_exist_p, incorrect_red_key,
}
use bit_torrent_project.Tracker.Publish.{
  PublishQuery, PublishResponse, publish_torrent, check_publish, publish, publish_checked,
  re_publish, re_publish_checked, list_addr, re_publish_request_manager,
}
use bit_torrent_project.Tracker.Queries.{
  AnnounceQuery, AnnounceResponse, ParseAnnounce, announce_query_check, get_random_peers, max_peers,
}
use bit_torrent_project.Tracker.Announce.{announce, announce_checked}
use bit_torrent_project.Tracker.Scrape.{scrape}
use bit_torrent_project.Tracker.Backup.{KnowMeRequest, KnowMeResponse, know_me}
use bit_torrent_project.Tracker.Registry.{publish_torrent_twice}
use bit_torrent_project.Tracker.Sampling.{get_random_peers_bound, get_random_peers_one, is_seeder}
use bit_torrent_project.Tracker.Counters.{counters, announce_never_counts}
use bit_torrent_project.Tracker.Mutex.{re_publish_needs_key, wrong_key_blocks_tracker}

abbrev pub some_ip : List ℕ
some_ip = 10 ∷ 0 ∷ 0 ∷ 1 ∷ []

abbrev pub local_net : Net
local_net = record {
  parse_ip = λ s. if s == "" then none else some some_ip;
  ip_string = λ ip. "10.0.0.1";
  join_host_port = λ host port. host;
  addr_string = λ ip port. "10.0.0.1";
}

abbrev pub in_order : PeersPool → PeersPool
in_order pool = pool

abbrev pub some_hash : List ℕ
some_hash = codes "abcdefghijklmnopqrst"

abbrev pub fresh_tracker : TrackerServer
fresh_tracker = record {
  tk_id = "";
  interval = 30;
  torrents = [];
  red_key = 1 ∷ 2 ∷ [];
  backup_trackers = ("10.0.0.9", record { ip = some_ip; port = 80 }) ∷ [];
  locked = false;
}

abbrev pub a_publication : PublishQuery
a_publication = record {
  info_hash = some_hash;
  peer_id = "p1";
  ip = "10.0.0.1";
  port = 50051;
  red_key = [];
}

pub a_publication_passes : check_publish local_net a_publication ≡ ok some_ip
unfolding check_publish
a_publication_passes = refl

abbrev pub peer : String → String → String × PeerTk
peer id state = (id, record { id = id; ip = some_ip; port = 50051; state = state })

abbrev pool_of_three : PeersPool
pool_of_three = peer "p1" "seeder" ∷ peer "p2" "seeder" ∷ peer "p3" "started" ∷ []

abbrev pub one_torrent : TrackerServer
one_torrent = record fresh_tracker {
  torrents =
      (some_hash, record { hash = some_hash; downloaded = 0; complete = 1; peers = pool_of_three })
      ∷ [];
}

publish_torrent_twice_example :
    publish_torrent some_hash "p4" 7 some_ip
      (publish_torrent some_hash "p4" 6 some_ip one_torrent).0
    ≡ ((publish_torrent some_hash "p4" 6 some_ip one_torrent).0, already_exist_p)
publish_torrent_twice_example = publish_torrent_twice some_hash "p4" 6 7 some_ip some_ip one_torrent

get_random_peers_bound_example :
    length (get_random_peers local_net pool_of_three pool_of_three "p3" 2) + 1 ≤ 2
unfolding max_peers
get_random_peers_bound_example =
    get_random_peers_bound local_net pool_of_three pool_of_three "p3" 2 (omega arith) (omega arith)

get_random_peers_one_example :
    All
      (λ e.
        (not (is_seeder "p3" e)
          || has e.1.id (get_random_peers local_net pool_of_three pool_of_three "p3" 1))
        ≡ true)
      (peer "p1" "seeder" ∷ peer "p2" "seeder" ∷ peer "p3" "started" ∷ [])
get_random_peers_one_example =
    get_random_peers_one local_net "p1" (peer "p1" "seeder").1
      (peer "p2" "seeder" ∷ peer "p3" "started" ∷ []) pool_of_three "p3" refl

abbrev an_announce : String → AnnounceQuery
an_announce event = record {
  info_hash = some_hash;
  peer_id = "p3";
  ip = "10.0.0.1";
  port = 50051;
  uploaded = 0;
  downloaded = 0;
  left = 0;
  event = event;
  num_want = 2;
  request = true;
}

-- How a call ended, without the response.
abbrev state_after {ℓ} : {R : Type 0} {A : Type ℓ} → (TrackerServer → A) → A → Call R → A
state_after f d blocked = d
state_after f d Call.crashed = d
state_after f d (returns tk r e) = f tk

abbrev answer_of {ℓ} : {R : Type 0} {A : Type ℓ} → (Option R → A) → A → Call R → A
answer_of f d blocked = d
answer_of f d Call.crashed = d
answer_of f d (returns tk r e) = f r

abbrev error_of : {R : Type 0} → Call R → Option TrackerError
error_of blocked = none
error_of Call.crashed = none
error_of (returns tk r e) = e

abbrev completed : Call AnnounceResponse
completed = announce local_net in_order one_torrent (an_announce "completed")

completed_returns :
    completed
    ≡ returns
        (state_after (λ tk. tk) one_torrent completed)
        (answer_of (λ r. r) none completed)
        (error_of completed)
unfolding announce announce_query_check announce_checked get_random_peers
completed_returns = refl

announce_never_counts_example :
    counters (lookup some_hash (state_after (λ tk. tk) one_torrent completed).torrents)
    ≡ some (1, 0)
announce_never_counts_example =
    announce_never_counts local_net in_order one_torrent
      (state_after (λ tk. tk) one_torrent completed) (an_announce "completed")
      (answer_of (λ r. r) none completed) (error_of completed) completed_returns some_hash

-- A peer that stops without having started brings the tracker down.
stopped_crashes :
    announce local_net in_order one_torrent (record (an_announce "stopped") { peer_id = "p9" })
    ≡ Call.crashed
unfolding announce announce_query_check announce_checked get_random_peers
stopped_crashes = refl

abbrev wrong_key : PublishQuery
wrong_key = record a_publication { red_key = 9 ∷ [] }

wrong_key_refused :
    re_publish local_net fresh_tracker wrong_key
    ≡ returns fresh_tracker
        (some (record { status = 5; republished = [] }))
        (some incorrect_red_key)
unfolding re_publish check_publish re_publish_checked
wrong_key_refused = refl

re_publish_needs_key_example : fresh_tracker ≡ fresh_tracker
re_publish_needs_key_example =
    re_publish_needs_key local_net fresh_tracker fresh_tracker wrong_key
      (some (record { status = 5; republished = [] })) (some incorrect_red_key) (λ e. cc)
      wrong_key_refused

abbrev pub a_tracker : List ℕ → KnowMeRequest
a_tracker key = record { red_key = key; ip = "10.0.0.7"; port = 8168 }

abbrev an_announce_parsed : ParseAnnounce
an_announce_parsed = record {
  info_hash = some_hash;
  peer_id = "p3";
  ip = some_ip;
  port = 50051;
  uploaded = 0;
  downloaded = 0;
  left = 0;
  event = "started";
  num_want = 2;
  request = true;
}

an_announce_passes : announce_query_check local_net (an_announce "started") ≡ ok an_announce_parsed
unfolding announce_query_check
an_announce_passes = refl

wrong_key_blocks_tracker_example :
    (tk' : TrackerServer) × (r : KnowMeResponse) × (e : Option TrackerError) × (know_me local_net
        fresh_tracker
        (a_tracker (9 ∷ []))
      ≡ returns tk' (some r) e)
    × (publish local_net tk' a_publication ≡ blocked)
    × (announce local_net in_order tk' (an_announce "started") ≡ blocked)
    × (scrape tk' (some_hash ∷ []) ≡ blocked)
wrong_key_blocks_tracker_example =
    wrong_key_blocks_tracker local_net in_order fresh_tracker (a_tracker (9 ∷ [])) some_ip some_ip
      some_hash a_publication (an_announce "started") an_announce_parsed [] refl (omega arith) refl
      (λ e. cc) a_publication_passes an_announce_passes

abbrev pub first_call : Call PublishResponse
first_call = publish local_net (new_tracker_server (1 ∷ 2 ∷ [])) a_publication

abbrev pub seeded : TorrentTk
seeded = record { hash = some_hash; downloaded = 0; complete = 1; peers = peer "p1" "seeder" ∷ [] }

abbrev pub after_first : TrackerServer
after_first = record {
  tk_id = "";
  interval = 30;
  torrents = (some_hash, seeded) ∷ [];
  red_key = 1 ∷ 2 ∷ [];
  backup_trackers = [];
  locked = false;
}

pub first_call_returns :
    first_call ≡ returns after_first (some (record { status = 1; republished = [] })) none
unfolding publish check_publish publish_checked publish_torrent new_tracker_server list_addr
    re_publish_request_manager
first_call_returns = refl
