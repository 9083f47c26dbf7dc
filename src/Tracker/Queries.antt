-- ===== src/Tracker/Queries.antt =====
-- tacker.go: the fields and the checks of an Announce request, and what it reads of a pool of peers.
use bit_torrent_project.Common.{
  ℕ, ◌+◌, ◌-◌, List, [], ◌∷◌, length, Bool, not, ◌||◌, String, Option, ◌==◌, Outcome, ok, ◌>>=◌,
  ◌>>◌, require, or_fail, nat_eq, bytes_eq_instance, string_eq, if◌then◌else◌, ltb,
}
use bit_torrent_project.Common.Dict.{Dict, lookup, has, insert}
use bit_torrent_project.Tracker.State.{
  Net, PeerTk, PeersPool, TrackerError, invalid_info_hash, blank_peer_id, unreachable_ip,
  unreachable_port, unknown_event,
}

pub record AnnounceQuery : Type 0 where
  pub info_hash : List ℕ
  pub peer_id : String
  pub ip : String
  pub port : ℕ
  pub uploaded : ℕ
  pub downloaded : ℕ
  pub left : ℕ
  pub event : String
  pub num_want : ℕ
  pub request : Bool

pub record ParseAnnounce : Type 0 where
  pub info_hash : List ℕ
  pub peer_id : String
  pub ip : List ℕ
  pub port : ℕ
  pub uploaded : ℕ
  pub downloaded : ℕ
  pub left : ℕ
  pub event : String
  pub num_want : ℕ
  pub request : Bool

-- The map of the response is from peer ids to addresses.
pub record AnnounceResponse : Type 0 where
  pub peers : Dict String String
  pub interval : ℕ
  pub complete : ℕ
  pub incomplete : ℕ
  pub republished : List String
  pub failure_reason : Option TrackerError

abbrev pub known_event : String → Bool
known_event e = e == "request" || (e == "started" || (e == "completed" || e == "stopped"))

unfoldable pub announce_query_check : Net → AnnounceQuery → Outcome TrackerError ParseAnnounce
announce_query_check net q = do
  require (length q.info_hash == 20) invalid_info_hash
  require (not (q.peer_id == "")) blank_peer_id
  ip ← or_fail (net.parse_ip q.ip) unreachable_ip
  require (not (q.port == 0)) unreachable_port
  let num_want = if ltb q.num_want 1 then 40 else q.num_want
  require (known_event q.event) unknown_event
  ok (record {
    info_hash = q.info_hash;
    peer_id = q.peer_id;
    ip = ip;
    port = q.port;
    uploaded = q.uploaded;
    downloaded = q.downloaded;
    left = q.left;
    event = q.event;
    num_want = num_want;
    request = q.request;
  })

-- `torrentStats`: the complete and the incomplete peers.
abbrev pub count_state : String → ℕ × ℕ → ℕ × ℕ
count_state state (complete, incomplete) =
    if state == "stopped"
    then (complete, incomplete)
    else if state == "started"
    then (complete, incomplete + 1)
    else (complete + 1, incomplete)

abbrev pub torrent_stats_loop : PeersPool → ℕ × ℕ → ℕ × ℕ
torrent_stats_loop [] acc = acc
torrent_stats_loop ((id, p) ∷ pool) acc = torrent_stats_loop pool (count_state p.state acc)

unfoldable pub torrent_stats : PeersPool → ℕ × ℕ
torrent_stats pool = torrent_stats_loop pool (0, 0)

unfoldable pub get_peer : PeersPool → String → Option PeerTk
get_peer pool id = lookup id pool

-- The result so far of `getRandomPeers`: `count` and `peers`.
abbrev pub Sample : Type 0
Sample = ℕ × Dict String String

-- `count == numwant-1`, in Go's signed integers.
abbrev pub is_enough : ℕ → Sample → Bool
is_enough num_want acc = acc.0 + 1 == num_want

-- `maxPeers`, and the limit that it puts on `numwant`.
unfoldable pub max_peers : PeersPool → String → ℕ
max_peers pool exclude = if has exclude pool then length pool - 1 else length pool

unfoldable pub clip : ℕ → ℕ → ℕ
clip num_want most = if ltb most num_want then most else num_want

module _ (net : Net) where
  abbrev pub take_peer : PeerTk → Sample → Sample
  take_peer p (count, peers) = (count + 1, insert p.id (net.addr_string p.ip p.port) peers)

  -- One entry in the first loop, which takes the peers that are neither stopped nor started.
  abbrev pub sample_seeder : String → String → PeerTk → Sample → Sample
  sample_seeder exclude k p acc =
      if k == exclude
      then acc
      else if p.state == "stopped"
      then acc
      else if p.state == "started"
      then acc
      else take_peer p acc

  -- One entry in the second loop, which takes the peers that are started.
  abbrev pub sample_starter : String → String → PeerTk → Sample → Sample
  sample_starter exclude k p acc =
      if k == exclude then acc else if p.state == "started" then take_peer p acc else acc

  unfoldable pub first_loop : String → ℕ → PeersPool → Sample → Sample
  first_loop exclude num_want [] acc = acc
  first_loop exclude num_want ((k, p) ∷ pool) acc =
      let acc' = sample_seeder exclude k p acc in
      let rest = first_loop exclude num_want pool acc' in
      if is_enough num_want acc' then acc' else rest

  unfoldable pub second_loop : String → ℕ → PeersPool → Sample → Sample
  second_loop exclude num_want [] acc = acc
  second_loop exclude num_want ((k, p) ∷ pool) acc =
      let rest = second_loop exclude num_want pool (sample_starter exclude k p acc) in
      if is_enough num_want acc then acc else rest

  -- The two loops range over one map, each in an order of its own.
  unfoldable pub get_random_peers : PeersPool → PeersPool → String → ℕ → Dict String String
  unfolding max_peers clip first_loop second_loop
  get_random_peers pool again exclude num_want =
      let n = clip num_want (max_peers pool exclude) in
      (second_loop exclude n again (first_loop exclude n pool (0, []))).1
