-- ===== src/Tracker/Process.antt =====
-- tracker/server/server.go: how the process of a tracker starts, saves its state and makes itself
-- known to other trackers. Functions of a section over what it takes of the packages fmt and
-- strconv: `host_port` is `fmt.Sprintf("%s:%s", …)` on a host and the text of a port, `atoi` is
-- `strconv.Atoi` without its error.
use Prim.Native.Char.{Char, code}
use bit_torrent_project.Common.{
  ℕ, List, [], ◌∷◌, Bool, true, false, ◌||◌, ◌&&◌, String, Option, none, some, get_elem?, ◌==◌, Eq,
  nat_eq, string_eq, bytes_eq, bytes_eq_instance, if◌then◌else◌, ok, ◌>>=◌, or_panic, Outcome,
}
use bit_torrent_project.Common.Dict.{Dict, has, insert}
use bit_torrent_project.Tracker.State.{
  Net, TorrentTk, TorrentsPool, BkTracker, TrackersPool, TrackerServer, Call, returns, with_lock,
  new_tracker_server, ok_status,
}
use bit_torrent_project.Tracker.Backup.{KnowMeRequest, KnowMeResponse}

abbrev pub already_know_ok : ℕ
already_know_ok = 4

-- What the process finds in a file: nothing to read, a text that is not the JSON of such a value,
-- or the value.
pub data Loaded (P : Type 0) : Type 0 where
  unreadable : Loaded P
  malformed : Loaded P
  decoded : P → Loaded P

-- `loadBkTrackers`: the pool, and whether it is given without an error.
unfoldable pub load_bk_trackers : Loaded TrackersPool → TrackersPool × Bool
load_bk_trackers unreadable = ([], false)
load_bk_trackers malformed = ([], false)
load_bk_trackers (decoded []) = ([], true)
load_bk_trackers (decoded (bk ∷ bks)) = (bk ∷ bks, true)

unfoldable pub new_tracker_server_from_load : Loaded TorrentsPool → List ℕ → TrackerServer
unfolding new_tracker_server
new_tracker_server_from_load unreadable key = new_tracker_server key
new_tracker_server_from_load malformed key = new_tracker_server key
new_tracker_server_from_load (decoded []) key = new_tracker_server key
new_tracker_server_from_load (decoded (t ∷ ts)) key = record {
  tk_id = "";
  interval = 30;
  torrents = t ∷ ts;
  red_key = key;
  backup_trackers = [];
  locked = false;
}

-- The server that `main` makes, by the flag `load`.
unfoldable pub start_server :
    Bool → Loaded TorrentsPool → Loaded TrackersPool → List ℕ → TrackerServer
unfolding new_tracker_server new_tracker_server_from_load load_bk_trackers
start_server false torrents bks key = new_tracker_server key
start_server true torrents bks key = record (new_tracker_server_from_load torrents key) {
  backup_trackers = (load_bk_trackers bks).0;
}

-- How the writing of a file ends: the encoding or the opening fails, the writing fails once
-- `ioutil.WriteFile` has emptied the file, or all is written.
pub data Written : Type 0 where
  untouched : Written
  cut_short : Written
  whole : Written

-- `saveTorrents` and `saveBkTk`: the file after it, on what is read back from the encoded pool. A text
-- that is cut short is no JSON.
unfoldable pub save : {P : Type 0} → Written → P → Loaded P → Loaded P
save untouched pool file = file
save cut_short pool file = malformed
save whole pool file = decoded pool

-- A map that is encoded and read back, by what becomes of its keys and values. Where two keys become
-- one, one value is left, here that of the key that comes first.
unfoldable pub read_back {ℓ κ} :
    {K : Type ℓ} {V : Type κ} ⦃e : Eq K⦄ → (K → K) → (V → V) → Dict K V → Dict K V
read_back text value [] = []
read_back text value ((k, v) ∷ m) = insert (text k) (value v) (read_back text value m)

-- What encoding/json makes of the bytes of a hash and of a peer's id: it replaces what is no UTF-8.
module _ (text : List ℕ → List ℕ) (name : String → String) where
  unfoldable pub read_back_torrent : TorrentTk → TorrentTk
  unfolding read_back
  read_back_torrent t = record t {
    hash = text t.hash;
    peers = read_back name (λ p. record p { id = name p.id }) t.peers;
  }

  -- The torrents that are read back from the file of `saveTorrents`. The names of the states and the
  -- texts of the addresses are kept.
  unfoldable pub read_back_torrents : TorrentsPool → TorrentsPool
  unfolding read_back read_back_torrent
  read_back_torrents = read_back text read_back_torrent

-- `strings.Split(addr, ":")`.
abbrev pub put : Char → List String → List String
put c [] = String.◌∷◌ c "" ∷ []
put c (p ∷ ps) = String.◌∷◌ c p ∷ ps

unfoldable pub split_colons : String → List String
split_colons String.[] = "" ∷ []
split_colons (String.◌∷◌ c s) =
    let rest = split_colons s in if code c == 58 then "" ∷ rest else put c rest

module _ (net : Net) (host_port : String → ℕ → String) (atoi : String → ℕ) where
  -- The loop of `getNewBkTrackersAddrs`.
  unfoldable pub new_addrs : TrackersPool → TrackersPool × Bool → List String
  new_addrs [] known = []
  new_addrs ((name, t) ∷ ts) known =
      let rest = new_addrs ts known in
      let addr = host_port (net.ip_string t.ip) t.port in
      if bytes_eq t.ip [] || t.port == 0
      then rest
      else if known.1 && has addr known.0
      then rest
      else addr ∷ rest

  -- `getNewBkTrackersAddrs`: the addresses, or nothing where the source cannot be read.
  unfoldable pub get_new_bk_trackers_addrs :
      Loaded TrackersPool → Loaded TrackersPool → Option (List String)
  unfolding new_addrs load_bk_trackers
  get_new_bk_trackers_addrs unreadable bks = none
  get_new_bk_trackers_addrs malformed bks = none
  get_new_bk_trackers_addrs (decoded pool) bks = some (new_addrs pool (load_bk_trackers bks))

  -- `trackerTrackerCommunication`: the requests, by address.
  unfoldable pub tracker_tracker_communication :
      List String → List ℕ → String → ℕ → List (String × KnowMeRequest)
  tracker_tracker_communication [] key my_ip my_port = []
  tracker_tracker_communication (addr ∷ queue) key my_ip my_port =
      (addr, record { red_key = key; ip = my_ip; port = my_port })
      ∷ tracker_tracker_communication queue key my_ip my_port

  -- `makeKnowMeConnection` after its call: what it sends to the channel, if anything. A call that
  -- fails gives `none`. An IP that cannot be parsed is nil.
  unfoldable pub known_back : String → Option KnowMeResponse → Outcome ⊥ (Option BkTracker)
  unfolding split_colons
  known_back addr none = ok none
  known_back addr (some res) =
      if res.status == ok_status || res.status == already_know_ok
      then (do
        host ← or_panic (get_elem? (split_colons addr) 0)
        port ← or_panic (get_elem? (split_colons addr) 1)
        ok (
            some (record {
              ip = (elim (net.parse_ip host) [ none ↦ [] | some ip ↦ ip ]);
              port = atoi port;
            })))
      else ok none

  -- `putBkTrackersIntoServer`, for one tracker from the channel.
  unfoldable pub put_bk_tracker : BkTracker → TrackerServer → Call (Unit {0})
  put_bk_tracker bk ts = with_lock ts (
      returns
        (record ts {
          backup_trackers = insert (host_port (net.ip_string bk.ip) bk.port) bk ts.backup_trackers;
        })
        (some tt) none)
