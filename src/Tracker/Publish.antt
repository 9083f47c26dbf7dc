-- ===== src/Tracker/Publish.antt =====
-- tacker.go: the Publish and RePublish requests.
use bit_torrent_project.Common.{
  ℕ, List, [], ◌∷◌, ◌++◌, replicate, length, not, String, none, some, ◌==◌, Outcome, ok, err, panic,
  ◌>>=◌, ◌>>◌, require, or_fail, nat_eq, bytes_eq_instance, string_eq, if◌then◌else◌,
}
use bit_torrent_project.Common.Dict.{lookup, has, insert}
use bit_torrent_project.Tracker.State.{
  Net, PeerTk, TrackerServer, TrackersPool, TrackerError, invalid_info_hash, blank_peer_id,
  unreachable_ip, unreachable_port, incorrect_red_key, Call, crashed, returns, with_lock, refused,
  ok_status, already_exist_t, already_exist_p, unknown_red_key,
}

-- PublishQuery and RePublishQuery; the former leaves `red_key` empty.
pub record PublishQuery : Type 0 where
  pub info_hash : List ℕ
  pub peer_id : String
  pub ip : String
  pub port : ℕ
  pub red_key : List ℕ

pub record PublishResponse : Type 0 where
  pub status : ℕ
  -- The trackers to which a RePublish request is made.
  pub republished : List String

abbrev pub seeder : String → ℕ → List ℕ → PeerTk
seeder peer_id port ip = record { id = peer_id; ip = ip; port = port; state = "seeder" }

unfoldable pub publish_torrent : List ℕ → String → ℕ → List ℕ → TrackerServer → TrackerServer × ℕ
publish_torrent info_hash peer_id port ip tk = elim (lookup info_hash tk.torrents) [
  | none ↦ (
    record tk {
      torrents =
          insert info_hash
            (record {
              hash = info_hash;
              downloaded = 0;
              complete = 1;
              peers = (peer_id, seeder peer_id port ip) ∷ [];
            })
            tk.torrents;
    },
    ok_status,
  )
  | some ttk ↦ if has peer_id ttk.peers then (tk, already_exist_p) else (
    record tk {
      torrents =
          insert info_hash
            (record ttk { peers = insert peer_id (seeder peer_id port ip) ttk.peers }) tk.torrents;
    },
    already_exist_t,
  )
]

-- The checks that Publish and RePublish make on their fields, in order; the parsed IP.
unfoldable pub check_publish : Net → PublishQuery → Outcome TrackerError (List ℕ)
check_publish net q = do
  require (length q.info_hash == 20) invalid_info_hash
  require (not (q.peer_id == "")) blank_peer_id
  ip ← or_fail (net.parse_ip q.ip) unreachable_ip
  require (not (q.port == 0)) unreachable_port
  ok ip

abbrev pub not_blank : List String → List String
not_blank [] = []
not_blank (a ∷ as') = if a == "" then not_blank as' else a ∷ not_blank as'

abbrev pub addresses : TrackersPool → List String
addresses [] = []
addresses ((a, bk) ∷ bks) = a ∷ addresses bks

-- `RePublishRequestManager` makes a request to each address that is not blank.
unfoldable pub re_publish_request_manager : List String → List String
re_publish_request_manager list_addr = not_blank list_addr

-- `make([]string, n)` leaves n blank addresses in front of those that are appended.
unfoldable pub list_addr : TrackersPool → List String
list_addr bks = replicate (length bks) "" ++ not_blank (addresses bks)

-- What follows the checks of Publish, under the mutex.
unfoldable pub publish_checked : PublishQuery → List ℕ → TrackerServer → Call PublishResponse
unfolding re_publish_request_manager list_addr
publish_checked q ip tk =
    let (tk', status) = publish_torrent q.info_hash q.peer_id q.port ip tk in
    returns tk'
      (some (record {
        status = status;
        republished =
            if status == ok_status
            then re_publish_request_manager (list_addr tk'.backup_trackers)
            else [];
      }))
      none

unfoldable pub publish : Net → TrackerServer → PublishQuery → Call PublishResponse
publish net tk q = elim (check_publish net q) [
  | err e ↦ refused tk e
  | panic ↦ crashed
  | ok ip ↦ with_lock tk (publish_checked q ip tk)
]

-- What follows the checks of RePublish, under the mutex.
unfoldable pub re_publish_checked : PublishQuery → List ℕ → TrackerServer → Call PublishResponse
re_publish_checked q ip tk =
    if q.red_key == tk.red_key
    then (let (tk', status) = publish_torrent q.info_hash q.peer_id q.port ip tk in
        returns tk' (some (record { status = status; republished = [] })) none)
    else returns tk (some (record { status = unknown_red_key; republished = [] }))
        (some incorrect_red_key)

unfoldable pub re_publish : Net → TrackerServer → PublishQuery → Call PublishResponse
re_publish net tk q = elim (check_publish net q) [
  | err e ↦ refused tk e
  | panic ↦ crashed
  | ok ip ↦ with_lock tk (re_publish_checked q ip tk)
]
