-- ===== src/Tracker/State.antt =====
-- tacker.go: the state of a tracker, and how a call on it can end.
use bit_torrent_project.Common.{ℕ, Bool, true, false, List, String, Option, none, some, ◌≡◌, refl}
use bit_torrent_project.Common.Dict.{Dict}

-- What tacker.go takes from package net. An IP is its bytes; an int32 port is its bit pattern.
pub record Net : Type 0 where
  pub parse_ip : String → Option (List ℕ)
  pub ip_string : List ℕ → String
  -- `net.JoinHostPort(host, fmt.Sprint(port))`.
  pub join_host_port : String → ℕ → String
  -- `(*net.TCPAddr).String`.
  pub addr_string : List ℕ → ℕ → String

pub record PeerTk : Type 0 where
  pub id : String
  pub ip : List ℕ
  pub port : ℕ
  pub state : String

abbrev pub PeersPool : Type 0
PeersPool = Dict String PeerTk

-- An info hash is the string of its twenty bytes.
pub record TorrentTk : Type 0 where
  pub hash : List ℕ
  pub downloaded : ℕ
  pub complete : ℕ
  pub peers : PeersPool

abbrev pub TorrentsPool : Type 0
TorrentsPool = Dict (List ℕ) TorrentTk

pub record BkTracker : Type 0 where
  pub ip : List ℕ
  pub port : ℕ

abbrev pub TrackersPool : Type 0
TrackersPool = Dict String BkTracker

-- `locked` tells that a call has returned with the mutex still held for writing.
pub record TrackerServer : Type 0 where
  pub tk_id : String
  pub interval : ℕ
  pub torrents : TorrentsPool
  pub red_key : List ℕ
  pub backup_trackers : TrackersPool
  pub locked : Bool

-- The errors of the handlers, by the check that makes them.
pub data TrackerError : Type 0 where
  invalid_info_hash blank_peer_id unreachable_ip unreachable_port unknown_event : TrackerError
  unknown_torrent empty_info_hash incorrect_red_key already_have_tracker : TrackerError

-- A call on the tracker waits for the mutex for ever, crashes the process, or returns the new
-- state with the response and the error.
pub data Call (R : Type 0) : Type 0 where
  blocked : Call R
  crashed : Call R
  returns : TrackerServer → Option R → Option TrackerError → Call R

-- `tk.Lock()` or `tk.RLock()`, and then the rest of the call.
abbrev pub with_lock : {R : Type 0} → TrackerServer → Call R → Call R
with_lock tk rest = elim tk.locked [ true ↦ blocked | false ↦ rest ]

-- A query that is refused before the mutex is asked for.
abbrev pub refused : {R : Type 0} → TrackerServer → TrackerError → Call R
refused tk e = returns tk none (some e)

-- Statuses.
abbrev pub ok_status : ℕ
ok_status = 1

abbrev pub already_exist_t : ℕ
already_exist_t = 2

abbrev pub already_exist_p : ℕ
already_exist_p = 3

abbrev pub unknown_red_key : ℕ
unknown_red_key = 5

abbrev pub failed_ip : ℕ
failed_ip = 6

abbrev pub failed_port : ℕ
failed_port = 7

abbrev pub failed : ℕ
failed = 8

abbrev pub interval_tk_tk_time : ℕ
interval_tk_tk_time = 600

-- server.go, `newTrackerServer`.
unfoldable pub new_tracker_server : List ℕ → TrackerServer
new_tracker_server key = record {
  tk_id = "";
  interval = 30;
  torrents = List.[];
  red_key = key;
  backup_trackers = List.[];
  locked = false;
}

gate :
    {R : Type 0} (b : Bool) (c : Call R) (tk : TrackerServer) (r : Option R)
    (e : Option TrackerError)
    → ◌≡◌ {A = Call R} (elim b [ true ↦ blocked | false ↦ c ]) (returns tk r e)
    → (c ≡ returns tk r e) × (b ≡ false)
gate true c tk r e h = cc
gate false c tk r e h = (h, refl)

-- A call that returns has had the mutex.
pub with_lock-returns :
    {R : Type 0} (tk : TrackerServer) (c : Call R) (tk' : TrackerServer) (r : Option R)
    (e : Option TrackerError)
    → with_lock tk c ≡ returns tk' r e
    → (c ≡ returns tk' r e) × (tk.locked ≡ false)
with_lock-returns tk c tk' r e = gate tk.locked c tk' r e

gate_open :
    {R : Type 0} (b : Bool) (c : Call R)
    → b ≡ false
    → ◌≡◌ {A = Call R} (elim b [ true ↦ blocked | false ↦ c ]) c
gate_open true c h = cc
gate_open false c h = refl

pub with_lock_free :
    {R : Type 0} (tk : TrackerServer) (c : Call R) → tk.locked ≡ false → with_lock tk c ≡ c
with_lock_free tk c h = gate_open tk.locked c h

gate_shut :
    {R : Type 0} (b : Bool) (c : Call R)
    → b ≡ true
    → ◌≡◌ {A = Call R} (elim b [ true ↦ blocked | false ↦ c ]) blocked
gate_shut true c h = refl
gate_shut false c h = cc

pub with_lock_held :
    {R : Type 0} (tk : TrackerServer) (c : Call R) → tk.locked ≡ true → with_lock tk c ≡ blocked
with_lock_held tk c h = gate_shut tk.locked c h
