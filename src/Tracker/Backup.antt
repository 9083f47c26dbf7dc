-- ===== src/Tracker/Backup.antt =====
-- tacker.go: the backup trackers, and the KnowMe request between trackers.
use bit_torrent_project.Common.{
  ℕ, List, true, String, Option, none, some, ◌==◌, nat_eq, bytes_eq_instance, string_eq,
  if◌then◌else◌,
}
use bit_torrent_project.Common.Dict.{has, insert}
use bit_torrent_project.Tracker.State.{
  Net, TrackerServer, TrackerError, unreachable_ip, unreachable_port, incorrect_red_key,
  already_have_tracker, Call, returns, with_lock, ok_status, failed_ip, failed_port, failed,
  unknown_red_key, interval_tk_tk_time,
}

pub record KnowMeRequest : Type 0 where
  pub red_key : List ℕ
  pub ip : String
  pub port : ℕ

pub record KnowMeResponse : Type 0 where
  pub status : ℕ
  pub repeat_interval : ℕ

abbrev pub answer : ℕ → KnowMeResponse
answer status = record { status = status; repeat_interval = interval_tk_tk_time }

-- `AddBkTracker`: the new state and the error.
unfoldable pub add_bk_tracker :
    Net → List ℕ → ℕ → TrackerServer → TrackerServer × Option TrackerError
add_bk_tracker net ip port tk =
    let addr = net.join_host_port (net.ip_string ip) port in
    if has addr tk.backup_trackers then (tk, some already_have_tracker) else (
      record tk {
        backup_trackers = insert addr (record { ip = ip; port = port }) tk.backup_trackers;
      },
      none,
    )

-- What follows `tk.Lock()`. Only the last path reaches `tk.Unlock()`, which is not deferred: the
-- other two return with the mutex held.
unfoldable pub know_me_locked : Net → TrackerServer → KnowMeRequest → List ℕ → Call KnowMeResponse
know_me_locked net tk kr ip =
    if kr.red_key == tk.red_key
    then (let hotsport = net.join_host_port (net.ip_string ip) kr.port in
        if has hotsport tk.backup_trackers
        then returns (record tk { locked = true }) (some (answer failed)) none
        else returns
            (record tk {
              backup_trackers =
                  insert hotsport (record { ip = ip; port = kr.port }) tk.backup_trackers;
            })
            (some (answer ok_status)) none)
    else returns (record tk { locked = true }) (some (answer unknown_red_key))
        (some incorrect_red_key)

unfoldable pub know_me : Net → TrackerServer → KnowMeRequest → Call KnowMeResponse
unfolding know_me_locked
know_me net tk kr = elim (net.parse_ip kr.ip) [
  | none ↦ returns tk (some (answer failed_ip)) (some unreachable_ip)
  | some ip ↦
      if kr.port == 0
      then returns tk (some (answer failed_port)) (some unreachable_port)
      else with_lock tk (know_me_locked net tk kr ip)
]
