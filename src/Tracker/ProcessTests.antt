-- ===== src/Tracker/ProcessTests.antt =====
-- Runs of the tracker's process and of its clients on concrete calls.
use bit_torrent_project.Common.{
  ℕ, ◌≡◌, refl, List, [], ◌∷◌, true, false, String, none, some, ok, bytes_eq_instance, string_eq,
}
use bit_torrent_project.Common.Dict.{lookup}
use bit_torrent_project.Tracker.State.{
  TrackerServer, BkTracker, returns, ok_status, new_tracker_server,
}
use bit_torrent_project.Tracker.Publish.{PublishResponse, publish}
use bit_torrent_project.Tracker.Announce.{announce}
use bit_torrent_project.Tracker.Backup.{know_me, answer}
use bit_torrent_project.Tracker.Soundness.{IsSound}
use bit_torrent_project.Tracker.Invariant.{published}
use bit_torrent_project.Tracker.Process.{
  unreadable, malformed, decoded, whole, cut_short, save, read_back, read_back_torrent,
  read_back_torrents, start_server, known_back, put_bk_tracker, split_colons,
}
use bit_torrent_project.Tracker.Restart.{
  Process, History, here, next, called, saved, restarted, History-IsSound,
}
use bit_torrent_project.Tracker.Greeted.{know_me-put_bk_tracker}
use bit_torrent_project.Tracker.Client.{
  client_port, gives, publish_query, announce_query, request_peers,
}
use bit_torrent_project.Tracker.Meeting.{publish-request_peers}
use bit_torrent_project.Tracker.Network.{re_publish_query, re_publish_all}
use bit_torrent_project.Tracker.Spread.{IsReady, named, publish-re_publish_all}
use bit_torrent_project.Tracker.Tests.{
  some_ip, local_net, in_order, some_hash, fresh_tracker, a_publication, seeded, after_first,
  first_call_returns,
}

abbrev host_port : String → ℕ → String
host_port host port = host

abbrev atoi : String → ℕ
atoi s = 80

abbrev key : List ℕ
key = 1 ∷ 2 ∷ []

abbrev first_process : Process
first_process = record {
  server = new_tracker_server key;
  torrents_file = unreadable;
  trackers_file = unreadable;
}

-- A torrent is published and saved, and the process is started again with the saved copies.
abbrev second_process : Process
second_process = record {
  server = start_server true (decoded after_first.torrents) malformed key;
  torrents_file = decoded after_first.torrents;
  trackers_file = malformed;
}

a-History :
    History local_net host_port atoi in_order key (λ h. h) (λ s. s) first_process second_process
unfolding save new_tracker_server read_back read_back_torrent read_back_torrents
a-History =
    next
      (next
        (next here (
          called (
            published a_publication (some (record { status = 1; republished = [] })) none
              first_call_returns)))
        (saved whole cut_short refl))
      (restarted true)

History-IsSound_example : IsSound some_hash seeded
unfolding start_server
History-IsSound_example =
    History-IsSound local_net host_port atoi in_order key (λ h. h) (λ s. s) unreadable
      second_process a-History some_hash seeded refl

know_me-put_bk_tracker_example :
    (a' b' : TrackerServer) × (bk : BkTracker) × (know_me local_net after_first
        (record { red_key = key; ip = "1"; port = 8168 })
      ≡ returns b' (some (answer ok_status)) none)
    × (b'.locked ≡ false)
    × (lookup "10.0.0.1" b'.backup_trackers ≡ some (record { ip = some_ip; port = 8168 }))
    × (known_back local_net host_port atoi "h:80" (some (answer ok_status)) ≡ ok (some bk))
    × (bk ≡ record { ip = some_ip; port = atoi "80" })
    × (put_bk_tracker local_net host_port atoi bk fresh_tracker ≡ returns a' (some tt) none)
    × (lookup (host_port (local_net.ip_string bk.ip) bk.port) a'.backup_trackers ≡ some bk)
unfolding split_colons
know_me-put_bk_tracker_example =
    know_me-put_bk_tracker local_net host_port atoi fresh_tracker after_first "h:80" "1" "h" "80"
      8168 some_ip some_ip [] refl refl refl refl refl refl refl refl

publish-request_peers_example :
    (tk' : TrackerServer) × (r : PublishResponse) × (publish local_net fresh_tracker
        (publish_query some_hash "p1" "1")
      ≡ returns tk' (some r) none)
    × (r.status ≡ ok_status)
    × (request_peers (announce local_net in_order tk' (announce_query some_hash "2" "p2"))
        ≡ gives (("p1", "10.0.0.1") ∷ []))
publish-request_peers_example =
    publish-request_peers local_net in_order fresh_tracker some_hash some_ip some_ip "p1" "p2" "1"
      "2" refl refl refl refl refl refl refl refl refl

abbrev backup : TrackerServer
backup = record fresh_tracker { backup_trackers = [] }

backup-IsReady : IsReady local_net key some_hash some_ip some_ip "p1" backup
backup-IsReady = record { unlocked = refl; keyed = refl; new = refl }

publish-re_publish_all_example :
    (a' tk' : TrackerServer) × (r : PublishResponse) × (publish local_net fresh_tracker
        (publish_query some_hash "p1" "1")
      ≡ returns a' (some r) none)
    × (named "10.0.0.9" r.republished ≡ true)
    × (lookup "10.0.0.9" (
          re_publish_all local_net
            (re_publish_query local_net a'.red_key some_hash "p1" some_ip client_port)
            ("10.0.0.8" ∷ "10.0.0.9" ∷ [])
            (("10.0.0.9", backup) ∷ []))
        ≡ some tk')
    × (request_peers (announce local_net in_order tk' (announce_query some_hash "2" "p2"))
        ≡ gives (("p1", "10.0.0.1") ∷ []))
publish-re_publish_all_example =
    publish-re_publish_all local_net in_order fresh_tracker backup (("10.0.0.9", backup) ∷ [])
      some_hash some_ip some_ip some_ip "10.0.0.9" "p1" "p2" "1" "2" ("10.0.0.8" ∷ "10.0.0.9" ∷ [])
      refl refl refl refl refl refl refl refl refl refl refl refl backup-IsReady refl refl
