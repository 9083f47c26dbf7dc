-- ===== src/Tracker/Greeted.antt =====
-- server.go and tacker.go: one tracker makes itself known to another.
use bit_torrent_project.Common.{
  ℕ, List, ◌∷◌, true, false, String, none, some, ◌≡◌, refl, ◌∙◌, ◌==◌, nat_eq, string_eq,
  bytes_eq_instance, bytes_eq_iff, ok,
}
use bit_torrent_project.Common.Dict.{lookup, has, insert, lookup-insert_self}
use bit_torrent_project.Tracker.State.{
  Net, BkTracker, TrackerServer, returns, with_lock_free, ok_status,
}
use bit_torrent_project.Tracker.Backup.{answer, know_me, know_me_locked}
use bit_torrent_project.Tracker.Process.{known_back, split_colons, put_bk_tracker}

module _ (net : Net) (host_port : String → ℕ → String) (atoi : String → ℕ) where
  -- Two unlocked trackers with one key, and the address that `a` has of `b` is an IP that can be
  -- parsed and a port with a colon between them: if the IP of `a` can be parsed, its port is not 0, and `b` does not
  -- know it yet, then the KnowMe request of `a` is answered with OK, `b` knows `a` afterwards under
  -- its host and port and is unlocked again, and `a` takes exactly the IP and the port of the
  -- address that it dialled, and knows `b` afterwards under them.
  pub know_me-put_bk_tracker :
      (a b : TrackerServer) (addr my_ip host port : String) (my_port : ℕ) (ip their_ip : List ℕ)
      (more : List String)
      → a.locked ≡ false
      → b.locked ≡ false
      → a.red_key ≡ b.red_key
      → net.parse_ip my_ip ≡ some ip
      → (my_port == 0) ≡ false
      → has (net.join_host_port (net.ip_string ip) my_port) b.backup_trackers ≡ false
      → split_colons addr ≡ host ∷ port ∷ more
      → net.parse_ip host ≡ some their_ip
      → (a' b' : TrackerServer) × (bk : BkTracker) × (know_me net b
            (record { red_key = a.red_key; ip = my_ip; port = my_port })
          ≡ returns b' (some (answer ok_status)) none)
        × (b'.locked ≡ false)
        × (lookup (net.join_host_port (net.ip_string ip) my_port) b'.backup_trackers
            ≡ some (record { ip = ip; port = my_port }))
        × (known_back net host_port atoi addr (some (answer ok_status)) ≡ ok (some bk))
        × (bk ≡ record { ip = their_ip; port = atoi port })
        × (put_bk_tracker net host_port atoi bk a ≡ returns a' (some tt) none)
        × (lookup (host_port (net.ip_string bk.ip) bk.port) a'.backup_trackers ≡ some bk)
  unfolding know_me know_me_locked known_back put_bk_tracker
  know_me-put_bk_tracker a b addr my_ip host port my_port ip their_ip more la lb key p z new s q =
      let hostport = net.join_host_port (net.ip_string ip) my_port in
      let bk : BkTracker = record { ip = their_ip; port = atoi port } in
      let same : (a.red_key == b.red_key) ≡ true = (bytes_eq_iff a.red_key b.red_key).1 key in
      let b' : TrackerServer = record b {
        backup_trackers = insert hostport (record { ip = ip; port = my_port }) b.backup_trackers;
      } in
      let a' : TrackerServer = record a {
        backup_trackers = insert (host_port (net.ip_string bk.ip) bk.port) bk a.backup_trackers;
      } in
      (
        a',
        b',
        bk,
        rw (p, know_me) (rw z (with_lock_free b _ lb ∙ rw (same, know_me_locked) (rw new refl))),
        lb,
        lookup-insert_self hostport _ b.backup_trackers,
        rw (s, known_back) (rw q refl),
        refl,
        with_lock_free a _ la,
        lookup-insert_self (host_port (net.ip_string bk.ip) bk.port) bk a.backup_trackers,
      )
