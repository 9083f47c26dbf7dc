-- ===== src/Tracker/Mutex.antt =====
-- tacker.go: the red key, and the mutex that KnowMe does not always give back.
use bit_torrent_project.Common.{
  ℕ, List, ◌∷◌, true, false, not, ◌&&◌, Option, some, ◌==◌, ◌≡◌, ◌≢◌, refl, ◌∙◌, ok, err, panic,
  Outcome, nat_eq, nat_beq, bytes_eq_instance, bytes_eq_iff, string_eq, arith, Bool-cases, inl, inr,
}
use bit_torrent_project.Common.Dict.{has}
use bit_torrent_project.Tracker.State.{
  Net, PeersPool, TrackerServer, TrackerError, blocked, returns, with_lock, with_lock-returns,
  with_lock_free, with_lock_held,
}
use bit_torrent_project.Tracker.Publish.{
  PublishQuery, PublishResponse, check_publish, publish, re_publish, re_publish_checked,
}
use bit_torrent_project.Tracker.Queries.{AnnounceQuery, ParseAnnounce, announce_query_check}
use bit_torrent_project.Tracker.Announce.{announce}
use bit_torrent_project.Tracker.Scrape.{scrape, parse_scraper_request}
use bit_torrent_project.Tracker.Backup.{KnowMeRequest, KnowMeResponse, know_me, know_me_locked}

-- A RePublish with another key than the tracker's is refused, and changes nothing.
re_publish-by_check :
    (net : Net) (tk tk' : TrackerServer) (q : PublishQuery) (c : Outcome TrackerError (List ℕ))
    (r : Option PublishResponse) (e : Option TrackerError)
    → check_publish net q ≡ c
    → q.red_key ≢ tk.red_key
    → re_publish net tk q ≡ returns tk' r e
    → tk' ≡ tk
unfolding re_publish re_publish_checked
re_publish-by_check net tk tk' q (err x) r e c n h = ground (arith, rw (c, re_publish) at h)
re_publish-by_check net tk tk' q panic r e c n h = cc (rw (c, re_publish) at h)
re_publish-by_check net tk tk' q (ok ip) r e c n h =
    let (h', l) =
      with_lock-returns tk (re_publish_checked q ip tk) tk' r e (rw (c, re_publish) at h) in
    ground (arith, h', bytes_eq_iff q.red_key tk.red_key)

-- A RePublish with another key than the tracker's, if it returns, has changed nothing.
pub re_publish_needs_key :
    (net : Net) (tk tk' : TrackerServer) (q : PublishQuery) (r : Option PublishResponse)
    (e : Option TrackerError)
    → q.red_key ≢ tk.red_key
    → re_publish net tk q ≡ returns tk' r e
    → tk' ≡ tk
re_publish_needs_key net tk tk' q r e =
    re_publish-by_check net tk tk' q (check_publish net q) r e refl

know_me-locked :
    (net : Net) (tk : TrackerServer) (kr : KnowMeRequest) (ip : List ℕ)
    → net.parse_ip kr.ip ≡ some ip
    → kr.port ≢ 0
    → know_me net tk kr ≡ with_lock tk (know_me_locked net tk kr ip)
unfolding know_me
know_me-locked net tk kr ip p n =
    let z : nat_beq kr.port 0 ≡ false = ground arith in rw (p, know_me) (rw z)

-- What a KnowMe under the mutex answers, and whether it leaves the mutex held.
know_me_locked-mutex :
    (net : Net) (tk : TrackerServer) (kr : KnowMeRequest) (ip : List ℕ)
    → tk.locked ≡ false
    → (tk' : TrackerServer) × (r : KnowMeResponse) × (e : Option TrackerError) × (know_me_locked net
          tk kr ip
        ≡ returns tk' (some r) e)
      × (tk'.locked
          ≡ not (
              kr.red_key == tk.red_key
              && not (has (net.join_host_port (net.ip_string ip) kr.port) tk.backup_trackers)))
unfolding know_me_locked
know_me_locked-mutex net tk kr ip l = elim (Bool-cases (kr.red_key == tk.red_key)) [
  | inl right ↦
      elim (Bool-cases (has (net.join_host_port (net.ip_string ip) kr.port) tk.backup_trackers)) [
        | inl known ↦ rw right (rw known (_, _, _, refl, refl))
        | inr fresh ↦ rw right (rw fresh (_, _, _, refl, l))
      ]
  | inr wrong ↦ rw wrong (_, _, _, refl, refl)
]

-- A KnowMe that passes its field checks and gets the mutex keeps it in all cases but one: the key
-- is right and the tracker is not known yet.
pub know_me_mutex :
    (net : Net) (tk : TrackerServer) (kr : KnowMeRequest) (ip : List ℕ)
    → net.parse_ip kr.ip ≡ some ip
    → kr.port ≢ 0
    → tk.locked ≡ false
    → (tk' : TrackerServer) × (r : KnowMeResponse) × (e : Option TrackerError) × (know_me net tk kr
        ≡ returns tk' (some r) e)
      × (tk'.locked
          ≡ not (
              kr.red_key == tk.red_key
              && not (has (net.join_host_port (net.ip_string ip) kr.port) tk.backup_trackers)))
know_me_mutex net tk kr ip p n l =
    let (tk', r, e, call, mutex) = know_me_locked-mutex net tk kr ip l in
    (
      tk',
      r,
      e,
      know_me-locked net tk kr ip p n ∙ (with_lock_free tk (know_me_locked net tk kr ip) l ∙ call),
      mutex,
    )

-- Once a KnowMe that passes its field checks came to an unlocked tracker with a wrong key, every
-- Publish, Announce and Scrape that passes its checks waits for ever.
pub wrong_key_blocks_tracker :
    (net : Net) (again : PeersPool → PeersPool) (tk : TrackerServer) (kr : KnowMeRequest)
    (ip ip' ih : List ℕ) (q : PublishQuery) (aq : AnnounceQuery) (pa : ParseAnnounce)
    (ihs : List (List ℕ))
    → net.parse_ip kr.ip ≡ some ip
    → kr.port ≢ 0
    → tk.locked ≡ false
    → kr.red_key ≢ tk.red_key
    → check_publish net q ≡ ok ip'
    → announce_query_check net aq ≡ ok pa
    → (tk' : TrackerServer) × (r : KnowMeResponse) × (e : Option TrackerError) × (know_me net tk kr
        ≡ returns tk' (some r) e)
      × (publish net tk' q ≡ blocked)
      × (announce net again tk' aq ≡ blocked)
      × (scrape tk' (ih ∷ ihs) ≡ blocked)
unfolding publish announce scrape parse_scraper_request
wrong_key_blocks_tracker net again tk kr ip ip' ih q aq pa ihs p n l k c a =
    let (tk', r, e, call, mutex) = know_me_mutex net tk kr ip p n l in
    let held : tk'.locked ≡ true = ground (arith, bytes_eq_iff kr.red_key tk.red_key) in
    (
      tk',
      r,
      e,
      call,
      rw (c, publish) (with_lock_held tk' _ held),
      rw (a, announce) (with_lock_held tk' _ held),
      with_lock_held tk' _ held,
    )
