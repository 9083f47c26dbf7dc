-- ===== src/Tracker/Invariant.antt =====
-- tacker.go: the states that a tracker can reach by its calls.
use bit_torrent_project.Common.{
  ℕ, List, [], ◌∷◌, Option, none, some, ◌==◌, ◌≡◌, refl, inl, inr, ok, err, panic, Outcome,
  bytes_eq_instance, string_eq, arith, Bool-cases, sym, subst, ap, ◌∙◌, nat_eq,
}
use bit_torrent_project.Tracker.Scrape.{ScraperResponse, scrape, parse_scraper_request}
use bit_torrent_project.Common.Dict.{lookup}
use bit_torrent_project.Tracker.State.{
  Net, PeersPool, TorrentTk, TrackerServer, TrackerError, returns, with_lock-returns,
  new_tracker_server,
}
use bit_torrent_project.Tracker.Publish.{
  PublishQuery, PublishResponse, publish_torrent, check_publish, publish_checked, publish,
  re_publish_checked, re_publish,
}
use bit_torrent_project.Tracker.Queries.{AnnounceQuery, AnnounceResponse}
use bit_torrent_project.Tracker.Announce.{announce}
use bit_torrent_project.Tracker.Backup.{KnowMeRequest, KnowMeResponse, know_me, know_me_locked}
use bit_torrent_project.Tracker.Counters.{
  announce-Announced, known_event-ne_complete, check-known_event, apply_event-counters,
}
use bit_torrent_project.Tracker.Soundness.{
  IsSound, IsConsistent, insert-IsConsistent, publish_torrent-IsConsistent, apply_event-PeersAfter,
  PeersAfter-PeersKeyed,
}

-- The calls that other programs make on a tracker, as far as they return.
pub data Step (net : Net) (again : PeersPool → PeersPool) (tk tk' : TrackerServer) : Type 0 where
  published :
      (q : PublishQuery) (r : Option PublishResponse) (e : Option TrackerError)
      → publish net tk q ≡ returns tk' r e
      → Step net again tk tk'
  re_published :
      (q : PublishQuery) (r : Option PublishResponse) (e : Option TrackerError)
      → re_publish net tk q ≡ returns tk' r e
      → Step net again tk tk'
  announced :
      (q : AnnounceQuery) (r : Option AnnounceResponse) (e : Option TrackerError)
      → announce net again tk q ≡ returns tk' r e
      → Step net again tk tk'
  scraped :
      (q : List (List ℕ)) (r : Option ScraperResponse) (e : Option TrackerError)
      → scrape tk q ≡ returns tk' r e
      → Step net again tk tk'
  knew :
      (q : KnowMeRequest) (r : Option KnowMeResponse) (e : Option TrackerError)
      → know_me net tk q ≡ returns tk' r e
      → Step net again tk tk'

pub data Reach (net : Net) (again : PeersPool → PeersPool) (tk : TrackerServer)
    : TrackerServer → Type 0 where
  here : Reach net again tk tk
  next : {u v : TrackerServer} → Reach net again tk u → Step net again u v → Reach net again tk v

carry : (x y : TrackerServer) → x ≡ y → IsConsistent x → IsConsistent y
carry x y e = subst IsConsistent e

carry_torrents : (x y : TrackerServer) → y.torrents ≡ x.torrents → IsConsistent x → IsConsistent y
carry_torrents x y e c h t l = c h t (ap (lookup h) (sym e) ∙ l)

module _ (net : Net) (again : PeersPool → PeersPool) (tk tk' : TrackerServer) where
  publish-IsConsistent :
      (q : PublishQuery) (c : Outcome TrackerError (List ℕ)) (r : Option PublishResponse)
      (e : Option TrackerError)
      → check_publish net q ≡ c
      → publish net tk q ≡ returns tk' r e
      → IsConsistent tk
      → IsConsistent tk'
  unfolding publish publish_checked
  publish-IsConsistent q (err x) r e c h k = carry tk tk' (ground (arith, rw (c, publish) at h)) k
  publish-IsConsistent q panic r e c h k = cc (rw (c, publish) at h)
  publish-IsConsistent q (ok ip) r e c h k =
      carry (publish_torrent q.info_hash q.peer_id q.port ip tk).0 tk'
        (ground (
          arith,
          (with_lock-returns tk (publish_checked q ip tk) tk' r e (rw (c, publish) at h)).0,
        ))
        (publish_torrent-IsConsistent q.info_hash q.peer_id q.port ip tk k)

  re_publish-IsConsistent :
      (q : PublishQuery) (c : Outcome TrackerError (List ℕ)) (r : Option PublishResponse)
      (e : Option TrackerError)
      → check_publish net q ≡ c
      → re_publish net tk q ≡ returns tk' r e
      → IsConsistent tk
      → IsConsistent tk'
  unfolding re_publish re_publish_checked
  re_publish-IsConsistent q (err x) r e c h k =
      carry tk tk' (ground (arith, rw (c, re_publish) at h)) k
  re_publish-IsConsistent q panic r e c h k = cc (rw (c, re_publish) at h)
  re_publish-IsConsistent q (ok ip) r e c h k =
      let h' =
        (with_lock-returns tk (re_publish_checked q ip tk) tk' r e (rw (c, re_publish) at h)).0 in
      elim (Bool-cases (q.red_key == tk.red_key)) [
        | inl same ↦
            carry (publish_torrent q.info_hash q.peer_id q.port ip tk).0 tk'
              (ground (arith, rw same at h'))
              (publish_torrent-IsConsistent q.info_hash q.peer_id q.port ip tk k)
        | inr other ↦ carry tk tk' (ground (arith, rw other at h')) k
      ]

  announce-IsConsistent :
      (q : AnnounceQuery) (r : Option AnnounceResponse) (e : Option TrackerError)
      → announce net again tk q ≡ returns tk' r e
      → IsConsistent tk
      → IsConsistent tk'
  announce-IsConsistent q r e h k = elim (announce-Announced net again tk tk' q r e h) [
    | inl same ↦ subst IsConsistent (sym same) k
    | inr (pa, t, t', c, l, a, new) ↦
        let s = k pa.info_hash t l in
        let (ec, ed, eh) =
          apply_event-counters pa t t'
            (known_event-ne_complete pa.event (check-known_event net q pa c)) a in
        subst IsConsistent (sym new) (
          insert-IsConsistent pa.info_hash t' tk
            (record {
              hashed = eh ∙ s.hashed;
              one_complete = ec ∙ s.one_complete;
              none_downloaded = ed ∙ s.none_downloaded;
              keyed = PeersAfter-PeersKeyed pa t t' (apply_event-PeersAfter pa t t' a) s.keyed;
            })
            k)
  ]

  scrape-torrents :
      (q : List (List ℕ)) (r : Option ScraperResponse) (e : Option TrackerError)
      → scrape tk q ≡ returns tk' r e
      → tk'.torrents ≡ tk.torrents
  unfolding scrape parse_scraper_request
  scrape-torrents [] r e h = ground arith
  scrape-torrents (ih ∷ ihs) r e h = ground (arith, (with_lock-returns tk _ tk' r e h).0)

  know_me_locked-torrents :
      (q : KnowMeRequest) (ip : List ℕ) (r : Option KnowMeResponse) (e : Option TrackerError)
      → know_me_locked net tk q ip ≡ returns tk' r e
      → tk'.torrents ≡ tk.torrents
  unfolding know_me_locked
  know_me_locked-torrents q ip r e h = ground arith

  know_me-torrents :
      (q : KnowMeRequest) (o : Option (List ℕ)) (r : Option KnowMeResponse)
      (e : Option TrackerError)
      → net.parse_ip q.ip ≡ o
      → know_me net tk q ≡ returns tk' r e
      → tk'.torrents ≡ tk.torrents
  unfolding know_me
  know_me-torrents q none r e p h = ground (arith, rw (p, know_me) at h)
  know_me-torrents q (some ip) r e p h = elim (Bool-cases (q.port == 0)) [
    | inl z ↦ ground (arith, rw z at (rw (p, know_me) at h))
    | inr nz ↦
        know_me_locked-torrents q ip r e
          (with_lock-returns tk (know_me_locked net tk q ip) tk' r e
            (rw nz at (rw (p, know_me) at h))).0
  ]

pub Step-IsConsistent :
    (net : Net) (again : PeersPool → PeersPool) (tk tk' : TrackerServer)
    → Step net again tk tk'
    → IsConsistent tk
    → IsConsistent tk'
Step-IsConsistent net again tk tk' (published q r e h) =
    publish-IsConsistent net again tk tk' q (check_publish net q) r e refl h
Step-IsConsistent net again tk tk' (re_published q r e h) =
    re_publish-IsConsistent net again tk tk' q (check_publish net q) r e refl h
Step-IsConsistent net again tk tk' (announced q r e h) =
    announce-IsConsistent net again tk tk' q r e h
Step-IsConsistent net again tk tk' (scraped q r e h) =
    carry_torrents tk tk' (scrape-torrents net again tk tk' q r e h)
Step-IsConsistent net again tk tk' (knew q r e h) =
    carry_torrents tk tk' (know_me-torrents net again tk tk' q (net.parse_ip q.ip) r e refl h)

Reach-IsConsistent :
    (net : Net) (again : PeersPool → PeersPool) {tk tk' : TrackerServer}
    → Reach net again tk tk'
    → IsConsistent tk
    → IsConsistent tk'
Reach-IsConsistent net again here k = k
Reach-IsConsistent net again (next {u} {v} r s) k =
    Step-IsConsistent net again u v s (Reach-IsConsistent net again r k)

-- In every state that a fresh tracker reaches by any calls, each torrent is stored under its own
-- hash and each of its peers under its own id, and the counters stand where they stood when the
-- torrent was published: one complete copy, none downloaded.
pub reachable-IsSound :
    (net : Net) (again : PeersPool → PeersPool) (key : List ℕ) (tk : TrackerServer)
    → Reach net again (new_tracker_server key) tk
    → (h : List ℕ) (t : TorrentTk) → lookup h tk.torrents ≡ some t
    → IsSound h t
unfolding new_tracker_server
reachable-IsSound net again key tk r = Reach-IsConsistent net again r (λ h t l. cc)
