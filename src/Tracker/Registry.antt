-- ===== src/Tracker/Registry.antt =====
-- tacker.go: a tracker seen as a map from torrent and peer to the peer's registration.
use bit_torrent_project.Common.{
  ℕ, zero, suc, List, [], ◌∷◌, ◌++◌, replicate, length, ok, Bool, true, false, ◌&&◌, String, Option,
  none, some, ◌==◌, ◌≡◌, refl, ◌∙◌, nat_eq, inl, inr, bytes_eq_instance, bytes_eq_iff, string_eq,
  if◌then◌else◌, arith, Option-cases, eq_self, Bool-cases,
}
use bit_torrent_project.Common.Dict.{
  lookup, has, insert, lookup-insert, has_of_lookup, lookup-eq_none,
}
use bit_torrent_project.Tracker.State.{
  Net, TrackersPool, returns, PeerTk, TorrentTk, TrackerServer, ok_status, already_exist_p,
}
use bit_torrent_project.Tracker.Publish.{
  PublishQuery, PublishResponse, publish_torrent, seeder, check_publish, not_blank, addresses,
  list_addr, re_publish_request_manager, publish_checked, publish,
}

abbrev pub peer_in : Option TorrentTk → String → Option PeerTk
peer_in none p = none
peer_in (some t) p = lookup p t.peers

-- The registration of peer `p` for torrent `h`.
abbrev pub peer_of : TrackerServer → List ℕ → String → Option PeerTk
peer_of tk h p = peer_in (lookup h tk.torrents) p

abbrev pub or_seeder : String → ℕ → List ℕ → Option PeerTk → Option PeerTk
or_seeder pid port ip none = some (seeder pid port ip)
or_seeder pid port ip (some q) = some q

module _ (ih : List ℕ) (pid : String) (port : ℕ) (ip : List ℕ) (tk : TrackerServer) where
  -- `publishTorrent` registers the peer for the torrent unless it is registered already, and
  -- changes no other registration.
  pub peer_of-publish_torrent :
      (h : List ℕ) (p : String)
      → peer_of (publish_torrent ih pid port ip tk).0 h p ≡ (
          if ih == h && pid == p then or_seeder pid port ip (peer_of tk ih pid) else peer_of tk h p)
  unfolding publish_torrent
  peer_of-publish_torrent h p = elim (Option-cases (lookup ih tk.torrents)) [
    | inl e ↦
        rw (e, publish_torrent)
          (ground (
            arith,
            lookup-insert ih h
                (record {
                  hash = ih;
                  downloaded = 0;
                  complete = 1;
                  peers = (pid, seeder pid port ip) ∷ [];
                })
                tk.torrents,
            bytes_eq_iff ih h,
            e,
          ))
    | inr (t, e) ↦ elim (Option-cases (lookup pid t.peers)) [
      | inl new ↦
          rw (e, publish_torrent)
            (rw (lookup-eq_none pid t.peers new) (
              ground (
                arith,
                lookup-insert ih h (record t { peers = insert pid (seeder pid port ip) t.peers })
                    tk.torrents,
                lookup-insert pid p (seeder pid port ip) t.peers,
                bytes_eq_iff ih h,
                string_eq.test_iff pid p,
                e,
                new,
              )))
      | inr (q, old) ↦
          rw (e, publish_torrent)
            (rw (has_of_lookup pid t.peers q old)
              (ground (arith, bytes_eq_iff ih h, string_eq.test_iff pid p, e, old)))
    ]
  ]

module _ (ih : List ℕ) (pid : String) (port : ℕ) (ip : List ℕ) (tk : TrackerServer) where
  registered : (q : PeerTk) × (peer_of (publish_torrent ih pid port ip tk).0 ih pid ≡ some q)
  registered = elim (Option-cases (peer_of tk ih pid)) [
    | inl e ↦ (
      seeder pid port ip,
      ground (
        arith,
        peer_of-publish_torrent ih pid port ip tk ih pid,
        bytes_eq_iff ih ih,
        eq_self pid,
        e,
      ),
    )
    | inr (q, e) ↦ (
      q,
      ground (
        arith,
        peer_of-publish_torrent ih pid port ip tk ih pid,
        bytes_eq_iff ih ih,
        eq_self pid,
        e,
      ),
    )
  ]

  -- A registered peer is refused by the status, and nothing changes.
  pub publish_torrent_again :
      (q : PeerTk)
      → peer_of tk ih pid ≡ some q
      → publish_torrent ih pid port ip tk ≡ (tk, already_exist_p)
  unfolding publish_torrent
  publish_torrent_again q e = elim (Option-cases (lookup ih tk.torrents)) [
    | inl n ↦ cc (rw n at e)
    | inr (t, s) ↦ rw (s, publish_torrent) (rw (has_of_lookup pid t.peers q (ground arith)))
  ]

-- Publishing the same peer for the same torrent again, from any address, answers that the peer
-- exists already, and leaves the tracker as the first publication left it.
pub publish_torrent_twice :
    (ih : List ℕ) (pid : String) (port port' : ℕ) (ip ip' : List ℕ) (tk : TrackerServer)
    → publish_torrent ih pid port' ip' (publish_torrent ih pid port ip tk).0
      ≡ ((publish_torrent ih pid port ip tk).0, already_exist_p)
publish_torrent_twice ih pid port port' ip ip' tk =
    let (q, e) = registered ih pid port ip tk in
    publish_torrent_again ih pid port' ip' (publish_torrent ih pid port ip tk).0 q e

not_blank_blanks : (n : ℕ) (as' : List String) → not_blank (replicate n "" ++ as') ≡ not_blank as'
not_blank_blanks zero as' = refl
not_blank_blanks (suc n) as' = not_blank_blanks n as'

not_blank_twice : (as' : List String) → not_blank (not_blank as') ≡ not_blank as'
not_blank_twice [] = refl
not_blank_twice (a ∷ as') = ground (arith, not_blank_twice as')

abbrev pub is_none {ℓ} : {A : Type ℓ} → Option A → Bool
is_none none = true
is_none (some a) = false

-- The status is OK exactly where the torrent is new, and the backup trackers stay.
publish_torrent_new :
    (ih : List ℕ) (pid : String) (port : ℕ) (ip : List ℕ) (tk : TrackerServer)
    → ((publish_torrent ih pid port ip tk).1 == ok_status ≡ is_none (lookup ih tk.torrents))
      × ((publish_torrent ih pid port ip tk).0.backup_trackers ≡ tk.backup_trackers)
unfolding publish_torrent
publish_torrent_new ih pid port ip tk = elim (Option-cases (lookup ih tk.torrents)) [
  | inl e ↦ rw (e, publish_torrent) (refl, refl)
  | inr (t, e) ↦ elim (Bool-cases (has pid t.peers)) [
    | inl old ↦ rw (e, publish_torrent) (rw old (refl, refl))
    | inr new ↦ rw (e, publish_torrent) (rw new (refl, refl))
  ]
]

pub targets-eq :
    (bks : TrackersPool) → re_publish_request_manager (list_addr bks) ≡ not_blank (addresses bks)
unfolding re_publish_request_manager list_addr
targets-eq bks =
    not_blank_blanks (length bks) (not_blank (addresses bks)) ∙ not_blank_twice (addresses bks)

-- A query that passes the checks on an unlocked tracker is answered, its peer is registered, and
-- RePublish requests go out exactly where the torrent is new: one to each backup tracker with an
-- address, however many blanks the address list starts with.
pub publish_republishes :
    (net : Net) (tk : TrackerServer) (q : PublishQuery) (ip : List ℕ)
    → check_publish net q ≡ ok ip
    → tk.locked ≡ false
    → (tk' : TrackerServer) × (r : PublishResponse) × (publish net tk q ≡ returns tk' (some r) none)
      × (tk' ≡ (publish_torrent q.info_hash q.peer_id q.port ip tk).0)
      × (r.republished ≡ (
          if is_none (lookup q.info_hash tk.torrents)
          then not_blank (addresses tk.backup_trackers)
          else []))
unfolding publish publish_checked
publish_republishes net tk q ip c l =
    let p = publish_torrent q.info_hash q.peer_id q.port ip tk in
    let (new, bks) = publish_torrent_new q.info_hash q.peer_id q.port ip tk in
    (
      p.0,
      record {
        status = p.1;
        republished =
            if p.1 == ok_status
            then re_publish_request_manager (list_addr p.0.backup_trackers)
            else [];
      },
      rw (c, publish) (rw (l)),
      refl,
      rw (new, bks, targets-eq tk.backup_trackers),
    )
