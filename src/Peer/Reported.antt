-- ===== src/Peer/Reported.antt =====
-- torrent_peer.go, torrent_files.go and tacker.go: what a tracker knows of a client that has
-- downloaded a torrent and announced it.
use bit_torrent_project.Common.{
  ℕ, ◌≡◌, refl, ◌∙◌, List, [], ◌∷◌, ◌++◌, true, false, String, some, length, ◌==◌, nat_eq,
  string_eq, bytes_eq_instance, Option-cases, inl, inr,
}
use bit_torrent_project.Common.Dict.{lookup, insert, lookup-insert_self}
use bit_torrent_project.Tracker.State.{
  Net, PeerTk, PeersPool, TorrentTk, TrackerServer, with_lock_free,
}
use bit_torrent_project.Tracker.Queries.{
  AnnounceQuery, ParseAnnounce, known_event, announce_query_check, get_peer,
}
use bit_torrent_project.Tracker.Announce.{
  announce, announce_checked, announce_found, apply_event, set_state,
}
use bit_torrent_project.Tracker.Client.{client_port}
use bit_torrent_project.Peer.Announcing.{
  announcement, started_query, progress_query, completed_query, progress_queries, announce_all,
}

module _ (net : Net) (again : PeersPool → PeersPool) (info_hash ip : List ℕ)
    (id text : String) where
  abbrev parsed : AnnounceQuery → ParseAnnounce
  parsed q = record {
    info_hash = q.info_hash;
    peer_id = q.peer_id;
    ip = ip;
    port = q.port;
    uploaded = q.uploaded;
    downloaded = q.downloaded;
    left = q.left;
    event = q.event;
    num_want = 40;
    request = q.request;
  }

  -- A tracker that holds the torrent with these counters, and this client as one that is started.
  abbrev pub Holds : ℕ → ℕ → TrackerServer → Type 0
  Holds complete downloaded tk =
      (t : TorrentTk) × (p : PeerTk) × (tk.locked ≡ false)
      × (lookup info_hash tk.torrents ≡ some t)
      × (t.complete ≡ complete)
      × (t.downloaded ≡ downloaded)
      × (lookup id t.peers ≡ some p)
      × (p.state ≡ "started")

  module _ (h : length info_hash ≡ 20) (named : (id == "") ≡ false)
      (reads : net.parse_ip text ≡ some ip) where
    announce-found :
        (tk : TrackerServer) (t : TorrentTk) (event : String) (left downloaded : ℕ)
        → known_event event ≡ true
        → tk.locked ≡ false
        → lookup info_hash tk.torrents ≡ some t
        → announce net again tk (announcement info_hash id text event left downloaded)
          ≡ announce_found net again
              (parsed (announcement info_hash id text event left downloaded))
              t
              tk
    unfolding announce announce_checked announce_query_check
    announce-found tk t event left downloaded k l s =
        rw (h, announce, announce_query_check, named, reads, k)
          (with_lock_free tk _ l ∙ rw (s, announce_checked) refl)

    -- An announcement after which the tracker still holds them.
    abbrev Passes : ℕ → ℕ → AnnounceQuery → TrackerServer → Type 0
    Passes complete downloaded q tk =
        (tk' : TrackerServer) × ((qs : List AnnounceQuery)
          → announce_all net again (q ∷ qs) tk ≡ announce_all net again qs tk')
        × Holds complete downloaded tk'

    -- An event that leaves the torrent as it is.
    neutral-Passes :
        (complete downloaded : ℕ) (event : String) (left done : ℕ) (tk : TrackerServer)
        → known_event event ≡ true
        → ((t : TorrentTk)
            → apply_event (parsed (announcement info_hash id text event left done)) t ≡ some t)
        → Holds complete downloaded tk
        → Passes complete downloaded (announcement info_hash id text event left done) tk
    unfolding announce_found announce_all
    neutral-Passes complete downloaded event left done tk k neutral (t, p, l, s, c, d, e, st) = (
      record tk { torrents = insert info_hash t tk.torrents },
      λ qs.
          rw (announce-found tk t event left done k l s, announce_all)
            (rw (neutral t, announce_found) refl),
      (t, p, l, lookup-insert_self info_hash t tk.torrents, c, d, e, st),
    )

    progress-Holds :
        (complete downloaded : ℕ) (cs : List (ℕ × ℕ)) (qs : List AnnounceQuery) (tk : TrackerServer)
        → Holds complete downloaded tk
        → (tk' : TrackerServer) × (announce_all net again
              (progress_queries info_hash id text cs ++ qs)
              tk
            ≡ announce_all net again qs tk')
          × Holds complete downloaded tk'
    unfolding announce_all progress_query apply_event
    progress-Holds complete downloaded [] qs tk holds = (tk, refl, holds)
    progress-Holds complete downloaded ((left, done) ∷ cs) qs tk holds =
        let (tk1, run, holds1) =
          neutral-Passes complete downloaded "request" left done tk refl (λ t. refl) holds in
        let (tk2, more, holds2) = progress-Holds complete downloaded cs qs tk1 holds1 in
        (tk2, run (progress_queries info_hash id text cs ++ qs) ∙ more, holds2)

    started-Passes :
        (left : ℕ) (tk : TrackerServer) (t : TorrentTk)
        → tk.locked ≡ false
        → lookup info_hash tk.torrents ≡ some t
        → Passes t.complete t.downloaded (started_query info_hash id text left) tk
    unfolding announce_found announce_all apply_event get_peer set_state started_query
    started-Passes left tk t l s = elim (Option-cases (lookup id t.peers)) [
      | inl new ↦
          let p : PeerTk = record { id = id; ip = ip; port = client_port; state = "started" } in
          let t' : TorrentTk = record t { peers = insert id p t.peers } in
          (
            record tk { torrents = insert info_hash t' tk.torrents },
            λ qs.
                rw (announce-found tk t "started" left 0 refl l s, announce_all)
                  (rw (new, announce_found, apply_event, get_peer) refl),
            (
              t',
              p,
              l,
              lookup-insert_self info_hash t' tk.torrents,
              refl,
              refl,
              lookup-insert_self id p t.peers,
              refl,
            ),
          )
      | inr (old, e) ↦
          let p : PeerTk = record old { state = "started" } in
          let t' : TorrentTk = record t { peers = insert id p t.peers } in
          (
            record tk { torrents = insert info_hash t' tk.torrents },
            λ qs.
                rw (announce-found tk t "started" left 0 refl l s, announce_all)
                  (rw (e, announce_found, apply_event, get_peer) (rw (e, set_state) refl)),
            (
              t',
              p,
              l,
              lookup-insert_self info_hash t' tk.torrents,
              refl,
              refl,
              lookup-insert_self id p t.peers,
              refl,
            ),
          )
    ]

    -- A client with a name and an IP that can be parsed, at an unlocked tracker that holds the
    -- torrent, whose info hash has twenty bytes: it announces that it has started, any number of
    -- times its progress, and that it has completed the download. Each announcement comes back, and
    -- afterwards the tracker still has this client as one that is started, and counts as many
    -- complete peers and downloads of the torrent as before.
    pub announce_all-completed :
        (left : ℕ) (cs : List (ℕ × ℕ)) (tk : TrackerServer) (t : TorrentTk)
        → tk.locked ≡ false
        → lookup info_hash tk.torrents ≡ some t
        → (tk' : TrackerServer) × (announce_all net again
              (started_query info_hash id text left
                ∷ (progress_queries info_hash id text cs ++ completed_query info_hash id text ∷ []))
              tk
            ≡ some tk')
          × Holds t.complete t.downloaded tk'
    unfolding announce_all completed_query apply_event
    announce_all-completed left cs tk t l s =
        let last = completed_query info_hash id text ∷ [] in
        let (tk1, start, holds1) = started-Passes left tk t l s in
        let (tk2, run, holds2) = progress-Holds t.complete t.downloaded cs last tk1 holds1 in
        let (tk3, end, holds3) =
          neutral-Passes t.complete t.downloaded "completed" 0 0 tk2 refl (λ t. refl) holds2 in
        (tk3, start (progress_queries info_hash id text cs ++ last) ∙ run ∙ end [], holds3)
