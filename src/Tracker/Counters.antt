-- ===== src/Tracker/Counters.antt =====
-- tacker.go: what an Announce does to the counters of a torrent.
use bit_torrent_project.Common.{
  ℕ, List, true, false, String, Option, none, some, ◌==◌, ◌≡◌, ◌⊎◌, refl, inl, inr, ok, err, panic,
  Outcome, bytes_eq_instance, bytes_eq_iff, string_eq, arith, Bool-cases,
}
use bit_torrent_project.Common.Dict.{lookup, insert, lookup-insert}
use bit_torrent_project.Tracker.State.{
  Net, PeersPool, TorrentTk, TrackerServer, TrackerError, returns, with_lock-returns,
}
use bit_torrent_project.Tracker.Queries.{
  AnnounceQuery, ParseAnnounce, AnnounceResponse, known_event, announce_query_check,
}
use bit_torrent_project.Tracker.Announce.{apply_event, announce_found, announce_checked, announce}

-- How a call of Announce that returns leaves the tracker: as it was, or with one torrent replaced
-- by what its event makes of it.
abbrev pub Announced : Net → AnnounceQuery → TrackerServer → TrackerServer → Type 0
Announced net q tk tk' =
    (tk' ≡ tk)
    ⊎ ((pa : ParseAnnounce) × (t : TorrentTk) × (t' : TorrentTk) × (announce_query_check net q
          ≡ ok pa)
        × (lookup pa.info_hash tk.torrents ≡ some t)
        × (apply_event pa t ≡ some t')
        × (tk' ≡ record tk { torrents = insert pa.info_hash t' tk.torrents }))

module _ (net : Net) (again : PeersPool → PeersPool) (tk tk' : TrackerServer) where
  found-Announced :
      (q : AnnounceQuery) (pa : ParseAnnounce) (t : TorrentTk) (o : Option TorrentTk)
      (r : Option AnnounceResponse) (e : Option TrackerError)
      → announce_query_check net q ≡ ok pa
      → lookup pa.info_hash tk.torrents ≡ some t
      → apply_event pa t ≡ o
      → announce_found net again pa t tk ≡ returns tk' r e
      → Announced net q tk tk'
  unfolding announce_found
  found-Announced q pa t none r e c l a h = cc (rw (a, announce_found) at h)
  found-Announced q pa t (some t') r e c l a h =
      inr (pa, t, t', c, l, a, ground (arith, rw (a, announce_found) at h))

  checked-Announced :
      (q : AnnounceQuery) (pa : ParseAnnounce) (o : Option TorrentTk) (r : Option AnnounceResponse)
      (e : Option TrackerError)
      → announce_query_check net q ≡ ok pa
      → lookup pa.info_hash tk.torrents ≡ o
      → announce_checked net again pa tk ≡ returns tk' r e
      → Announced net q tk tk'
  unfolding announce_checked
  checked-Announced q pa none r e c l h = inl (ground (arith, rw (l, announce_checked) at h))
  checked-Announced q pa (some t) r e c l h =
      found-Announced q pa t (apply_event pa t) r e c l refl (rw (l, announce_checked) at h)

  by_check :
      (q : AnnounceQuery) (c : Outcome TrackerError ParseAnnounce) (r : Option AnnounceResponse)
      (e : Option TrackerError)
      → announce_query_check net q ≡ c
      → announce net again tk q ≡ returns tk' r e
      → Announced net q tk tk'
  unfolding announce
  by_check q (err x) r e c h = inl (ground (arith, rw (c, announce) at h))
  by_check q panic r e c h = cc (rw (c, announce) at h)
  by_check q (ok pa) r e c h =
      checked-Announced q pa (lookup pa.info_hash tk.torrents) r e c refl
        (with_lock-returns tk (announce_checked net again pa tk) tk' r e (rw (c, announce) at h)).0

  pub announce-Announced :
      (q : AnnounceQuery) (r : Option AnnounceResponse) (e : Option TrackerError)
      → announce net again tk q ≡ returns tk' r e
      → Announced net q tk tk'
  announce-Announced q r e h = by_check q (announce_query_check net q) r e refl h

-- The check lets four events through, and `complete` is none of them.
pub known_event-ne_complete : (s : String) → known_event s ≡ true → (s == "complete") ≡ false
known_event-ne_complete s k = elim (Bool-cases (s == "complete")) [
  | inl e ↦ cc (rw ((string_eq.test_iff s "complete").0 e) at k)
  | inr e ↦ e
]

pub check-known_event :
    (net : Net) (q : AnnounceQuery) (pa : ParseAnnounce)
    → announce_query_check net q ≡ ok pa
    → known_event pa.event ≡ true
unfolding announce_query_check
check-known_event net q pa h = ground (arith, h)

pub apply_event-counters :
    (pa : ParseAnnounce) (t t' : TorrentTk)
    → (pa.event == "complete") ≡ false
    → apply_event pa t ≡ some t'
    → (t'.complete ≡ t.complete) × (t'.downloaded ≡ t.downloaded) × (t'.hash ≡ t.hash)
unfolding apply_event
apply_event-counters pa t t' n h = ground arith

abbrev pub counters : Option TorrentTk → Option (ℕ × ℕ)
counters none = none
counters (some t) = some (t.complete, t.downloaded)

-- Whatever a client announces, the counters of completed and downloaded copies of every torrent
-- stay: the check asks for the event `completed`, and the handler counts the event `complete`.
pub announce_never_counts :
    (net : Net) (again : PeersPool → PeersPool) (tk tk' : TrackerServer) (q : AnnounceQuery)
    (r : Option AnnounceResponse) (e : Option TrackerError)
    → announce net again tk q ≡ returns tk' r e
    → (h : List ℕ) → counters (lookup h tk'.torrents) ≡ counters (lookup h tk.torrents)
announce_never_counts net again tk tk' q r e call h =
    elim (announce-Announced net again tk tk' q r e call) [
      | inl same ↦ rw same
      | inr (pa, t, t', c, l, a, new) ↦
          let (ec, ed, eh) =
            apply_event-counters pa t t'
              (known_event-ne_complete pa.event (check-known_event net q pa c)) a in
          rw new (
            ground
              (arith, lookup-insert pa.info_hash h t' tk.torrents, bytes_eq_iff pa.info_hash h))
    ]
