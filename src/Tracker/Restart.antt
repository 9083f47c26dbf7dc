-- ===== src/Tracker/Restart.antt =====
-- server.go: the process of a tracker over its runs: calls, saved copies and restarts.
use bit_torrent_project.Common.{
  ℕ, List, [], ◌∷◌, Bool, true, false, String, Option, some, ◌≡◌, refl, ap, subst, ◌∙◌,
  bytes_eq_instance, Eq, ◌==◌, string_eq, sym, inl, inr, eq_self, Bool-cases,
}
use mathlib.Core.Option.{some-injective}
use bit_torrent_project.Common.Dict.{Dict, lookup, lookup-insert}
use bit_torrent_project.Tracker.State.{
  Net, PeerTk, PeersPool, TorrentTk, TorrentsPool, TrackersPool, BkTracker, TrackerServer,
  TrackerError, returns, with_lock-returns, new_tracker_server,
}
use bit_torrent_project.Tracker.Soundness.{IsSound, IsConsistent}
use bit_torrent_project.Tracker.Invariant.{Step, Step-IsConsistent}
use bit_torrent_project.Tracker.Process.{
  Loaded, unreadable, malformed, decoded, new_tracker_server_from_load, start_server, Written,
  untouched, cut_short, whole, save, read_back, read_back_torrent, read_back_torrents,
  put_bk_tracker,
}

-- What is found in a map that was read back was in the map.
lookup-read_back {ℓ κ} :
    {K : Type ℓ} {V : Type κ} ⦃e : Eq K⦄ (text : K → K) (value : V → V) (m : Dict K V) (k : K)
    (v : V)
    → lookup k (read_back text value m) ≡ some v
    → (j : K) × (w : V) × (text j ≡ k) × (v ≡ value w) × (lookup j m ≡ some w)
unfolding read_back
lookup-read_back text value [] k v h = cc
lookup-read_back ⦃e⦄ text value ((i, u) ∷ m) k v h =
    let found = sym (lookup-insert (text i) k (value u) (read_back text value m)) ∙ h in
    elim (Bool-cases (text i == k)) [
      | inl same ↦
          let u_is : value u ≡ v = some-injective _ _ (rw same at found) in
          (i, u, (e.test_iff (text i) k).0 same, sym u_is, rw (eq_self i) refl)
      | inr other ↦
          let (j, w, t, r, l) = lookup-read_back text value m k v (rw other at found) in
          let ne : (i == j) ≡ false = elim (Bool-cases (i == j)) [
            | inr f ↦ f
            | inl g ↦
                let ij : text i ≡ k = ap text ((e.test_iff i j).0 g) ∙ t in
                let yes : (text i == k) ≡ true = (e.test_iff (text i) k).1 ij in cc
          ] in
          (j, w, t, r, rw ne l)
    ]

-- The server and the two files of its directory `data`.
pub record Process : Type 0 where
  pub server : TrackerServer
  pub torrents_file : Loaded TorrentsPool
  pub trackers_file : Loaded TrackersPool

module _ (net : Net) (host_port : String → ℕ → String) (atoi : String → ℕ)
    (again : PeersPool → PeersPool) (key : List ℕ) (text : List ℕ → List ℕ)
    (name : String → String) where
  -- What happens to a process: a call from outside returns, a tracker that answered is put into
  -- the server, a round of `saveData` ends, each of its two copies written, cut short or not written,
  -- or the process ends and is started again.
  pub data Deed (p : Process) : Process → Type 0 where
    called : {tk : TrackerServer} → Step net again p.server tk → Deed p (record p { server = tk })
    took :
        (bk : BkTracker) {tk : TrackerServer} {r : Option (Unit {0})} {e : Option TrackerError}
        → put_bk_tracker net host_port atoi bk p.server ≡ returns tk r e
        → Deed p (record p { server = tk })
    saved :
        (torrents_written trackers_written : Written)
        → p.server.locked ≡ false
        → Deed p (record p {
          torrents_file =
              save torrents_written
                (read_back_torrents text name p.server.torrents)
                p.torrents_file;
          trackers_file = save trackers_written p.server.backup_trackers p.trackers_file;
        })
    restarted :
        (load : Bool)
        → Deed p (record p { server = start_server load p.torrents_file p.trackers_file key })

  pub data History (p : Process) : Process → Type 0 where
    here : History p p
    next : {q r : Process} → History p q → Deed q r → History p r

  abbrev FileIsSound : Loaded TorrentsPool → Type 0
  FileIsSound file =
      (pool : TorrentsPool) (h : List ℕ) (t : TorrentTk)
      → file ≡ decoded pool
      → lookup h pool ≡ some t
      → IsSound h t

  abbrev IsSoundProcess : Process → Type 0
  IsSoundProcess p = IsConsistent p.server × FileIsSound p.torrents_file

  start-IsConsistent :
      (load : Bool) (torrents : Loaded TorrentsPool) (trackers : Loaded TrackersPool)
      → FileIsSound torrents
      → IsConsistent (start_server load torrents trackers key)
  unfolding start_server new_tracker_server new_tracker_server_from_load
  start-IsConsistent false torrents trackers f h t l = cc
  start-IsConsistent true unreadable trackers f h t l = cc
  start-IsConsistent true malformed trackers f h t l = cc
  start-IsConsistent true (decoded []) trackers f h t l = cc
  start-IsConsistent true (decoded (x ∷ xs)) trackers f h t l = f (x ∷ xs) h t refl l

  read_back_torrent-IsSound :
      (h : List ℕ) (t : TorrentTk) → IsSound h t → IsSound (text h) (read_back_torrent text name t)
  unfolding read_back_torrent
  read_back_torrent-IsSound h t s = record {
    hashed = ap text s.hashed;
    one_complete = s.one_complete;
    none_downloaded = s.none_downloaded;
    keyed = λ p q l.
        let (k, v, same, e, found) =
          lookup-read_back name (λ (x : PeerTk). record x { id = name x.id }) t.peers p q l in
        ap PeerTk.id e ∙ ap name (s.keyed k v found) ∙ same;
  }

  save-FileIsSound :
      (written : Written) (tk : TrackerServer) (file : Loaded TorrentsPool)
      → IsConsistent tk
      → FileIsSound file
      → FileIsSound (save written (read_back_torrents text name tk.torrents) file)
  unfolding save read_back_torrents
  save-FileIsSound untouched tk file c f pool h t e l = f pool h t e l
  save-FileIsSound cut_short tk file c f pool h t e l = cc
  save-FileIsSound whole tk file c f pool h t e l =
      let same : read_back text (read_back_torrent text name) tk.torrents ≡ pool = cc in
      let (k, v, key_text, is_read, found) =
        lookup-read_back text (read_back_torrent text name) tk.torrents h t
          (ap (lookup h) same ∙ l) in
      subst (λ x. IsSound x t) key_text
        (subst (λ x. IsSound (text k) x) (sym is_read)
          (read_back_torrent-IsSound k v (c k v found)))

  Deed-IsSoundProcess : (p q : Process) → Deed p q → IsSoundProcess p → IsSoundProcess q
  unfolding put_bk_tracker
  Deed-IsSoundProcess p q (called s) (c, f) = (Step-IsConsistent net again p.server _ s c, f)
  Deed-IsSoundProcess p q (took bk {tk} {r} {e} h) (c, f) =
      let k = (with_lock-returns p.server _ tk r e h).0 in
      (subst IsConsistent (returned _ tk _ r _ e k) c, f)
    where
      returned :
          (x y : TrackerServer) (r s : Option (Unit {0})) (d e : Option TrackerError)
          → returns x r d ≡ returns y s e
          → x ≡ y
      returned x y r s d e k = cc
  Deed-IsSoundProcess p q (saved a b u) (c, f) =
      (c, save-FileIsSound a p.server p.torrents_file c f)
  Deed-IsSoundProcess p q (restarted load) (c, f) =
      (start-IsConsistent load p.torrents_file p.trackers_file f, f)

  History-IsSoundProcess : {p q : Process} → History p q → IsSoundProcess p → IsSoundProcess q
  History-IsSoundProcess here s = s
  History-IsSoundProcess (next {q} {r} h d) s =
      Deed-IsSoundProcess q r d (History-IsSoundProcess h s)

  -- A process that begins with a fresh server and without a readable copy of the torrents: after any
  -- calls, newly known trackers, saved copies (whole, cut short or not written at all) and restarts,
  -- with the flag `load` or without, each torrent of its server is stored under the hash that it holds
  -- itself and each of its peers under its own id, and the counters stand where they stood when the
  -- torrent was published: one complete copy, none downloaded. After a restart this hash and this id
  -- are the texts that JSON has made of those that were published, whatever it makes of them.
  pub History-IsSound :
      (trackers : Loaded TrackersPool) (p : Process)
      → History
          (record {
            server = new_tracker_server key;
            torrents_file = unreadable;
            trackers_file = trackers;
          })
          p
      → (h : List ℕ) (t : TorrentTk) → lookup h p.server.torrents ≡ some t
      → IsSound h t
  unfolding new_tracker_server
  History-IsSound trackers p r = (History-IsSoundProcess r ((λ h t l. cc), λ pool h t e l. cc)).0
