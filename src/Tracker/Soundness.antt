-- ===== src/Tracker/Soundness.antt =====
-- tacker.go: what holds of the torrents of a tracker, and the changes that keep it.
use bit_torrent_project.Common.{
  ℕ, List, [], String, some, ◌==◌, ◌≡◌, ◌⊎◌, refl, inl, inr, bytes_eq_instance, bytes_eq_iff,
  string_eq, arith, Option-cases, Bool-cases, sym, subst, nat_eq,
}
use mathlib.Core.Option.{some-injective}
use bit_torrent_project.Common.Dict.{lookup, has, insert, lookup-insert}
use bit_torrent_project.Tracker.State.{PeerTk, PeersPool, TorrentTk, TrackerServer}
use bit_torrent_project.Tracker.Publish.{publish_torrent, seeder}
use bit_torrent_project.Tracker.Queries.{ParseAnnounce}
use bit_torrent_project.Tracker.Announce.{apply_event, set_state, new_peer}

-- Every peer is stored under its own id.
abbrev pub PeersKeyed : PeersPool → Type 0
PeersKeyed pool = (p : String) (q : PeerTk) → lookup p pool ≡ some q → q.id ≡ p

-- What holds of a torrent that is stored under the hash `h`.
pub record IsSound (h : List ℕ) (t : TorrentTk) : Type 0 where
  pub hashed : t.hash ≡ h
  pub one_complete : t.complete ≡ 1
  pub none_downloaded : t.downloaded ≡ 0
  pub keyed : PeersKeyed t.peers

abbrev pub IsConsistent : TrackerServer → Type 0
IsConsistent tk = (h : List ℕ) (t : TorrentTk) → lookup h tk.torrents ≡ some t → IsSound h t

pub insert-PeersKeyed :
    (pid : String) (new : PeerTk) (pool : PeersPool)
    → new.id ≡ pid
    → PeersKeyed pool
    → PeersKeyed (insert pid new pool)
insert-PeersKeyed pid new pool e k p q h =
    ground (arith, lookup-insert pid p new pool, string_eq.test_iff pid p, k p q)

pub insert-IsConsistent :
    (ih : List ℕ) (t' : TorrentTk) (tk : TrackerServer)
    → IsSound ih t'
    → IsConsistent tk
    → IsConsistent (record tk { torrents = insert ih t' tk.torrents })
insert-IsConsistent ih t' tk s c h t l = elim (Bool-cases (ih == h)) [
  | inl same ↦
      let e : ih ≡ h = (bytes_eq_iff ih h).0 same in
      let f : t' ≡ t = ground (arith, lookup-insert ih h t' tk.torrents) in
      subst (λ x. IsSound h x) f (subst (λ x. IsSound x t') e s)
  | inr other ↦ c h t (ground (arith, lookup-insert ih h t' tk.torrents))
]

pub publish_torrent-IsConsistent :
    (ih : List ℕ) (pid : String) (port : ℕ) (ip : List ℕ) (tk : TrackerServer)
    → IsConsistent tk
    → IsConsistent (publish_torrent ih pid port ip tk).0
unfolding publish_torrent
publish_torrent-IsConsistent ih pid port ip tk c = elim (Option-cases (lookup ih tk.torrents)) [
  | inl e ↦
      rw (e, publish_torrent)
        (insert-IsConsistent ih _ tk
          (record {
            hashed = refl;
            one_complete = refl;
            none_downloaded = refl;
            keyed = insert-PeersKeyed pid (seeder pid port ip) [] refl (λ p q h. cc);
          })
          c)
  | inr (t, e) ↦ elim (Bool-cases (has pid t.peers)) [
    | inl old ↦ rw (e, publish_torrent) (rw old c)
    | inr new ↦
        let s = c ih t e in
        rw (e, publish_torrent)
          (rw new (
            insert-IsConsistent ih _ tk
              (record {
                hashed = s.hashed;
                one_complete = s.one_complete;
                none_downloaded = s.none_downloaded;
                keyed = insert-PeersKeyed pid (seeder pid port ip) t.peers refl s.keyed;
              })
              c))
  ]
]

pub set_state-PeersKeyed :
    (id state : String) (pool pool' : PeersPool)
    → set_state id state pool ≡ some pool'
    → PeersKeyed pool
    → PeersKeyed pool'
unfolding set_state
set_state-PeersKeyed id state pool pool' h k = elim (Option-cases (lookup id pool)) [
  | inl e ↦ cc (rw (e, set_state) at h)
  | inr (p, e) ↦
      subst PeersKeyed (some-injective _ _ (rw (e, set_state) at h))
        (insert-PeersKeyed id (record p { state = state }) pool (k id p e) k)
]

-- How an event changes the peers of a torrent.
abbrev pub PeersAfter : ParseAnnounce → TorrentTk → TorrentTk → Type 0
PeersAfter pa t t' =
    (t'.peers ≡ t.peers)
    ⊎ (t'.peers ≡ insert pa.peer_id (new_peer pa) t.peers)
    ⊎ (set_state pa.peer_id "started" t.peers ≡ some t'.peers)
    ⊎ (set_state pa.peer_id "complete" t.peers ≡ some t'.peers)
    ⊎ (set_state pa.peer_id "stopped" t.peers ≡ some t'.peers)

pub apply_event-PeersAfter :
    (pa : ParseAnnounce) (t t' : TorrentTk) → apply_event pa t ≡ some t' → PeersAfter pa t t'
unfolding apply_event
apply_event-PeersAfter pa t t' h = ground arith

pub PeersAfter-PeersKeyed :
    (pa : ParseAnnounce) (t t' : TorrentTk)
    → PeersAfter pa t t'
    → PeersKeyed t.peers
    → PeersKeyed t'.peers
PeersAfter-PeersKeyed pa t t' (inl e) k = subst PeersKeyed (sym e) k
PeersAfter-PeersKeyed pa t t' (inr (inl e)) k =
    subst PeersKeyed (sym e) (insert-PeersKeyed pa.peer_id (new_peer pa) t.peers refl k)
PeersAfter-PeersKeyed pa t t' (inr (inr (inl e))) k =
    set_state-PeersKeyed pa.peer_id "started" t.peers t'.peers e k
PeersAfter-PeersKeyed pa t t' (inr (inr (inr (inl e)))) k =
    set_state-PeersKeyed pa.peer_id "complete" t.peers t'.peers e k
PeersAfter-PeersKeyed pa t t' (inr (inr (inr (inr e)))) k =
    set_state-PeersKeyed pa.peer_id "stopped" t.peers t'.peers e k
