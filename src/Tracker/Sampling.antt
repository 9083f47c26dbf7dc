-- ===== src/Tracker/Sampling.antt =====
-- tacker.go: how many and which peers `getRandomPeers` returns, and what `torrentStats` counts.
use bit_torrent_project.Common.{
  ℕ, ◌+◌, ◌≤◌, ◌<◌, [], ◌∷◌, length, All, Bool, true, false, not, ◌&&◌, ◌||◌, String, ◌==◌, ◌≡◌,
  refl, sym, suc, subst, All-weaken, nat_eq, string_eq, if◌then◌else◌, arith, eq_self,
}
use bit_torrent_project.Common.Dict.{has, length-insert, has-insert}
use bit_torrent_project.Tracker.State.{Net, PeerTk, PeersPool}
use bit_torrent_project.Tracker.Queries.{
  Sample, sample_seeder, sample_starter, first_loop, second_loop, max_peers, clip, get_random_peers,
  torrent_stats_loop, count_state,
}

module _ (net : Net) (exclude : String) (n : ℕ) where
  -- No more entries than the count, and the count below the limit.
  abbrev Within : Sample → Type 0
  Within acc = (length acc.1 ≤ acc.0) × (acc.0 + 1 ≤ n)

  first_loop-Within :
      (pool : PeersPool) (acc : Sample)
      → Within acc
      → acc.0 + 1 < n
      → Within (first_loop net exclude n pool acc)
  unfolding first_loop
  first_loop-Within [] acc w lt = w
  first_loop-Within ((k, p) ∷ pool) acc w lt = ground (
    arith,
    length-insert p.id (net.addr_string p.ip p.port) acc.1,
    first_loop-Within pool (sample_seeder net exclude k p acc),
  )

  second_loop-Within :
      (pool : PeersPool) (acc : Sample) → Within acc → Within (second_loop net exclude n pool acc)
  unfolding second_loop
  second_loop-Within [] acc w = w
  second_loop-Within ((k, p) ∷ pool) acc w = ground (
    arith,
    length-insert p.id (net.addr_string p.ip p.port) acc.1,
    second_loop-Within pool (sample_starter net exclude k p acc),
  )

-- Where at least two peers are left to choose from and two are wanted, the answer holds one peer
-- less than are wanted, or fewer, whatever orders the two loops range in.
pub get_random_peers_bound :
    (net : Net) (pool again : PeersPool) (exclude : String) (num_want : ℕ)
    → 2 ≤ num_want
    → 2 ≤ max_peers pool exclude
    → length (get_random_peers net pool again exclude num_want) + 1 ≤ num_want
unfolding get_random_peers
get_random_peers_bound net pool again exclude num_want w m =
    let n = clip num_want (max_peers pool exclude) in
    let two : 2 ≤ clip num_want (max_peers pool exclude) = ground arith in
    let most : clip num_want (max_peers pool exclude) ≤ num_want = ground arith in
    let (short, below) =
      second_loop-Within net exclude n again (first_loop net exclude n pool (0, []))
        (first_loop-Within net exclude n pool (0, []) (omega arith) (omega arith)) in
    omega arith

-- Every peer is stored under its own id.
abbrev pub Matches : PeersPool → Type 0
Matches = All (λ e. e.1.id ≡ e.0)

module _ (net : Net) (exclude : String) (n : ℕ) where
  abbrev Excludes : Sample → Type 0
  Excludes acc = has exclude acc.1 ≡ false

  first_loop-Excludes :
      (pool : PeersPool) (acc : Sample)
      → Matches pool
      → Excludes acc
      → Excludes (first_loop net exclude n pool acc)
  unfolding first_loop
  first_loop-Excludes [] acc m x = x
  first_loop-Excludes ((k, p) ∷ pool) acc m x = ground (
    arith,
    has-insert p.id exclude (net.addr_string p.ip p.port) acc.1,
    string_eq.test_iff k exclude,
    string_eq.test_iff p.id exclude,
    first_loop-Excludes pool (sample_seeder net exclude k p acc) m.1,
  )

  second_loop-Excludes :
      (pool : PeersPool) (acc : Sample)
      → Matches pool
      → Excludes acc
      → Excludes (second_loop net exclude n pool acc)
  unfolding second_loop
  second_loop-Excludes [] acc m x = x
  second_loop-Excludes ((k, p) ∷ pool) acc m x = ground (
    arith,
    has-insert p.id exclude (net.addr_string p.ip p.port) acc.1,
    string_eq.test_iff k exclude,
    string_eq.test_iff p.id exclude,
    second_loop-Excludes pool (sample_starter net exclude k p acc) m.1,
  )

-- The peer that asks is not among those it is told of.
pub get_random_peers_excludes :
    (net : Net) (pool again : PeersPool) (exclude : String) (num_want : ℕ)
    → Matches pool
    → Matches again
    → has exclude (get_random_peers net pool again exclude num_want) ≡ false
unfolding get_random_peers
get_random_peers_excludes net pool again exclude num_want m m' =
    let n = clip num_want (max_peers pool exclude) in
    second_loop-Excludes net exclude n again (first_loop net exclude n pool (0, [])) m'
      (first_loop-Excludes net exclude n pool (0, []) m refl)

-- A peer that the first loop is after.
abbrev pub is_seeder : String → String × PeerTk → Bool
is_seeder exclude e =
    not (e.0 == exclude) && (not (e.1.state == "stopped") && not (e.1.state == "started"))

module _ (net : Net) (exclude : String) (n : ℕ) where
  first_loop_keeps :
      (pool : PeersPool) (acc : Sample) (id : String)
      → has id acc.1 ≡ true
      → has id (first_loop net exclude n pool acc).1 ≡ true
  unfolding first_loop
  first_loop_keeps [] acc id h = h
  first_loop_keeps ((k, p) ∷ pool) acc id h = ground (
    arith,
    has-insert p.id id (net.addr_string p.ip p.port) acc.1,
    string_eq.test_iff p.id id,
    first_loop_keeps pool (sample_seeder net exclude k p acc) id,
  )

  second_loop_keeps :
      (pool : PeersPool) (acc : Sample) (id : String)
      → has id acc.1 ≡ true
      → has id (second_loop net exclude n pool acc).1 ≡ true
  unfolding second_loop
  second_loop_keeps [] acc id h = h
  second_loop_keeps ((k, p) ∷ pool) acc id h = ground (
    arith,
    has-insert p.id id (net.addr_string p.ip p.port) acc.1,
    string_eq.test_iff p.id id,
    second_loop_keeps pool (sample_starter net exclude k p acc) id,
  )

  -- Past its limit the first loop never stops, and takes every seeder.
  abbrev Taken : Sample → PeersPool → Type 0
  Taken acc = All (λ e. (not (is_seeder exclude e) || has e.1.id acc.1) ≡ true)

  first_loop_step :
      (k : String) (p : PeerTk) (pool : PeersPool) (acc : Sample)
      → n ≤ 1
      → 1 ≤ acc.0
      → (first_loop net exclude n ((k, p) ∷ pool) acc
          ≡ first_loop net exclude n pool (sample_seeder net exclude k p acc))
        × (1 ≤ (sample_seeder net exclude k p acc).0)
        × ((not (is_seeder exclude (k, p)) || has p.id (sample_seeder net exclude k p acc).1)
            ≡ true)
  unfolding first_loop
  first_loop_step k p pool acc small far =
      let entry = has-insert p.id p.id (net.addr_string p.ip p.port) acc.1 in
      (ground arith, ground arith, ground (arith, entry, eq_self p.id))

  first_loop_takes_all :
      (pool : PeersPool) (acc : Sample)
      → n ≤ 1
      → 1 ≤ acc.0
      → Taken (first_loop net exclude n pool acc) pool
  first_loop_takes_all [] acc small far = tt
  first_loop_takes_all ((k, p) ∷ pool) acc small far =
      let acc' = sample_seeder net exclude k p acc in
      let (same, far', head) = first_loop_step k p pool acc small far in
      subst (λ r. Taken r ((k, p) ∷ pool)) (sym same)
        (ground (arith, first_loop_keeps pool acc' p.id), first_loop_takes_all pool acc' small far')

  first_loop_starts :
      (k : String) (p : PeerTk) (pool : PeersPool)
      → n ≤ 1
      → is_seeder exclude (k, p) ≡ true
      → (first_loop net exclude n ((k, p) ∷ pool) (0, [])
          ≡ first_loop net exclude n pool (sample_seeder net exclude k p (0, [])))
        × (1 ≤ (sample_seeder net exclude k p (0, [])).0)
        × (has p.id (sample_seeder net exclude k p (0, [])).1 ≡ true)
  unfolding first_loop
  first_loop_starts k p pool small h = (ground arith, ground arith, ground (arith, eq_self p.id))

  Taken-second_loop :
      (pool again : PeersPool) (acc : Sample)
      → Taken acc pool
      → Taken (second_loop net exclude n again acc) pool
  Taken-second_loop pool again acc =
      All-weaken (λ e h. ground (arith, second_loop_keeps again acc e.1.id)) pool

-- Who asks for one peer is told of every seeder but itself, where the range happens to begin with
-- one.
pub get_random_peers_one :
    (net : Net) (k : String) (p : PeerTk) (pool again : PeersPool) (exclude : String)
    → is_seeder exclude (k, p) ≡ true
    → All
        (λ e.
          (not (is_seeder exclude e)
            || has e.1.id (get_random_peers net ((k, p) ∷ pool) again exclude 1))
          ≡ true)
        ((k, p) ∷ pool)
unfolding get_random_peers
get_random_peers_one net k p pool again exclude h =
    let n = clip 1 (max_peers ((k, p) ∷ pool) exclude) in
    let small : n ≤ 1 = ground arith in
    let first = sample_seeder net exclude k p (0, []) in
    let (same, far, taken) = first_loop_starts net exclude n k p pool small h in
    let kept = first_loop_keeps net exclude n pool first p.id taken in
    Taken-second_loop net exclude n ((k, p) ∷ pool) again
      (first_loop net exclude n ((k, p) ∷ pool) (0, []))
      (subst (λ r. Taken net exclude n r ((k, p) ∷ pool)) (sym same)
        (ground (arith, kept), first_loop_takes_all net exclude n pool first small far))

-- The statistics of a torrent count each peer that has not stopped, as complete or incomplete.
abbrev pub running : PeersPool → ℕ
running [] = 0
running ((k, p) ∷ pool) = if p.state == "stopped" then running pool else suc (running pool)

torrent_stats_loop-total :
    (pool : PeersPool) (acc : ℕ × ℕ)
    → (torrent_stats_loop pool acc).0 + (torrent_stats_loop pool acc).1
      ≡ acc.0 + acc.1 + running pool
torrent_stats_loop-total [] acc = omega arith
torrent_stats_loop-total ((k, p) ∷ pool) acc =
    ground (arith, torrent_stats_loop-total pool (count_state p.state acc))
