-- ===== src/Peer/Choking.antt =====
-- uploader_client.go and torrent.go: a round of the choking algorithm. A connection is its position in
-- the list of peers, which stands for the pointer; `sort.Slice` and `rand.Intn` are arguments.
-- Writing does not fail, so that no flag changes in a round.
use bit_torrent_project.Common.{
  ℕ, ◌+◌, ◌%◌, List, [], ◌∷◌, ◌++◌, Bool, true, false, not, ◌&&◌, Option, none, some, length, take,
  get_elem?, ltb, ◌==◌, nat_eq, bytes_eq_instance, if◌then◌else◌, ok, err, panic, ◌>>=◌, or_panic,
}
use bit_torrent_project.Wire.Message.{Message, choke, unchoke}
use bit_torrent_project.Dht.Node.{Panics}
use bit_torrent_project.Peer.Connect.{bare}

pub record Contact : Type 0 where
  pub id : List ℕ
  pub peer_choked : Bool
  pub peer_interested : Bool

-- The positions from `i` on of the peers that pass a test.
abbrev pub positions : (Contact → Bool) → ℕ → List Contact → List ℕ
positions test i [] = []
positions test i (p ∷ peers) =
    let rest = positions test (i + 1) peers in if test p then i ∷ rest else rest

-- `contains`.
abbrev pub contains : List ℕ → ℕ → Bool
contains [] p = false
contains (q ∷ qs) p = if q == p then true else contains qs p

-- What lives through the rounds: the copy `optimisticChoked` with the position that it was copied
-- from, and `unchoked`, to which pointers to the copy are appended also: they are no peer's.
pub record Choker : Type 0 where
  pub optimistic : ℕ
  pub optimistic_id : List ℕ
  pub unchoked : List ℕ

abbrev pub unchokes : List ℕ → List (ℕ × Message)
unchokes [] = []
unchokes (p ∷ ps) = (p, bare unchoke) ∷ unchokes ps

-- Is the id among those of these peers?
abbrev pub is_contained : List Contact → List ℕ → List ℕ → Bool
is_contained peers [] id = false
is_contained peers (p ∷ ps) id =
    let rest = is_contained peers ps id in
    elim (get_elem? peers p) [ none ↦ rest | some c ↦ if c.id == id then true else rest ]

-- The last loop: CHOKE to every peer that is not in `unchoked`.
unfoldable pub choke_others : List ℕ → ℕ → List Contact → List (ℕ × Message)
choke_others unchoked i [] = []
choke_others unchoked i (p ∷ peers) =
    let rest = choke_others unchoked (i + 1) peers in
    if contains unchoked i then rest else (i, bare choke) ∷ rest

-- `rand.Intn` on a list, with this number: it panics on an empty one.
abbrev pub pick : ℕ → List ℕ → Panics ℕ
pick random ps = if length ps == 0 then panic else or_panic (get_elem? ps (random % length ps))

-- The loop that looks for another peer, with the random numbers that it draws: with `none` it needs
-- more.
unfoldable pub look_for_other :
    List ℕ → List Contact → Choker → Option (Panics (Choker × List (ℕ × Message)))
look_for_other [] peers ch = none
look_for_other (random ∷ randoms) peers ch =
    elim (pick random (positions (λ p. p.peer_choked && not (p.id == ch.optimistic_id)) 0 peers)) [
      | panic ↦ some panic
      | err x ↦ elim x [ ]
      | ok n ↦ elim (get_elem? peers n) [
        | none ↦ some panic
        | some p ↦
            let ch' : Choker = record {
              optimistic = n;
              optimistic_id = p.id;
              unchoked = ch.unchoked ++ n ∷ [];
            } in
            elim p.peer_interested [
              | true ↦ some (ok (ch', (n, bare unchoke) ∷ []))
              | false ↦ elim (look_for_other randoms peers ch') [
                | none ↦ none
                | some panic ↦ some panic
                | some (err x) ↦ elim x [ ]
                | some (ok (last, sent)) ↦ some (ok (last, (n, bare unchoke) ∷ sent))
              ]
            ]
      ]
    ]

-- The optimistic part of a round, after the best three.
unfoldable pub optimistic_part :
    List ℕ → List Contact → List ℕ → Choker → Option (Panics (Choker × List (ℕ × Message)))
unfolding look_for_other
optimistic_part randoms peers best ch =
    if is_contained peers best ch.optimistic_id
    then look_for_other randoms peers ch
    else some (ok (ch, (ch.optimistic, bare unchoke) ∷ []))

-- A round; `round` stays 0, so that each is one with an optimistic part. `guarded` tells the
-- version of torrent.go, which tests lengths, from the one of uploader_client.go, which does not.
unfoldable pub choke_round :
    Bool
    → (List ℕ → List ℕ)
    → ℕ
    → List ℕ
    → List Contact
    → Choker
    → Option (Panics (Choker × List (ℕ × Message)))
unfolding optimistic_part choke_others
choke_round guarded sort random randoms peers ch =
    let interested = sort (positions (λ p. p.peer_interested) 0 peers) in
    let candidates = positions (λ p. p.peer_interested && p.peer_choked) 0 peers in
    let best = take 3 interested in
    let chosen = pick random candidates >>= λ n.
    or_panic (get_elem? peers n) >>= λ p. ok (record ch { optimistic = n; optimistic_id = p.id }) in
    let skips = guarded && length candidates == 0 in
    elim (if skips then ok ch else chosen) [
      | panic ↦ some panic
      | err x ↦ elim x [ ]
      | ok ch1 ↦
          let ch2 = record ch1 { unchoked = ch1.unchoked ++ best } in
          elim (not guarded && ltb (length interested) 3) [
            | true ↦ some panic
            | false ↦
                elim (if skips
                  then some (ok (ch2, []))
                  else optimistic_part randoms peers best ch2) [
                    | none ↦ none
                    | some panic ↦ some panic
                    | some (err x) ↦ elim x [ ]
                    | some (ok (ch3, sent)) ↦
                        some
                          (ok (ch3, unchokes best ++ (sent ++ choke_others ch3.unchoked 0 peers)))
                  ]
          ]
    ]

-- `Choke` of uploader_client.go, one round on a list of peers that is not empty.
unfoldable pub uploader_choke :
    (List ℕ → List ℕ)
    → ℕ
    → List ℕ
    → List Contact
    → Choker
    → Option (Panics (Choker × List (ℕ × Message)))
unfolding choke_round
uploader_choke = choke_round false

-- `Choke` of torrent.go, one round. `StartConnectionWithPeer` puts the program's own id into every
-- client, so that all of its contacts have one id.
unfoldable pub torrent_choke :
    (List ℕ → List ℕ)
    → ℕ
    → List ℕ
    → List Contact
    → Choker
    → Option (Panics (Choker × List (ℕ × Message)))
unfolding choke_round
torrent_choke = choke_round true
