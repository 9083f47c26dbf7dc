-- ===== src/Peer/Selection.antt =====
-- piece_selection.go. `rand.Intn` is an argument of `random_first`.
use bit_torrent_project.Common.{
  ℕ, ◌+◌, List, [], ◌∷◌, length, ltb, string_eq, if◌then◌else◌, ok, ◌>>=◌,
}
use bit_torrent_project.Wire.Words.{Wire}
use bit_torrent_project.Wire.Bitfield.{has_piece}

-- `NumberOfPeers`, over the peers' bitfields.
unfoldable pub number_of_peers : List (List ℕ) → ℕ → Wire ℕ
number_of_peers [] index = ok 0
number_of_peers (bf ∷ peers) index = do
  has_it ← has_piece bf index
  count ← number_of_peers peers index
  ok (if has_it then count + 1 else count)

-- The loop of `RarestFirst` from position `i` on, with `p` and `min` so far.
unfoldable pub rarest_loop : List (List ℕ) → ℕ → List ℕ → ℕ → ℕ → Wire ℕ
unfolding number_of_peers
rarest_loop peers i [] p min = ok p
rarest_loop peers i (index ∷ pieces) p min = do
  pc ← number_of_peers peers index
  rarest_loop peers (i + 1) pieces (if ltb pc min then i else p) (if ltb pc min then pc else min)

-- `RarestFirst`, over the indexes of the pieces that are left.
unfoldable pub rarest_first : List ℕ → List (List ℕ) → Wire ℕ
unfolding rarest_loop
rarest_first pieces peers = rarest_loop peers 0 pieces 0 (length peers + 1)
