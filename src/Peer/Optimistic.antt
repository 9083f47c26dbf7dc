-- ===== src/Peer/Optimistic.antt =====
-- uploader_client.go and torrent.go: what the choking algorithm does to the peer that it picks.
use bit_torrent_project.Common.{ℕ, ◌≡◌, ◌⊎◌, List, [], ◌∷◌, take, nat_eq, bytes_eq_instance}
use bit_torrent_project.Wire.Message.{Message}
use bit_torrent_project.Peer.Choking.{Contact, positions}

-- A message to this peer is among those that are sent.
abbrev pub IsSent : ℕ → Message → List (ℕ × Message) → Type 0
IsSent p m [] = ⊥
IsSent p m ((q, n) ∷ sent) = ((q ≡ p) × (n ≡ m)) ⊎ IsSent p m sent

-- The best three of the peers that are interested.
abbrev pub best_three : (List ℕ → List ℕ) → List Contact → List ℕ
best_three sort peers = take 3 (sort (positions (λ p. p.peer_interested) 0 peers))
