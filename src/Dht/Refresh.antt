-- ===== src/Dht/Refresh.antt =====
-- routingTable.go: the state of single buckets and the random id of a bucket.
use Prim.Native.Nat.{bit_and}
use bit_torrent_project.Common.{
  ℕ, zero, suc, ◌+◌, ◌-◌, ◌*◌, ◌/◌, ◌%◌, ◌^◌, List, [], ◌∷◌, ◌++◌, length, take, get_elem?, set,
  ltb, ◌==◌, nat_eq, if◌then◌else◌, ok, ◌>>=◌, or_panic,
}
use bit_torrent_project.Dht.Node.{Panics}
use bit_torrent_project.Dht.Table.{b_bits, RoutingTable}

unfoldable pub set_ip : List ℕ → RoutingTable → RoutingTable
set_ip ip rt = record rt { self = record rt.self { ip = ip } }

unfoldable pub set_port : ℕ → RoutingTable → RoutingTable
set_port port rt = record rt { self = record rt.self { port = port } }

unfoldable pub reset_last_time_changed : ℕ → ℕ → RoutingTable → Panics RoutingTable
reset_last_time_changed now bucket rt = do
  kb ← or_panic (get_elem? rt.table bucket)
  ok (record rt { table = set rt.table bucket (record kb { last_changed = now }) })

unfoldable pub get_last_time_changed : ℕ → RoutingTable → Panics ℕ
get_last_time_changed bucket rt = or_panic (get_elem? rt.table bucket) >>= λ kb. ok kb.last_changed

unfoldable pub get_total_nodes_in_bucket : ℕ → RoutingTable → Panics ℕ
get_total_nodes_in_bucket b rt = or_panic (get_elem? rt.table b) >>= λ kb. ok (length kb.bucket)

-- The bits 7, 6, … of a byte, so many.
unfoldable pub high_bits : ℕ → ℕ → ℕ
high_bits zero x = 0
high_bits (suc n) x = high_bits n x + bit_and x (2 ^ (7 - n))

-- Random bits for the places from `i` on, in so many rounds.
unfoldable pub low_bits : (ℕ → ℕ) → ℕ → ℕ → ℕ
low_bits bit zero i = 0
low_bits bit (suc rounds) i = bit i % 2 * 2 ^ (7 - i) + low_bits bit rounds (i + 1)

-- The byte of the random id after those that it has from the own id, whose byte at this place is
-- `x`. `firstDif` is -1 where `(160 - b) % 8` is 0: then `1 << 8` is 0 in a uint8, and all bits are
-- random. In `uint8(x)&1<<(7-firstDif)` the two operators have one precedence.
unfoldable pub first_dif_byte : (ℕ → ℕ) → ℕ → ℕ → ℕ
unfolding high_bits low_bits
first_dif_byte bit zero x = low_bits bit 8 0 % 256
first_dif_byte bit (suc first_dif) x =
    let flipped = if bit_and x 1 * 2 ^ (7 - first_dif) % 256 == 0 then 2 ^ (7 - first_dif) else 0 in
    (high_bits first_dif x + flipped + low_bits bit (7 - first_dif) (first_dif + 1)) % 256

-- Random bytes for the places from `i` on.
unfoldable pub random_bytes : (ℕ → ℕ) → ℕ → ℕ → List ℕ
random_bytes byte zero i = []
random_bytes byte (suc rounds) i = byte i % 256 ∷ random_bytes byte rounds (i + 1)

-- `getRandomIDFromBucket` for a bucket below 160, with the random bits and bytes by their places.
unfoldable pub get_random_id_from_bucket : (ℕ → ℕ) → (ℕ → ℕ) → ℕ → RoutingTable → Panics (List ℕ)
unfolding first_dif_byte random_bytes
get_random_id_from_bucket bit byte b rt = do
  let equals_bytes = (b_bits - b + 7) / 8 - 1
  x ← or_panic (get_elem? rt.self.id equals_bytes)
  ok (
      take equals_bytes rt.self.id
      ++ (first_dif_byte bit ((b_bits - b) % 8) x
          ∷ random_bytes byte (20 - (equals_bytes + 1)) (equals_bytes + 1)))

-- The test of a tick of `RefreshBucket`, and the id that it looks up.
unfoldable pub refresh_target :
    (ℕ → ℕ) → (ℕ → ℕ) → ℕ → ℕ → ℕ → RoutingTable → Panics (List (List ℕ))
unfolding get_random_id_from_bucket
refresh_target bit byte now time_to_refresh bucket rt = do
  kb ← or_panic (get_elem? rt.table bucket)
  if ltb (kb.last_changed + time_to_refresh) now
      then (get_random_id_from_bucket bit byte bucket rt >>= λ id. ok (id ∷ []))
      else ok []
