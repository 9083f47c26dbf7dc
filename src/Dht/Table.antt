-- ===== src/Dht/Table.antt =====
-- routingTable.go and kbucket.go. Time is an argument; the mutex is held for each whole operation
-- and given back by `defer`, so that operations are steps.
use Prim.Native.Nat.{bit_and, bit_xor}
use bit_torrent_project.Common.{
  ℕ, zero, suc, ◌+◌, ◌-◌, ◌*◌, ◌^◌, List, [], ◌∷◌, ◌++◌, true, false, Option, none, some, length,
  take, drop, get_elem?, set, replicate, ltb, nat_eq, bytes_eq, if◌then◌else◌, ok, panic, ◌>>=◌,
  or_panic,
}
use bit_torrent_project.Dht.Node.{NetworkNode, Panics, append_unique, sort_nodes, get_distance}

abbrev pub k_max : ℕ
k_max = 20

abbrev pub b_bits : ℕ
b_bits = 160

pub record Kbucket : Type 0 where
  pub bucket : List NetworkNode
  pub last_changed : ℕ

pub record RoutingTable : Type 0 where
  pub self : NetworkNode
  pub table : List Kbucket

unfoldable pub new_kbucket : ℕ → Kbucket
new_kbucket now = record { bucket = []; last_changed = now }

-- `newRoutingTable` for options with an id, an IP and a port.
unfoldable pub new_routing_table : ℕ → NetworkNode → RoutingTable
unfolding new_kbucket
new_routing_table now self = record { self = self; table = replicate b_bits (new_kbucket now) }

-- The inner loop of `getFirstDifBitBucketIndex`: the first bit of `xor` that is set, from bit `j`
-- on, in so many rounds.
unfoldable pub first_bit : ℕ → ℕ → ℕ → Option ℕ
first_bit zero j xor = none
first_bit (suc rounds) j xor =
    let rest = first_bit rounds (j + 1) xor in
    if ltb 0 (bit_and xor (2 ^ (7 - j))) then some j else rest

-- `B - 8*i - j - 1`; where that is negative, the access to the table that follows panics.
abbrev pub bucket_at : ℕ → ℕ → Panics ℕ
bucket_at i j = if ltb b_bits (8 * i + j + 1) then panic else ok (b_bits - (8 * i + j + 1))

-- The outer loop, from byte `i` on: the bytes that are left of the id and of the own id.
unfoldable pub first_dif : ℕ → List ℕ → List ℕ → Panics ℕ
first_dif i [] own = ok 0
first_dif i (b ∷ node) [] = panic
first_dif i (b ∷ node) (c ∷ own) =
    let rest = first_dif (i + 1) node own in
    elim (first_bit 8 0 (bit_xor b c)) [ none ↦ rest | some j ↦ bucket_at i j ]

unfoldable pub get_first_dif_bit_bucket_index : RoutingTable → List ℕ → Panics ℕ
get_first_dif_bit_bucket_index rt node = first_dif 0 node rt.self.id

-- `nodeInBucket`: the index of the node, with `none` for -1.
unfoldable pub node_index : List ℕ → List NetworkNode → Option ℕ
node_index id [] = none
node_index id (n ∷ ns) =
    if bytes_eq n.id id
    then some 0
    else (elim (node_index id ns) [ none ↦ none | some i ↦ some (i + 1) ])

-- A node that is new goes to the end; one that is there moves to the end, as it was.
unfoldable pub touch : NetworkNode → List NetworkNode → List NetworkNode
unfolding node_index
touch node bucket = elim (node_index node.id bucket) [
  | none ↦ bucket ++ node ∷ []
  | some i ↦ take i bucket ++ (drop (i + 1) bucket ++ take 1 (drop i bucket))
]

unfoldable pub update_bucket_of_node : ℕ → NetworkNode → RoutingTable → Panics RoutingTable
unfolding touch
update_bucket_of_node now node rt = do
  index ← get_first_dif_bit_bucket_index rt node.id
  kb ← or_panic (get_elem? rt.table index)
  ok (record rt {
    table = set rt.table index (record { bucket = touch node kb.bucket; last_changed = now });
  })

-- The loop of `RemoveNode` ranges over the old slice while it shortens the bucket in place: `arr`
-- is the array behind both, `n` the bucket's length now, `i` the index in the old slice.
unfoldable pub remove_loop : ℕ → ℕ → List ℕ → List NetworkNode → ℕ → Panics (List NetworkNode)
remove_loop zero i id arr n = ok (take n arr)
remove_loop (suc rounds) i id arr n = elim (get_elem? arr i) [
  | none ↦ panic
  | some v ↦ elim (bytes_eq v.id id) [
    | false ↦ remove_loop rounds (i + 1) id arr n
    | true ↦ elim (ltb n (i + 1)) [
      | true ↦ panic
      | false ↦
          remove_loop rounds (i + 1) id
            (take i arr ++ (drop (i + 1) (take n arr) ++ drop (n - 1) arr)) (n - 1)
    ]
  ]
]

unfoldable pub remove_from_bucket : List ℕ → List NetworkNode → Panics (List NetworkNode)
unfolding remove_loop
remove_from_bucket id bucket = remove_loop (length bucket) 0 id bucket (length bucket)

unfoldable pub remove_node : List ℕ → RoutingTable → Panics RoutingTable
unfolding remove_from_bucket
remove_node id rt = do
  index ← get_first_dif_bit_bucket_index rt id
  kb ← or_panic (get_elem? rt.table index)
  bucket ← remove_from_bucket id kb.bucket
  ok (record rt { table = set rt.table index (record kb { bucket = bucket }) })

unfoldable pub total_in : List Kbucket → ℕ
total_in [] = 0
total_in (kb ∷ kbs) = length kb.bucket + total_in kbs

unfoldable pub get_total_known_nodes : RoutingTable → ℕ
unfolding total_in
get_total_known_nodes rt = total_in rt.table

-- The order in which `getNearestNodes` visits the buckets after the first: `low` buckets lie below
-- (`i` is `low - 1`), and `j` is the next above.
unfoldable pub spread : ℕ → ℕ → ℕ → List ℕ
spread zero low j = []
spread (suc rounds) low j =
    let rest = spread rounds (low - 1) (j + 1) in
    let above = if ltb j b_bits then j ∷ rest else rest in
    if ltb 0 low then (low - 1) ∷ above else above

unfoldable pub indexes : ℕ → List ℕ
indexes index = index ∷ spread b_bits index (index + 1)

-- One bucket: nodes are appended until `to_add` reaches 0, and each counts, also one that is there
-- already.
unfoldable pub collect_bucket : ℕ → List NetworkNode → List NetworkNode → List NetworkNode × ℕ
collect_bucket zero nodes vs = (nodes, 0)
collect_bucket (suc to_add) nodes [] = (nodes, suc to_add)
collect_bucket (suc to_add) nodes (v ∷ vs) = collect_bucket to_add (append_unique nodes (v ∷ [])) vs

unfoldable pub collect : List ℕ → List Kbucket → List NetworkNode → ℕ → Panics (List NetworkNode)
unfolding collect_bucket
collect [] table nodes to_add = ok nodes
collect (index ∷ rest) table nodes zero = ok nodes
collect (index ∷ rest) table nodes (suc to_add) = elim (get_elem? table index) [
  | none ↦ panic
  | some kb ↦
      collect rest table (collect_bucket (suc to_add) nodes kb.bucket).0
        (collect_bucket (suc to_add) nodes kb.bucket).1
]

unfoldable pub get_nearest_nodes : ℕ → List ℕ → RoutingTable → Panics (List NetworkNode)
unfolding collect
get_nearest_nodes num id rt = do
  index ← get_first_dif_bit_bucket_index rt id
  nodes ← collect (indexes index) rt.table [] num
  ok (sort_nodes id nodes)

-- The nodes of a bucket that are nearer to `id` than the own id is: `d2 - d1` is negative.
unfoldable pub closer_than : List ℕ → List ℕ → List NetworkNode → List NetworkNode
closer_than own id [] = []
closer_than own id (n ∷ ns) =
    if ltb (get_distance n.id id) (get_distance own id)
    then n ∷ closer_than own id ns
    else closer_than own id ns

unfoldable pub get_nodes_in_bucket_closest_than_rt :
    List ℕ → RoutingTable → Panics (List NetworkNode)
unfolding closer_than
get_nodes_in_bucket_closest_than_rt id rt = do
  index ← get_first_dif_bit_bucket_index rt id
  kb ← or_panic (get_elem? rt.table index)
  ok (closer_than rt.self.id id kb.bucket)
