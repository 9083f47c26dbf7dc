-- ===== src/Dht/Buckets.antt =====
-- routingTable.go and node.go: what the operations on one bucket do to its nodes.
use bit_torrent_project.Common.{
  ℕ, ◌≡◌, refl, List, [], ◌∷◌, ◌++◌, true, false, nat_eq, bytes_eq, bytes_eq_iff, if◌then◌else◌,
  arith,
}
use bit_torrent_project.Dht.Node as Node
use bit_torrent_project.Dht.Node.{NetworkNode, exists}
use bit_torrent_project.Dht.Table.{node_index, touch}

-- No two nodes have one id.
abbrev pub IsDistinct : List NetworkNode → Type 0
IsDistinct [] = Unit {0}
IsDistinct (n ∷ ns) = (exists n.id ns ≡ false) × IsDistinct ns

-- The node with the id of `node`, or `node` itself.
abbrev pub known : NetworkNode → List NetworkNode → NetworkNode
known node [] = node
known node (m ∷ ms) = if bytes_eq m.id node.id then m else known node ms

-- `updateBucketOfNode` on its bucket: the node goes from its place, if it has one, to the end.
pub touch-remove_node :
    (node : NetworkNode) (bucket : List NetworkNode)
    → touch node bucket ≡ Node.remove_node node bucket ++ known node bucket ∷ []
unfolding touch node_index Node.remove_node
touch-remove_node node [] = refl
touch-remove_node node (m ∷ ms) = ground (arith, touch-remove_node node ms)

pub exists-append :
    (id : List ℕ) (ns ms : List NetworkNode)
    → exists id (ns ++ ms) ≡ (if exists id ns then true else exists id ms)
unfolding exists
exists-append id [] ms = refl
exists-append id (n ∷ ns) ms = ground (arith, exists-append id ns ms)

exists-remove_node :
    (node : NetworkNode) (id : List ℕ) (ns : List NetworkNode)
    → IsDistinct ns
    → exists id (Node.remove_node node ns) ≡ (if bytes_eq node.id id then false else exists id ns)
unfolding exists Node.remove_node
exists-remove_node node id [] h = ground arith
exists-remove_node node id (n ∷ ns) h = ground (
  arith,
  exists-remove_node node id ns h.1,
  bytes_eq_iff n.id node.id,
  bytes_eq_iff node.id id,
  bytes_eq_iff n.id id,
)

pub known-id : (node : NetworkNode) (ns : List NetworkNode) → (known node ns).id ≡ node.id
known-id node [] = refl
known-id node (n ∷ ns) = ground (arith, known-id node ns, bytes_eq_iff n.id node.id)

remove_node-IsDistinct :
    (node : NetworkNode) (ns : List NetworkNode)
    → IsDistinct ns
    → IsDistinct (Node.remove_node node ns)
unfolding Node.remove_node
remove_node-IsDistinct node [] h = tt
remove_node-IsDistinct node (n ∷ ns) h =
    ground (arith, remove_node-IsDistinct node ns h.1, exists-remove_node node n.id ns h.1)

append-IsDistinct :
    (ns : List NetworkNode) (n : NetworkNode)
    → IsDistinct ns
    → exists n.id ns ≡ false
    → IsDistinct (ns ++ n ∷ [])
unfolding exists
append-IsDistinct [] n h e = (refl, tt)
append-IsDistinct (m ∷ ns) n h e = ground (
  arith,
  append-IsDistinct ns n h.1,
  exists-append m.id ns (n ∷ []),
  bytes_eq_iff n.id m.id,
  bytes_eq_iff m.id n.id,
)

pub touch-IsDistinct :
    (node : NetworkNode) (bucket : List NetworkNode)
    → IsDistinct bucket
    → IsDistinct (touch node bucket)
touch-IsDistinct node bucket h = rw (touch-remove_node node bucket) (
    append-IsDistinct (Node.remove_node node bucket) (known node bucket)
      (remove_node-IsDistinct node bucket h)
      (ground (
        arith,
        exists-remove_node node (known node bucket).id bucket h,
        known-id node bucket,
        bytes_eq_iff node.id (known node bucket).id,
      )))

-- The ids in a bucket after `updateBucketOfNode`: those before and the node's.
pub exists-touch :
    (node : NetworkNode) (id : List ℕ) (bucket : List NetworkNode)
    → IsDistinct bucket
    → exists id (touch node bucket) ≡ (if bytes_eq node.id id then true else exists id bucket)
unfolding exists
exists-touch node id bucket h = rw (touch-remove_node node bucket) (
    ground (
      arith,
      exists-append id (Node.remove_node node bucket) (known node bucket ∷ []),
      exists-remove_node node id bucket h,
      known-id node bucket,
      bytes_eq_iff node.id id,
      bytes_eq_iff (known node bucket).id id,
    ))
