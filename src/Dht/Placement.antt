-- ===== src/Dht/Placement.antt =====
-- routingTable.go: every node of the table stands once, in the bucket of its distance.
use bit_torrent_project.Common.{
  ℕ, zero, suc, ◌≡◌, refl, subst, List, true, false, some, set, get_elem?, replicate,
  length-replicate, nat_eq, bytes_eq, if◌then◌else◌, ok,
}
use bit_torrent_project.Dht.Node.{NetworkNode}
use bit_torrent_project.Dht.Table.{
  b_bits, Kbucket, RoutingTable, new_kbucket, new_routing_table, touch, update_bucket_of_node,
  remove_node,
}
use bit_torrent_project.Dht.Buckets.{exists-touch}
use bit_torrent_project.Dht.Removal.{without_id, remove_from_bucket-without_id}
use bit_torrent_project.Dht.Tables.{
  IsId, IsBucket, IsTable, index-IsTable, set-IsTable, touch-IsBucket, exists-without_id,
  without_id-IsBucket, knows, knows-set,
}

-- `updateBucketOfNode` on a table as it should be, for a node whose id is twenty bytes, returns: the
-- table stays as it should be, and it knows the ids that it knew before and the node's.
pub update_bucket_of_node-IsTable :
    (now : ℕ) (node : NetworkNode) (rt : RoutingTable) (id : List ℕ)
    → IsTable rt
    → IsId node.id
    → IsId id
    → (rt' : RoutingTable) × (update_bucket_of_node now node rt ≡ ok rt')
      × IsTable rt'
      × (knows rt' id ≡ (if bytes_eq node.id id then true else knows rt id))
unfolding update_bucket_of_node
update_bucket_of_node-IsTable now node rt id h hn hid =
    let (i, kb, l, e, g) = index-IsTable rt node.id h hn in
    let new : Kbucket = record { bucket = touch node kb.bucket; last_changed = now } in
    let b = h.placed i kb g in
    (
      record rt { table = set rt.table i new },
      rw (e, g) refl,
      set-IsTable rt i new h l (touch-IsBucket rt i node kb.bucket e b),
      knows-set rt i kb new id node.id true h hid l g e (exists-touch node id kb.bucket b.0),
    )

-- `RemoveNode` on a table as it should be, for an id of twenty bytes, returns: the table stays as
-- it should be, and it knows the ids that it knew before except this one.
pub remove_node-IsTable :
    (gone : List ℕ) (rt : RoutingTable) (id : List ℕ)
    → IsTable rt
    → IsId gone
    → IsId id
    → (rt' : RoutingTable) × (remove_node gone rt ≡ ok rt')
      × IsTable rt'
      × (knows rt' id ≡ (if bytes_eq gone id then false else knows rt id))
unfolding remove_node
remove_node-IsTable gone rt id h hn hid =
    let (i, kb, l, e, g) = index-IsTable rt gone h hn in
    let new : Kbucket = record kb { bucket = without_id gone kb.bucket } in
    let b = h.placed i kb g in
    (
      record rt { table = set rt.table i new },
      rw (e, g, remove_from_bucket-without_id gone kb.bucket b.0) refl,
      set-IsTable rt i new h l (without_id-IsBucket rt i gone kb.bucket b),
      knows-set rt i kb new id gone false h hid l g e (exists-without_id gone id kb.bucket b.0),
    )

get_elem?-replicate {ℓ} :
    {A : Type ℓ} (n i : ℕ) (a b : A) → get_elem? (replicate n a) i ≡ some b → a ≡ b
get_elem?-replicate zero i a b h = cc
get_elem?-replicate (suc n) zero a b h = cc
get_elem?-replicate (suc n) (suc i) a b h = get_elem?-replicate n i a b h

-- A new table for an own id of twenty bytes is as it should be.
pub new_routing_table-IsTable :
    (now : ℕ) (self : NetworkNode) → IsId self.id → IsTable (new_routing_table now self)
unfolding new_routing_table new_kbucket
new_routing_table-IsTable now self h = record {
  own_id = h;
  has_160_buckets = length-replicate b_bits (new_kbucket now);
  placed = λ i kb e.
      subst (λ (x : Kbucket). IsBucket (new_routing_table now self) i x.bucket)
        (get_elem?-replicate b_bits i (new_kbucket now) kb e) (tt, tt);
}
