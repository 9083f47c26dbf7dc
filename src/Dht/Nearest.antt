-- ===== src/Dht/Nearest.antt =====
-- routingTable.go: `getNearestNodes`, its walk over the buckets and its result.
use bit_torrent_project.Common.{
  ℕ, zero, suc, ◌+◌, ◌-◌, ◌≤◌, ◌<◌, ◌≡◌, refl, sym, subst, List, [], ◌∷◌, ◌&&◌, length, All,
  length-append, get_elem?-some, ltb, leb, ◌==◌, nat_eq, if◌then◌else◌, ok, arith,
}
use bit_torrent_project.Dht.Node.{
  NetworkNode, append_unique, less, get_distance, insert_node, sort_nodes,
}
use bit_torrent_project.Dht.Table.{
  b_bits, Kbucket, RoutingTable, spread, indexes, collect_bucket, collect, get_nearest_nodes,
}
use bit_torrent_project.Dht.Tables.{IsId, IsTable, index-IsTable}

abbrev pub count : ℕ → List ℕ → ℕ
count i [] = 0
count i (j ∷ js) = let rest = count i js in if j == i then rest + 1 else rest

count-spread :
    (rounds low j i : ℕ)
    → low ≤ rounds
    → 160 ≤ rounds + j
    → low ≤ j
    → count i (spread rounds low j)
      ≡ (if ltb i low then 1 else if leb j i && ltb i 160 then 1 else 0)
unfolding spread
count-spread zero low j i h k l = ground arith
count-spread (suc rounds) low j i h k l = ground (arith, count-spread rounds (low - 1) (j + 1) i)

-- `getNearestNodes` visits each of the 160 buckets exactly once, whichever bucket it begins with,
-- and no other index.
pub indexes-once :
    (index i : ℕ) → index < 160 → count i (indexes index) ≡ (if ltb i 160 then 1 else 0)
unfolding indexes
indexes-once index i h =
    ground
      (arith, count-spread b_bits index (index + 1) i (omega arith) (omega arith) (omega arith))

spread-below : (rounds low j : ℕ) → low ≤ 160 → All (λ i. i < 160) (spread rounds low j)
unfolding spread
spread-below zero low j h = tt
spread-below (suc rounds) low j h = ground (arith, spread-below rounds (low - 1) (j + 1))

pub indexes-below : (index n : ℕ) → index < 160 → n ≡ 160 → All (λ i. i < n) (indexes index)
unfolding indexes
indexes-below index n h e =
    subst (λ n. All (λ i. i < n) (indexes index)) (sym e)
      (h, spread-below b_bits index (index + 1) (omega arith))

append_unique-length :
    (nodes : List NetworkNode) (v : NetworkNode)
    → length (append_unique nodes (v ∷ [])) ≤ length nodes + 1
unfolding append_unique
append_unique-length nodes v = ground (arith, length-append nodes (v ∷ []))

collect_bucket-length :
    (to_add : ℕ) (nodes vs : List NetworkNode)
    → length (collect_bucket to_add nodes vs).0 + (collect_bucket to_add nodes vs).1
      ≤ length nodes + to_add
unfolding collect_bucket
collect_bucket-length zero nodes vs = omega arith
collect_bucket-length (suc to_add) nodes [] = omega arith
collect_bucket-length (suc to_add) nodes (v ∷ vs) = omega (
  arith,
  collect_bucket-length to_add (append_unique nodes (v ∷ [])) vs,
  append_unique-length nodes v,
)

collect-total :
    (is : List ℕ) (table : List Kbucket) (nodes : List NetworkNode) (to_add : ℕ)
    → All (λ i. i < length table) is
    → (found : List NetworkNode) × (collect is table nodes to_add ≡ ok found)
      × (length found ≤ length nodes + to_add)
unfolding collect
collect-total [] table nodes to_add h = (nodes, refl, omega arith)
collect-total (i ∷ is) table nodes zero h = (nodes, refl, omega arith)
collect-total (i ∷ is) table nodes (suc to_add) h =
    let (kb, g) = get_elem?-some table i h.0 in
    let r = collect_bucket (suc to_add) nodes kb.bucket in
    let (found, e, l) = collect-total is table r.0 r.1 h.1 in
    (found, rw (g, collect) e, omega (arith, l, collect_bucket-length (suc to_add) nodes kb.bucket))

-- No node is nearer than the one before it.
abbrev pub IsNearestFirst : List ℕ → List NetworkNode → Type 0
IsNearestFirst id [] = Unit {0}
IsNearestFirst id (n ∷ ns) =
    All (λ m. get_distance n.id id ≤ get_distance m.id id) ns × IsNearestFirst id ns

insert_node-All :
    (d : ℕ) (id : List ℕ) (n : NetworkNode) (ns : List NetworkNode)
    → d ≤ get_distance n.id id
    → All (λ m. d ≤ get_distance m.id id) ns
    → All (λ m. d ≤ get_distance m.id id) (insert_node id n ns)
unfolding insert_node
insert_node-All d id n [] h k = (h, tt)
insert_node-All d id n (m ∷ ns) h k = ground (arith, insert_node-All d id n ns h k.1)

farther_trans :
    (d e : ℕ) (id : List ℕ) (ns : List NetworkNode)
    → d ≤ e
    → All (λ m. e ≤ get_distance m.id id) ns
    → All (λ m. d ≤ get_distance m.id id) ns
farther_trans d e id [] h k = tt
farther_trans d e id (m ∷ ns) h k = (omega (arith, k.0), farther_trans d e id ns h k.1)

insert_node-IsNearestFirst :
    (id : List ℕ) (n : NetworkNode) (ns : List NetworkNode)
    → IsNearestFirst id ns
    → IsNearestFirst id (insert_node id n ns)
unfolding insert_node less
insert_node-IsNearestFirst id n [] h = (tt, tt)
insert_node-IsNearestFirst id n (m ∷ ns) h = ground (
  arith,
  insert_node-IsNearestFirst id n ns h.1,
  insert_node-All (get_distance m.id id) id n ns,
  farther_trans (get_distance n.id id) (get_distance m.id id) id ns,
)

pub sort_nodes-IsNearestFirst :
    (id : List ℕ) (ns : List NetworkNode) → IsNearestFirst id (sort_nodes id ns)
unfolding sort_nodes
sort_nodes-IsNearestFirst id [] = tt
sort_nodes-IsNearestFirst id (n ∷ ns) =
    insert_node-IsNearestFirst id n (sort_nodes id ns) (sort_nodes-IsNearestFirst id ns)

length-insert_node :
    (id : List ℕ) (n : NetworkNode) (ns : List NetworkNode)
    → length (insert_node id n ns) ≡ length ns + 1
unfolding insert_node
length-insert_node id n [] = omega arith
length-insert_node id n (m ∷ ns) = ground (arith, length-insert_node id n ns)

pub length-sort_nodes :
    (id : List ℕ) (ns : List NetworkNode) → length (sort_nodes id ns) ≡ length ns
unfolding sort_nodes
length-sort_nodes id [] = refl
length-sort_nodes id (n ∷ ns) =
    omega (arith, length-insert_node id n (sort_nodes id ns), length-sort_nodes id ns)

-- `getNearestNodes` on a table as it should be, for an id of twenty bytes, returns: at most as many
-- nodes as were asked for, in the order of their distance from the id.
pub get_nearest_nodes-total :
    (num : ℕ) (id : List ℕ) (rt : RoutingTable)
    → IsTable rt
    → IsId id
    → (ns : List NetworkNode) × (get_nearest_nodes num id rt ≡ ok ns)
      × (length ns ≤ num)
      × IsNearestFirst id ns
unfolding get_nearest_nodes
get_nearest_nodes-total num id rt h hid =
    let (i, kb, l, e, g) = index-IsTable rt id h hid in
    let below = indexes-below i (length rt.table) l h.has_160_buckets in
    let (found, f, n) = collect-total (indexes i) rt.table [] num below in
    (
      sort_nodes id found,
      rw (e, f) refl,
      omega (arith, n, length-sort_nodes id found),
      sort_nodes-IsNearestFirst id found,
    )
