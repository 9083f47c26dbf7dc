-- ===== src/Dht/Gathered.antt =====
-- routingTable.go: which nodes `getNearestNodes` finds.
use bit_torrent_project.Common.{
  ℕ, zero, suc, ◌+◌, ◌≤◌, ◌<◌, ◌≡◌, ◌⊎◌, inl, inr, refl, sym, ap, ◌∙◌, List, [], ◌∷◌, true, false,
  length, All, All-weaken, get_elem?-some, ltb, ◌==◌, nat_eq, bytes_eq, bytes_eq_iff, if◌then◌else◌,
  ok, arith, Bool-cases,
}
use bit_torrent_project.Dht.Node.{NetworkNode, exists, insert_node, sort_nodes}
use bit_torrent_project.Dht.Table.{
  RoutingTable, indexes, collect_bucket, collect, get_first_dif_bit_bucket_index, get_nearest_nodes,
}
use bit_torrent_project.Dht.Tables.{IsId, BelongsTo, IsTable, index-IsTable, knows, knows-at}
use bit_torrent_project.Dht.Nearest.{
  count, indexes-once, indexes-below, IsNearestFirst, sort_nodes-IsNearestFirst, length-sort_nodes,
}
use bit_torrent_project.Dht.Gathering.{
  collect_bucket-exact, collect_bucket-All, All-both, bucket-exists,
}

module _ (rt : RoutingTable) (is_table : IsTable rt) where
  -- A node from a bucket that is not among those still to be visited.
  abbrev Elsewhere : List ℕ → NetworkNode → Type 0
  Elsewhere is n = (j : ℕ) × BelongsTo rt j n × (count j is ≡ 0)

  -- Nodes of different buckets have different ids.
  belongs_apart :
      (i j : ℕ) (a b : List ℕ)
      → get_first_dif_bit_bucket_index rt a ≡ ok i
      → get_first_dif_bit_bucket_index rt b ≡ ok j
      → (i == j) ≡ false
      → bytes_eq a b ≡ false
  belongs_apart i j a b e f ne = elim (Bool-cases (bytes_eq a b)) [
    | inr apart ↦ apart
    | inl same ↦
        let s : a ≡ b = (bytes_eq_iff a b).0 same in
        let k = ap (get_first_dif_bit_bucket_index rt) s in ground (arith, e, f, k, ne)
  ]

  other_bucket :
      (i j : ℕ) (m : List ℕ) (vs : List NetworkNode)
      → All (BelongsTo rt i) vs
      → get_first_dif_bit_bucket_index rt m ≡ ok j
      → (i == j) ≡ false
      → exists m vs ≡ false
  unfolding exists
  other_bucket i j m [] h e ne = refl
  other_bucket i j m (v ∷ vs) h e ne =
      rw (belongs_apart i j v.id m h.0 e ne) (other_bucket i j m vs h.1 e ne)

  Elsewhere-fresh :
      (i : ℕ) (is : List ℕ) (v : NetworkNode) (nodes : List NetworkNode)
      → All (Elsewhere (i ∷ is)) nodes
      → BelongsTo rt i v
      → exists v.id nodes ≡ false
  unfolding exists
  Elsewhere-fresh i is v [] h e = refl
  Elsewhere-fresh i is v (n ∷ nodes) ((j, b, c), h) e =
      let ne : (j == i) ≡ false = ground (arith, c) in
      rw (belongs_apart j i n.id v.id b e ne) (Elsewhere-fresh i is v nodes h e)

  -- What a walk over these buckets has found, of which each is visited once: as many nodes as there
  -- was room for, or all that these buckets know.
  collect-exact :
      (is : List ℕ) (nodes : List NetworkNode) (to_add j : ℕ) (m : List ℕ)
      → All (λ i. i < length rt.table) is
      → ((i : ℕ) → count i is ≤ 1)
      → All (Elsewhere is) nodes
      → All (λ n. knows rt n.id ≡ true) nodes
      → get_first_dif_bit_bucket_index rt m ≡ ok j
      → (found : List NetworkNode) × (collect is rt.table nodes to_add ≡ ok found)
        × (length nodes ≤ length found)
        × (length found ≤ length nodes + to_add)
        × ((length found ≡ length nodes + to_add)
            ⊎ (exists m found ≡ (
                if exists m nodes then true else if ltb 0 (count j is) then knows rt m else false)))
        × All (λ n. knows rt n.id ≡ true) found
  unfolding collect
  collect-exact [] nodes to_add j m below once h k e =
      (nodes, refl, omega arith, omega arith, inr (ground arith), k)
  collect-exact (i ∷ is) nodes zero j m below once h k e =
      (nodes, refl, omega arith, omega arith, inl (omega arith), k)
  collect-exact (i ∷ is) nodes (suc to_add) j m below once h k e =
      let (kb, g) = get_elem?-some rt.table i below.0 in
      let b = is_table.placed i kb g in
      let fresh = All-weaken (λ v p. Elsewhere-fresh i is v nodes h p) kb.bucket b.1 in
      let (size, more, all) = collect_bucket-exact (suc to_add) nodes kb.bucket m fresh b.0 in
      let r = collect_bucket (suc to_add) nodes kb.bucket in
      let left : All (Elsewhere is) r.0 =
        collect_bucket-All (Elsewhere is) (suc to_add) nodes kb.bucket
          (All-weaken (λ n (l, p, c). (l, p, ground (arith, c))) nodes h)
          (All-weaken (λ v p. (i, p, ground (arith, once i))) kb.bucket b.1) in
      let known_ones =
        collect_bucket-All (λ n. knows rt n.id ≡ true) (suc to_add) nodes kb.bucket k
          (All-weaken (λ v x. knows-at rt v.id i kb x.0 g ∙ x.1) kb.bucket
            (All-both _ _ kb.bucket b.1 (bucket-exists kb.bucket))) in
      let (found, f, lo, hi, exact, sound) =
        collect-exact is r.0 r.1 j m below.1 (λ l. ground (arith, once l)) left known_ones e in
      let here : exists m kb.bucket ≡ (if i == j then knows rt m else false) =
        elim (Bool-cases (i == j)) [
          | inl same ↦
              let s : j ≡ i = ground arith in rw same (sym (knows-at rt m i kb (e ∙ ap ok s) g))
          | inr other ↦ rw other (other_bucket i j m kb.bucket b.1 e other)
        ] in
      (
        found,
        rw (g, collect) f,
        omega (arith, lo, more),
        omega (arith, hi, size),
        elim exact [
          | inl full ↦ inl (omega (arith, full, size))
          | inr all_later ↦ elim all [
            | inl z ↦ inl (omega (arith, z, size, lo, hi))
            | inr all_here ↦ inr (ground (arith, all_later, all_here, here, once j))
          ]
        ],
        sound,
      )

exists-insert_node :
    (id m : List ℕ) (n : NetworkNode) (ns : List NetworkNode)
    → exists m (insert_node id n ns) ≡ (if bytes_eq n.id m then true else exists m ns)
unfolding insert_node exists
exists-insert_node id m n [] = refl
exists-insert_node id m n (u ∷ ns) = ground (arith, exists-insert_node id m n ns)

exists-sort_nodes :
    (id m : List ℕ) (ns : List NetworkNode) → exists m (sort_nodes id ns) ≡ exists m ns
unfolding sort_nodes exists
exists-sort_nodes id m [] = refl
exists-sort_nodes id m (n ∷ ns) =
    exists-insert_node id m n (sort_nodes id ns) ∙ ground (arith, exists-sort_nodes id m ns)

exists-knows :
    (rt : RoutingTable) (m : List ℕ) (ns : List NetworkNode)
    → All (λ n. knows rt n.id ≡ true) ns
    → (exists m ns ≡ false) ⊎ (knows rt m ≡ true)
unfolding exists
exists-knows rt m [] h = inl refl
exists-knows rt m (n ∷ ns) h = elim (Bool-cases (bytes_eq n.id m)) [
  | inl same ↦ inr (ap (knows rt) (sym ((bytes_eq_iff n.id m).0 same)) ∙ h.0)
  | inr other ↦ rw other (exists-knows rt m ns h.1)
]

-- `getNearestNodes` on a table as it should be, for an id of twenty bytes, returns nodes in the order
-- of their distance from the id, and never more than were asked for. Of any id: if a node with it is
-- returned, then the table knows the id; and there are exactly as many nodes as were asked for, or
-- a node with this id is returned if and only if the table knows the id.
pub get_nearest_nodes-knows :
    (num : ℕ) (id m : List ℕ) (rt : RoutingTable)
    → IsTable rt
    → IsId id
    → IsId m
    → (ns : List NetworkNode) × (get_nearest_nodes num id rt ≡ ok ns)
      × IsNearestFirst id ns
      × (length ns ≤ num)
      × ((length ns ≡ num) ⊎ (exists m ns ≡ knows rt m))
      × ((exists m ns ≡ false) ⊎ (knows rt m ≡ true))
unfolding get_nearest_nodes exists
get_nearest_nodes-knows num id m rt h hid hm =
    let (i, kb, l, e, g) = index-IsTable rt id h hid in
    let (j, kbj, lj, ej, gj) = index-IsTable rt m h hm in
    let below = indexes-below i (length rt.table) l h.has_160_buckets in
    let once : (k : ℕ) → count k (indexes i) ≤ 1 = λ k. ground (arith, indexes-once i k l) in
    let visited : ltb 0 (count j (indexes i)) ≡ true = ground (arith, indexes-once i j l) in
    let (found, f, lo, hi, exact, sound) =
      collect-exact rt h (indexes i) [] num j m below once tt tt ej in
    let sorted = length-sort_nodes id found in
    let same = exists-sort_nodes id m found in
    (
      sort_nodes id found,
      rw (e, f) refl,
      sort_nodes-IsNearestFirst id found,
      omega (arith, hi, sorted),
      elim exact [
        | inl full ↦ inl (omega (arith, full, sorted))
        | inr all ↦ inr (same ∙ rw visited at all)
      ],
      elim (exists-knows rt m found sound) [
        | inl absent ↦ inl (same ∙ absent)
        | inr present ↦ inr present
      ],
    )
