-- ===== src/Dht/Tables.antt =====
-- routingTable.go: tables as they should be, and what they know.
use bit_torrent_project.Common.{
  ℕ, ◌<◌, ◌≡◌, ◌≢◌, inl, inr, refl, sym, ap, subst, ◌∙◌, List, [], ◌∷◌, Bool, false, none, some,
  length, set, get_elem?, All, All-append, length-set, get_elem?-set_self, get_elem?-set_ne,
  get_elem?-some, ◌==◌, nat_eq, bytes_eq, bytes_eq_iff, if◌then◌else◌, ok, err, panic, arith,
  Bool-cases,
}
use bit_torrent_project.Wire.Words.{IsByte}
use bit_torrent_project.Dht.Node as Node
use bit_torrent_project.Dht.Node.{NetworkNode, Panics, exists}
use bit_torrent_project.Dht.Table.{Kbucket, RoutingTable, get_first_dif_bit_bucket_index, touch}
use bit_torrent_project.Dht.Distance.{bucket_index-Measures}
use bit_torrent_project.Dht.Buckets.{
  IsDistinct, known, touch-remove_node, touch-IsDistinct, known-id,
}
use bit_torrent_project.Dht.Removal.{without_id}

-- An id of the DHT: twenty bytes.
abbrev pub IsId : List ℕ → Type 0
IsId id = (length id ≡ 20) × All IsByte id

-- A node whose bucket in the table has this index.
abbrev pub BelongsTo : RoutingTable → ℕ → NetworkNode → Type 0
BelongsTo rt i n = get_first_dif_bit_bucket_index rt n.id ≡ ok i

-- A bucket with this index that is as it should be.
abbrev pub IsBucket : RoutingTable → ℕ → List NetworkNode → Type 0
IsBucket rt i ns = IsDistinct ns × All (BelongsTo rt i) ns

pub record IsTable (rt : RoutingTable) : Type 0 where
  pub own_id : IsId rt.self.id
  pub has_160_buckets : length rt.table ≡ 160
  pub placed : (i : ℕ) (kb : Kbucket) → get_elem? rt.table i ≡ some kb → IsBucket rt i kb.bucket

-- In a table as it should be every id has a bucket.
pub index-IsTable :
    (rt : RoutingTable) (id : List ℕ)
    → IsTable rt
    → IsId id
    → (i : ℕ) × (kb : Kbucket) × (i < 160)
      × (get_first_dif_bit_bucket_index rt id ≡ ok i)
      × (get_elem? rt.table i ≡ some kb)
index-IsTable rt id h hid = elim (bucket_index-Measures rt id hid.0 h.own_id.0 hid.1 h.own_id.1) [
  | inl (e, d) ↦
      let n : 0 < length rt.table = omega (arith, h.has_160_buckets) in
      let (kb, g) = get_elem?-some rt.table 0 n in (0, kb, omega arith, e, g)
  | inr (i, e, l, lo, hi) ↦
      let n : i < length rt.table = omega (arith, h.has_160_buckets, l) in
      let (kb, g) = get_elem?-some rt.table i n in (i, kb, l, e, g)
]

-- One bucket is exchanged for one that is as it should be.
pub set-IsTable :
    (rt : RoutingTable) (i : ℕ) (kb : Kbucket)
    → IsTable rt
    → i < 160
    → IsBucket rt i kb.bucket
    → IsTable (record rt { table = set rt.table i kb })
unfolding get_first_dif_bit_bucket_index
set-IsTable rt i kb h l b = record {
  own_id = h.own_id;
  has_160_buckets = length-set rt.table i kb ∙ h.has_160_buckets;
  placed = λ j kb' e. elim (Bool-cases (i == j)) [
    | inl same ↦
        let s : i ≡ j = ground arith in
        let n : i < length rt.table = omega (arith, h.has_160_buckets) in
        let e' : get_elem? (set rt.table i kb) i ≡ some kb' =
          subst (λ t. get_elem? (set rt.table i kb) t ≡ some kb') (sym s) e in
        let k : kb ≡ kb' = ground (arith, get_elem?-set_self rt.table i kb n, e') in
        subst (λ (x : Kbucket). IsBucket rt j x.bucket) k (subst (λ t. IsBucket rt t kb.bucket) s b)
    | inr other ↦
        let s : i ≢ j = ground arith in h.placed j kb' (sym (get_elem?-set_ne rt.table kb s) ∙ e)
  ];
}

remove_node-All {κ} :
    (P : NetworkNode → Type κ) (node : NetworkNode) (ns : List NetworkNode)
    → All P ns
    → All P (Node.remove_node node ns)
unfolding Node.remove_node
remove_node-All P node [] h = tt
remove_node-All P node (n ∷ ns) h = ground (arith, remove_node-All P node ns h.1)

pub touch-IsBucket :
    (rt : RoutingTable) (i : ℕ) (node : NetworkNode) (ns : List NetworkNode)
    → get_first_dif_bit_bucket_index rt node.id ≡ ok i
    → IsBucket rt i ns
    → IsBucket rt i (touch node ns)
touch-IsBucket rt i node ns e h = (
  touch-IsDistinct node ns h.0,
  rw (touch-remove_node node ns) (
      All-append (BelongsTo rt i) (Node.remove_node node ns) (known node ns ∷ [])
        (remove_node-All (BelongsTo rt i) node ns h.1)
        (ap (get_first_dif_bit_bucket_index rt) (known-id node ns) ∙ e, tt)),
)

without_id-All {κ} :
    (P : NetworkNode → Type κ) (id : List ℕ) (ns : List NetworkNode)
    → All P ns
    → All P (without_id id ns)
without_id-All P id [] h = tt
without_id-All P id (n ∷ ns) h = ground (arith, without_id-All P id ns h.1)

pub exists-without_id :
    (id j : List ℕ) (ns : List NetworkNode)
    → IsDistinct ns
    → exists j (without_id id ns) ≡ (if bytes_eq id j then false else exists j ns)
unfolding exists
exists-without_id id j [] h = ground arith
exists-without_id id j (n ∷ ns) h = ground (
  arith,
  exists-without_id id j ns h.1,
  bytes_eq_iff n.id id,
  bytes_eq_iff id j,
  bytes_eq_iff n.id j,
)

pub without_id-IsBucket :
    (rt : RoutingTable) (i : ℕ) (id : List ℕ) (ns : List NetworkNode)
    → IsBucket rt i ns
    → IsBucket rt i (without_id id ns)
without_id-IsBucket rt i id [] h = (tt, tt)
without_id-IsBucket rt i id (n ∷ ns) h =
    ground
      (arith, without_id-IsBucket rt i id ns (h.0.1, h.1.1), exists-without_id id n.id ns h.0.1)

-- Does the table know a node with this id?
abbrev pub knows : RoutingTable → List ℕ → Bool
knows rt id = elim (get_first_dif_bit_bucket_index rt id) [
  | ok i ↦ elim (get_elem? rt.table i) [ none ↦ false | some kb ↦ exists id kb.bucket ]
  | err e ↦ false
  | panic ↦ false
]

-- The index does not hang on the buckets.
pub index-set :
    (rt : RoutingTable) (kbs : List Kbucket) (id : List ℕ)
    → get_first_dif_bit_bucket_index (record rt { table = kbs }) id
      ≡ get_first_dif_bit_bucket_index rt id
unfolding get_first_dif_bit_bucket_index
index-set rt kbs id = refl

pub knows-at :
    (rt : RoutingTable) (id : List ℕ) (i : ℕ) (kb : Kbucket)
    → get_first_dif_bit_bucket_index rt id ≡ ok i
    → get_elem? rt.table i ≡ some kb
    → knows rt id ≡ exists id kb.bucket
knows-at rt id i kb e g = rw (e, knows, g) refl

-- What an exchange of one bucket changes of what the table knows.
pub knows-set :
    (rt : RoutingTable) (i : ℕ) (kb new : Kbucket) (id changed : List ℕ) (r : Bool)
    → IsTable rt
    → IsId id
    → i < 160
    → get_elem? rt.table i ≡ some kb
    → get_first_dif_bit_bucket_index rt changed ≡ ok i
    → exists id new.bucket ≡ (if bytes_eq changed id then r else exists id kb.bucket)
    → knows (record rt { table = set rt.table i new }) id
      ≡ (if bytes_eq changed id then r else knows rt id)
knows-set rt i kb new id changed r h hid l g c e =
    let (j, kbj, lj, ej, gj) = index-IsTable rt id h hid in
    let rt' = record rt { table = set rt.table i new } in
    let ej' : get_first_dif_bit_bucket_index rt' id ≡ ok j =
      index-set rt (set rt.table i new) id ∙ ej in
    let n : i < length rt.table = omega (arith, h.has_160_buckets) in
    elim (Bool-cases (i == j)) [
      | inl same ↦
          let s : i ≡ j = ground arith in
          let gi : get_elem? (set rt.table i new) j ≡ some new =
            ap (get_elem? (set rt.table i new)) (sym s) ∙ get_elem?-set_self rt.table i new n in
          let gk : get_elem? rt.table j ≡ some kb = ap (get_elem? rt.table) (sym s) ∙ g in
          knows-at rt' id j new ej' gi
          ∙ e
          ∙ ap (λ b. if bytes_eq changed id then r else b) (sym (knows-at rt id j kb ej gk))
      | inr other ↦
          let s : i ≢ j = ground arith in
          let gi : get_elem? (set rt.table i new) j ≡ some kbj =
            get_elem?-set_ne rt.table new s ∙ gj in
          let apart : bytes_eq changed id ≡ false =
            ground (arith, bytes_eq_iff changed id, c, ej, s) in
          knows-at rt' id j kbj ej' gi ∙ sym (knows-at rt id j kbj ej gj) ∙ ground (arith, apart)
    ]
