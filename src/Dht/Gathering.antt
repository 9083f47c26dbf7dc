-- ===== src/Dht/Gathering.antt =====
-- routingTable.go: what `getNearestNodes` takes of one bucket.
use bit_torrent_project.Common.{
  ℕ, zero, suc, ◌+◌, ◌≤◌, ◌≡◌, ◌⊎◌, inl, inr, refl, List, [], ◌∷◌, ◌++◌, true, false, length, All,
  All-append, All-weaken, length-append, nat_eq, bytes_eq_iff, if◌then◌else◌, arith, Bool-cases,
}
use bit_torrent_project.Dht.Node.{NetworkNode, append_unique, exists}
use bit_torrent_project.Dht.Table.{collect_bucket}
use bit_torrent_project.Dht.Buckets.{IsDistinct, exists-append}

-- No node of the list is among the others.
abbrev AreFresh : List NetworkNode → List NetworkNode → Type 0
AreFresh nodes vs = All (λ v. exists v.id nodes ≡ false) vs

AreFresh-append :
    (v : NetworkNode) (nodes vs : List NetworkNode)
    → exists v.id vs ≡ false
    → AreFresh nodes vs
    → AreFresh (nodes ++ v ∷ []) vs
unfolding exists
AreFresh-append v nodes [] e h = tt
AreFresh-append v nodes (u ∷ vs) e h = ground (
  arith,
  AreFresh-append v nodes vs,
  exists-append u.id nodes (v ∷ []),
  bytes_eq_iff v.id u.id,
  bytes_eq_iff u.id v.id,
)

append_unique-new :
    (nodes : List NetworkNode) (v : NetworkNode)
    → exists v.id nodes ≡ false
    → append_unique nodes (v ∷ []) ≡ nodes ++ v ∷ []
unfolding append_unique
append_unique-new nodes v e = rw (e, append_unique) refl

-- Fresh nodes count each, and all of them are taken unless the room is used up.
pub collect_bucket-exact :
    (to_add : ℕ) (nodes vs : List NetworkNode) (m : List ℕ)
    → AreFresh nodes vs
    → IsDistinct vs
    → (length (collect_bucket to_add nodes vs).0 + (collect_bucket to_add nodes vs).1
        ≡ length nodes + to_add)
      × (length nodes ≤ length (collect_bucket to_add nodes vs).0)
      × (((collect_bucket to_add nodes vs).1 ≡ 0)
          ⊎ (exists m (collect_bucket to_add nodes vs).0
              ≡ (if exists m nodes then true else exists m vs)))
unfolding collect_bucket exists
collect_bucket-exact zero nodes vs m f d = (refl, omega arith, inl refl)
collect_bucket-exact (suc to_add) nodes [] m f d = (refl, omega arith, inr (ground arith))
collect_bucket-exact (suc to_add) nodes (v ∷ vs) m f d =
    let new = append_unique-new nodes v f.0 in
    let ih =
      collect_bucket-exact to_add (nodes ++ v ∷ []) vs m (AreFresh-append v nodes vs d.0 f.1) d.1 in
    rw (new, collect_bucket)
      (ground (arith, ih, length-append nodes (v ∷ []), exists-append m nodes (v ∷ [])))

append_unique-All {κ} :
    (P : NetworkNode → Type κ) (nodes : List NetworkNode) (v : NetworkNode)
    → All P nodes
    → P v
    → All P (append_unique nodes (v ∷ []))
unfolding append_unique
append_unique-All P nodes v h p = elim (Bool-cases (exists v.id nodes)) [
  | inl old ↦ rw (old, append_unique) h
  | inr new ↦ rw (new, append_unique) (All-append P nodes (v ∷ []) h (p, tt))
]

pub collect_bucket-All {κ} :
    (P : NetworkNode → Type κ) (to_add : ℕ) (nodes vs : List NetworkNode)
    → All P nodes
    → All P vs
    → All P (collect_bucket to_add nodes vs).0
unfolding collect_bucket
collect_bucket-All P zero nodes vs h k = h
collect_bucket-All P (suc to_add) nodes [] h k = h
collect_bucket-All P (suc to_add) nodes (v ∷ vs) h k =
    collect_bucket-All P to_add (append_unique nodes (v ∷ [])) vs
      (append_unique-All P nodes v h k.0) k.1

pub All-both {κ} :
    (P Q : NetworkNode → Type κ) (vs : List NetworkNode)
    → All P vs
    → All Q vs
    → All (λ v. P v × Q v) vs
All-both P Q [] h k = tt
All-both P Q (v ∷ vs) h k = ((h.0, k.0), All-both P Q vs h.1 k.1)

-- Each node of a bucket is in the bucket.
pub bucket-exists : (vs : List NetworkNode) → All (λ v. exists v.id vs ≡ true) vs
unfolding exists
bucket-exists [] = tt
bucket-exists (v ∷ vs) = (
  ground (arith, bytes_eq_iff v.id v.id),
  All-weaken (λ u e. ground (arith, e)) vs (bucket-exists vs),
)
