-- ===== src/Dht/Removal.antt =====
-- routingTable.go: the loop of `RemoveNode` over a slice that it shortens takes out the node.
use bit_torrent_project.Common.{
  ℕ, zero, suc, ◌+◌, ◌-◌, ◌≤◌, ◌≡◌, inl, inr, refl, sym, ap, ◌∙◌, List, [], ◌∷◌, ◌++◌, true, false,
  some, length, take, drop, get_elem?, length-append, length-drop, get_elem?-append, get_elem?-drop,
  get_elem?-some, take_whole, ltb, nat_eq, bytes_eq, bytes_eq_iff, if◌then◌else◌, ok, arith,
  Bool-cases,
}
use bit_torrent_project.Dht.Node.{NetworkNode, exists}
use bit_torrent_project.Dht.Table.{remove_loop, remove_from_bucket}
use bit_torrent_project.Dht.Buckets.{IsDistinct}

-- The bucket without the node of an id.
abbrev pub without_id : List ℕ → List NetworkNode → List NetworkNode
without_id id [] = []
without_id id (n ∷ ns) = if bytes_eq n.id id then ns else n ∷ without_id id ns

-- No index from `i` on holds the id.
abbrev IsClear : ℕ → List ℕ → List NetworkNode → Type 0
IsClear i id arr =
    (k : ℕ) (v : NetworkNode) → i ≤ k → get_elem? arr k ≡ some v → bytes_eq v.id id ≡ false

rest_clear :
    (rounds i : ℕ) (id : List ℕ) (arr : List NetworkNode) (n : ℕ)
    → i + rounds ≡ length arr
    → IsClear i id arr
    → remove_loop rounds i id arr n ≡ ok (take n arr)
unfolding remove_loop
rest_clear zero i id arr n e h = refl
rest_clear (suc rounds) i id arr n e h =
    let (v, g) = get_elem?-some arr i (omega arith) in
    rw (g, remove_loop)
      (rw (h i v (omega arith) g)
        (rest_clear rounds (i + 1) id arr n (omega arith) (λ k w l. h k w (omega arith))))

exists-get_elem? :
    (id : List ℕ) (ns : List NetworkNode) (k : ℕ) (v : NetworkNode)
    → exists id ns ≡ false
    → get_elem? ns k ≡ some v
    → bytes_eq v.id id ≡ false
unfolding exists
exists-get_elem? id [] k v h e = cc
exists-get_elem? id (n ∷ ns) zero v h e = ground arith
exists-get_elem? id (n ∷ ns) (suc k) v h e = ground (arith, exists-get_elem? id ns k v)

-- The array after the node `m` is taken out of `pre ++ m ∷ post`.
abbrev shifted : List NetworkNode → NetworkNode → List NetworkNode → List NetworkNode
shifted pre m post = pre ++ (post ++ drop (length pre + length post) (pre ++ m ∷ post))

shifted-IsClear :
    (pre : List NetworkNode) (m : NetworkNode) (post : List NetworkNode) (id : List ℕ)
    → exists id post ≡ false
    → IsClear (length pre + 1) id (shifted pre m post)
shifted-IsClear pre m post id h k v l e =
    let d = drop (length pre + length post) (pre ++ m ∷ post) in
    let e' : get_elem? (post ++ d) (k - length pre) ≡ some v =
      ground (arith, get_elem?-append pre (post ++ d) k) in
    elim (Bool-cases (ltb (k - length pre) (length post))) [
      | inl t ↦
          exists-get_elem? id post (k - length pre) v h
            (ground (arith, e', get_elem?-append post d (k - length pre)))
      | inr f ↦
          let r = k - length pre - length post in
          let beyond : length post ≤ k - length pre = ground arith in
          let there : length pre + length post + r ≡ k = omega arith in
          let further : k - length pre ≡ suc (k - length pre - 1) = omega arith in
          let e2 : get_elem? d r ≡ some v =
            ground (arith, e', get_elem?-append post d (k - length pre)) in
          let e3 : get_elem? (pre ++ m ∷ post) k ≡ some v =
            ap (get_elem? (pre ++ m ∷ post)) (sym there)
            ∙ sym (get_elem?-drop (length pre + length post) (pre ++ m ∷ post) r)
            ∙ e2 in
          let e4 : get_elem? (m ∷ post) (k - length pre) ≡ some v =
            ground (arith, e3, get_elem?-append pre (m ∷ post) k) in
          exists-get_elem? id post (k - length pre - 1) v h
            (ap (get_elem? (m ∷ post)) (sym further) ∙ e4)
    ]

append_move :
    (pre : List NetworkNode) (m : NetworkNode) (post : List NetworkNode)
    → (pre ++ m ∷ []) ++ post ≡ pre ++ m ∷ post
append_move [] m post = refl
append_move (p ∷ pre) m post = ap (◌∷◌ p) (append_move pre m post)

get_elem?-middle :
    (pre : List NetworkNode) (m : NetworkNode) (post : List NetworkNode)
    → get_elem? (pre ++ m ∷ post) (length pre) ≡ some m
get_elem?-middle [] m post = refl
get_elem?-middle (p ∷ pre) m post = get_elem?-middle pre m post

take-middle : (pre post : List NetworkNode) → take (length pre) (pre ++ post) ≡ pre
take-middle [] post = refl
take-middle (p ∷ pre) post = ap (◌∷◌ p) (take-middle pre post)

drop-middle :
    (pre : List NetworkNode) (m : NetworkNode) (post : List NetworkNode)
    → drop (suc (length pre)) (pre ++ m ∷ post) ≡ post
drop-middle [] m post = refl
drop-middle (p ∷ pre) m post = drop-middle pre m post

take-shifted :
    (pre : List NetworkNode) (m : NetworkNode) (post d : List NetworkNode)
    → take (length pre + length post) (pre ++ (post ++ d)) ≡ pre ++ post
take-shifted [] m post d =
    let e : 0 + length post ≡ length post = omega arith in
    ap (λ (t : ℕ). take t (post ++ d)) e ∙ take-middle post d
take-shifted (p ∷ pre) m post d =
    let e : suc (length pre) + length post ≡ suc (length pre + length post) = omega arith in
    ap (λ (t : ℕ). take t (p ∷ (pre ++ (post ++ d)))) e ∙ ap (◌∷◌ p) (take-shifted pre m post d)

length-shifted :
    (pre : List NetworkNode) (m : NetworkNode) (post : List NetworkNode)
    → length (shifted pre m post) ≡ length pre + length post + 1
length-shifted pre m post = omega (
  arith,
  length-append pre (post ++ drop (length pre + length post) (pre ++ m ∷ post)),
  length-append post (drop (length pre + length post) (pre ++ m ∷ post)),
  length-drop (length pre + length post) (pre ++ m ∷ post),
  length-append pre (m ∷ post),
)

-- The round that finds the node, and those after it.
found_round :
    (pre : List NetworkNode) (m : NetworkNode) (post : List NetworkNode) (id : List ℕ)
    → bytes_eq m.id id ≡ true
    → exists id post ≡ false
    → remove_loop
        (length (m ∷ post))
        (length pre)
        id
        (pre ++ m ∷ post)
        (length pre + length post + 1)
      ≡ ok (pre ++ post)
unfolding remove_loop
found_round pre m post id e h =
    let n = length pre + length post + 1 in
    let whole : take n (pre ++ m ∷ post) ≡ pre ++ m ∷ post =
      ap (λ (t : ℕ). take t (pre ++ m ∷ post)) (omega (arith, length-append pre (m ∷ post)))
      ∙ take_whole (pre ++ m ∷ post) in
    let inside : ltb n (length pre + 1) ≡ false = ground arith in
    let less : n - 1 ≡ length pre + length post = omega arith in
    let next : length pre + 1 ≡ suc (length pre) = omega arith in
    let after : drop (length pre + 1) (pre ++ m ∷ post) ≡ post =
      ap (λ (t : ℕ). drop t (pre ++ m ∷ post)) next ∙ drop-middle pre m post in
    rw (get_elem?-middle pre m post, remove_loop, e, inside, whole)
      (rw (take-middle pre (m ∷ post), after, less)
        (rest_clear (length post) (length pre + 1) id (shifted pre m post)
            (length pre + length post) (omega (arith, length-shifted pre m post))
            (shifted-IsClear pre m post id h)
          ∙ ap ok (take-shifted pre m post _)))

search_rounds :
    (pre post : List NetworkNode) (id : List ℕ)
    → IsDistinct post
    → remove_loop (length post) (length pre) id (pre ++ post) (length pre + length post)
      ≡ ok (pre ++ without_id id post)
unfolding remove_loop exists
search_rounds pre [] id h = ap ok (
    ap (λ (t : ℕ). take t (pre ++ [])) (omega (arith, length-append pre []))
    ∙ take_whole (pre ++ []))
search_rounds pre (m ∷ post) id h = elim (Bool-cases (bytes_eq m.id id)) [
  | inl t ↦
      let gone : exists id post ≡ false = ground (arith, h.0, bytes_eq_iff m.id id) in
      let n : length pre + length (m ∷ post) ≡ length pre + length post + 1 = omega arith in
      rw (n, t) (found_round pre m post id t gone)
  | inr f ↦
      let pre' = pre ++ m ∷ [] in
      let i : length pre' ≡ length pre + 1 = length-append pre (m ∷ []) in
      let n : length pre' + length post ≡ length pre + length (m ∷ post) = omega (arith, i) in
      let further : remove_loop (length post) (length pre + 1) id (pre ++ m ∷ post)
            (length pre + length (m ∷ post))
          ≡ ok (pre ++ m ∷ without_id id post) =
        sym (
          ap
            (λ (t : ℕ).
              remove_loop (length post) t id (pre ++ m ∷ post) (length pre + length (m ∷ post)))
            i)
        ∙ sym (ap (λ (t : ℕ). remove_loop (length post) (length pre') id (pre ++ m ∷ post) t) n)
        ∙ sym (
            ap (λ t. remove_loop (length post) (length pre') id t (length pre' + length post))
              (append_move pre m post))
        ∙ search_rounds pre' post id h.1
        ∙ ap ok (append_move pre m (without_id id post)) in
      rw (get_elem?-middle pre m post, remove_loop, f) further
]

-- The loop of `RemoveNode` on a bucket without repeated ids gives the bucket without the node of
-- that id, the others in their order, and it does not panic.
pub remove_from_bucket-without_id :
    (id : List ℕ) (bucket : List NetworkNode)
    → IsDistinct bucket
    → remove_from_bucket id bucket ≡ ok (without_id id bucket)
unfolding remove_from_bucket
remove_from_bucket-without_id id bucket h =
    ap (remove_loop (length bucket) 0 id bucket) (omega arith) ∙ search_rounds [] bucket id h
