-- ===== src/Dht/Rounds.antt =====
-- dht.go: what one round of a lookup does to the nodes known.
use bit_torrent_project.Common.{
  ℕ, ◌≤◌, ◌<◌, ◌≡◌, ◌⊎◌, inl, inr, refl, sym, ap, subst, List, [], ◌∷◌, ◌++◌, true, false, none,
  some, String, length, All, All-append, ◌==◌, nat_eq, string_eq, bytes_eq_iff, bytes_eq_instance,
  ok, err, panic, ◌>>=◌, arith, bind-ok, Bool-cases, Option-cases,
}
use bit_torrent_project.Common.Dict.{lookup}
use bit_torrent_project.Dht.Node.{
  NetworkNode, Panics, less, get_distance, append_unique, exists, insert_node, sort_nodes,
}
use bit_torrent_project.Dht.Nearest.{IsNearestFirst, sort_nodes-IsNearestFirst}
use bit_torrent_project.Dht.Messages.{ResponseMessage}
use bit_torrent_project.Dht.Handler.{DhtNode, compact_infos}
use bit_torrent_project.Dht.Sending.{Event, answer, silence, other, gather}
use bit_torrent_project.Dht.Lookup.{
  ip_equal, equals_nodes, split, Merged, found, known, merge, Located, End, Step, stopped, further,
  compare_first, conclude,
}

append_unique-front :
    (n : NetworkNode) (rest new : List NetworkNode)
    → (more : List NetworkNode) × (append_unique (n ∷ rest) new ≡ n ∷ more)
unfolding append_unique
append_unique-front n rest [] = (rest, refl)
append_unique-front n rest (m ∷ new) = elim (Bool-cases (exists m.id (n ∷ rest))) [
  | inl e ↦ rw (e, append_unique) (append_unique-front n rest new)
  | inr e ↦ rw (e, append_unique) (append_unique-front n (rest ++ m ∷ []) new)
]

-- A loop over answers that reads nodes first.
bind-front :
    (o : Panics (List NetworkNode)) (k : List NetworkNode → Panics Merged) (n : NetworkNode)
    (nodes : List NetworkNode)
    → (o >>= k) ≡ ok (known nodes)
    → ((new : List NetworkNode)
        → k new ≡ ok (known nodes)
        → (more : List NetworkNode) × (nodes ≡ n ∷ more))
    → (more : List NetworkNode) × (nodes ≡ n ∷ more)
bind-front o k n nodes h f = let (new, _, e) = bind-ok o k h in f new e

-- The nodes that a round knows after it begin with the node that it began with.
merge-front :
    (query_type : String) (results : List ResponseMessage) (n : NetworkNode)
    (rest nodes : List NetworkNode)
    → merge query_type results (n ∷ rest) ≡ ok (known nodes)
    → (more : List NetworkNode) × (nodes ≡ n ∷ more)
unfolding merge
merge-front query_type [] n rest nodes h = (rest, cc)
merge-front query_type (r ∷ results) n rest nodes h =
    let step : (new : List NetworkNode)
        → merge query_type results (append_unique (n ∷ rest) new) ≡ ok (known nodes)
        → (more : List NetworkNode) × (nodes ≡ n ∷ more) =
      λ new e.
        let (front, f) = append_unique-front n rest new in
        merge-front query_type results n front nodes (rw f at e) in
    elim (Bool-cases (query_type == "find_node")) [
      | inl a ↦ bind-front _ _ n nodes (rw (a, merge) at h) step
      | inr a ↦ elim (Bool-cases (query_type == "get_peers")) [
        | inr b ↦ merge-front query_type results n rest nodes (rw (a, merge, b) at h)
        | inl b ↦ elim (Option-cases (lookup "values" r.response)) [
          | inl v ↦ bind-front _ _ n nodes (rw (a, merge, b, v) at h) step
          | inr (values, v) ↦
              let k : ok (found (split values)) ≡ ok (known nodes) = rw (a, merge, b, v) at h in cc
        ]
      ]
    ]

equals_nodes_refl : (n : NetworkNode) → equals_nodes n n false ≡ true
unfolding equals_nodes ip_equal
equals_nodes_refl n =
    let i = (bytes_eq_iff n.id n.id).1 refl in
    let p = (bytes_eq_iff n.ip n.ip).1 refl in ground (arith, i, p)

-- The sorted nodes of a list begin with its first, or with one that is nearer.
sort_nodes-first :
    (id : List ℕ) (n : NetworkNode) (ns : List NetworkNode)
    → (m : NetworkNode) × (ms : List NetworkNode) × (sort_nodes id (n ∷ ns) ≡ m ∷ ms)
      × ((m ≡ n) ⊎ (get_distance m.id id < get_distance n.id id))
unfolding sort_nodes insert_node less
sort_nodes-first id n ns = go (sort_nodes id ns) refl
  where
    go :
        (sorted : List NetworkNode)
        → sort_nodes id ns ≡ sorted
        → (m : NetworkNode) × (ms : List NetworkNode) × (sort_nodes id (n ∷ ns) ≡ m ∷ ms)
          × ((m ≡ n) ⊎ (get_distance m.id id < get_distance n.id id))
    go [] e = (n, [], rw e refl, inl refl)
    go (m ∷ ms) e = elim (Bool-cases (less id m n)) [
      | inl l ↦ (m, insert_node id n ms, rw (e, l) refl, inr (ground arith))
      | inr l ↦ (n, m ∷ ms, rw (e, l) refl, inl refl)
    ]

-- A response that is among the events.
abbrev pub Occurs : ResponseMessage → List Event → Type 0
Occurs m [] = ⊥
Occurs m (e ∷ events) = (e ≡ answer m) ⊎ Occurs m events

pub gather-All :
    (P : ResponseMessage → Type 0) (expected : ℕ) (events : List Event) (dht : DhtNode)
    (results : List ResponseMessage)
    → All P results
    → ((m : ResponseMessage) → Occurs m events → P m)
    → All P (gather expected events dht results).1
unfolding gather
gather-All P expected [] dht results h f = h
gather-All P expected (answer m ∷ events) dht results h f =
    let all = All-append P results (m ∷ []) h (f m (inl refl), tt) in
    elim (Bool-cases (length (results ++ m ∷ []) == expected)) [
      | inl e ↦ rw (e, gather) all
      | inr e ↦
          rw (e, gather)
            (gather-All P expected events dht (results ++ m ∷ []) all (λ k o. f k (inr o)))
    ]
gather-All P expected (silence tid ∷ events) dht results h f =
    gather-All P expected events _ results h (λ k o. f k (inr o))
gather-All P expected (other g ∷ events) dht results h f =
    gather-All P expected events (g dht) results h (λ k o. f k (inr o))

-- Values that one of these responses carries.
abbrev pub Carried : (ResponseMessage → Type 0) → List (List ℕ) → Type 0
Carried P values =
    (m : ResponseMessage) × (text : List ℕ) × P m
    × (lookup "values" m.response ≡ some text)
    × (values ≡ split text)

bind-found :
    (o : Panics (List NetworkNode)) (k : List NetworkNode → Panics Merged) (values : List (List ℕ))
    (T : Type 0)
    → (o >>= k) ≡ ok (found values)
    → ((new : List NetworkNode) → k new ≡ ok (found values) → T)
    → T
bind-found o k values T h f = let (new, _, e) = bind-ok o k h in f new e

merge-found :
    (P : ResponseMessage → Type 0) (query_type : String) (results : List ResponseMessage)
    (nodes : List NetworkNode) (values : List (List ℕ))
    → All P results
    → merge query_type results nodes ≡ ok (found values)
    → Carried P values
unfolding merge
merge-found P query_type [] nodes values all h =
    let k : ok (known nodes) ≡ ok (found values) = h in absurd (cc)
merge-found P query_type (r ∷ results) nodes values all h =
    let step : (new : List NetworkNode)
        → merge query_type results (append_unique nodes new) ≡ ok (found values)
        → Carried P values =
      λ new e. merge-found P query_type results (append_unique nodes new) values all.1 e in
    elim (Bool-cases (query_type == "find_node")) [
      | inl a ↦ bind-found _ _ values _ (rw (a, merge) at h) step
      | inr a ↦ elim (Bool-cases (query_type == "get_peers")) [
        | inr b ↦ merge-found P query_type results nodes values all.1 (rw (a, merge, b) at h)
        | inl b ↦ elim (Option-cases (lookup "values" r.response)) [
          | inl v ↦ bind-found _ _ values _ (rw (a, merge, b, v) at h) step
          | inr (text, v) ↦
              let k : ok (found (split text)) ≡ ok (found values) = rw (a, merge, b, v) at h in
              (r, text, all.0, v, cc)
        ]
      ]
    ]

-- What a lookup that ends has found: values that one of the responses carried, or the nodes that
-- it knows, nearest first, the first at most this far from the id.
abbrev pub IsEnd : (ResponseMessage → Type 0) → List ℕ → ℕ → End → Type 0
IsEnd P id distance end =
    (located : Located)
    → end ≡ ok located
    → ((values : List (List ℕ)) × (located.values ≡ some values) × Carried P values)
      ⊎ ((n : NetworkNode) × (ns : List NetworkNode) × (located.values ≡ none)
          × (located.closest ≡ compact_infos (n ∷ ns))
          × IsNearestFirst id (n ∷ ns)
          × (get_distance n.id id ≤ distance))

-- A round ends the lookup, or its first node is nearer than the one before.
abbrev pub IsStep : (ResponseMessage → Type 0) → List ℕ → ℕ → Step → Type 0
IsStep P id distance (stopped end) = IsEnd P id distance end
IsStep P id distance (further n ns) = get_distance n.id id < distance

ok_located : (a b : Located) → ◌≡◌ {A = End} (ok a) (ok b) → a ≡ b
ok_located a b h = cc

compare_first-IsStep :
    (P : ResponseMessage → Type 0) (id : List ℕ) (n : NetworkNode) (ns : List NetworkNode)
    → IsStep P id (get_distance n.id id) (compare_first n (sort_nodes id (n ∷ ns)))
unfolding compare_first
compare_first-IsStep P id n ns =
    let (m, ms, e, first) = sort_nodes-first id n ns in
    let near : IsNearestFirst id (m ∷ ms) =
      subst (IsNearestFirst id) e (sort_nodes-IsNearestFirst id (n ∷ ns)) in
    let bound : get_distance m.id id ≤ get_distance n.id id = elim first [
      | inl same ↦ let d = ap (λ (x : NetworkNode). get_distance x.id id) same in omega (arith, d)
      | inr nearer ↦ omega arith
    ] in
    rw e (elim (Bool-cases (equals_nodes m n false)) [
      | inl t ↦
          rw (t, compare_first)
            (λ located h.
              let k = ok_located _ located h in
              inr (m, ms, ap Located.values (sym k), ap Located.closest (sym k), near, bound))
      | inr t ↦
          rw (t, compare_first)
            (elim first [
              | inl same ↦
                  let k : equals_nodes m n false ≡ true = rw same (equals_nodes_refl n) in
                  absurd (cc)
              | inr nearer ↦ nearer
            ])
    ])

pub conclude-IsStep :
    (P : ResponseMessage → Type 0) (query_type : String) (results : List ResponseMessage)
    (id : List ℕ) (n : NetworkNode) (rest : List NetworkNode)
    → All P results
    → IsStep P id (get_distance n.id id) (conclude id n (merge query_type results (n ∷ rest)))
unfolding conclude
conclude-IsStep P query_type results id n rest all = go (merge query_type results (n ∷ rest)) refl
  where
    go :
        (o : Panics Merged)
        → merge query_type results (n ∷ rest) ≡ o
        → IsStep P id (get_distance n.id id) (conclude id n (merge query_type results (n ∷ rest)))
    go panic e = rw (e, conclude) (λ located h. cc)
    go (err x) e = elim x [ ]
    go (ok (found values)) e =
        let carried = merge-found P query_type results (n ∷ rest) values all e in
        rw (e, conclude)
          (λ located h. inl (values, ap Located.values (sym (ok_located _ located h)), carried))
    go (ok (known nodes)) e =
        let (more, front) = merge-front query_type results n rest nodes e in
        rw (e, conclude, front) (compare_first-IsStep P id n more)
