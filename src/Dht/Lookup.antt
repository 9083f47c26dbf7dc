-- ===== src/Dht/Lookup.antt =====
-- dht.go: `LookUP`, the search of a node or of a torrent's peers in the network, and node.go:
-- `equalsNodes`.
use bit_torrent_project.Common.{
  ℕ, zero, suc, ◌+◌, List, [], ◌∷◌, ◌++◌, Bool, true, false, not, ◌&&◌, Option, none, some, String,
  length, take, drop, replicate, ltb, bytes_eq, ◌==◌, nat_eq, string_eq, bytes_eq_instance,
  if◌then◌else◌, Outcome, ok, err, panic, ◌>>=◌,
}
use bit_torrent_project.Common.Dict.{lookup}
use bit_torrent_project.Dht.Node.{
  NetworkNode, Panics, new_node_from_compact_info, append_unique, sort_nodes,
}
use bit_torrent_project.Dht.Table.{get_nearest_nodes}
use bit_torrent_project.Dht.Messages.{QueryMessage, ResponseMessage}
use bit_torrent_project.Dht.Handler.{DhtNode, argument, compact_infos, get_peers}
use bit_torrent_project.Dht.Sending.{LookupError, no_nodes_known, Round, gather, send_queries}

abbrev pub alpha : ℕ
alpha = 3

-- `net.IP.Equal`: an IPv4 address is the same in its form of four and of sixteen bytes.
abbrev pub v4_prefix : List ℕ
v4_prefix = replicate 10 0 ++ 255 ∷ 255 ∷ []

unfoldable pub ip_equal : List ℕ → List ℕ → Bool
ip_equal a b =
    if length a == length b
    then bytes_eq a b
    else if length a == 4 && length b == 16
    then bytes_eq (take 12 b) v4_prefix && bytes_eq a (drop 12 b)
    else if length a == 16 && length b == 4
    then bytes_eq (take 12 a) v4_prefix && bytes_eq (drop 12 a) b
    else false

-- `equalsNodes` on nodes that are there, whose ids are not nil.
unfoldable pub equals_nodes : NetworkNode → NetworkNode → Bool → Bool
unfolding ip_equal
equals_nodes n m let_id_nil =
    if not let_id_nil && not (bytes_eq n.id m.id)
    then false
    else if not (n.port == m.port)
    then false
    else if not (ip_equal n.ip m.ip)
    then false
    else true

-- `strings.Split(s, "//")`.
abbrev pub prepend : ℕ → List (List ℕ) → List (List ℕ)
prepend c [] = (c ∷ []) ∷ []
prepend c (p ∷ ps) = (c ∷ p) ∷ ps

unfoldable pub split : List ℕ → List (List ℕ)
split [] = [] ∷ []
split (c ∷ []) = (c ∷ []) ∷ []
split (c ∷ d ∷ s) = elim (c == 47 && d == 47) [
  | true ↦ [] ∷ split s
  | false ↦ prepend c (split (d ∷ s))
]

unfoldable pub read_nodes : List (List ℕ) → Panics (List NetworkNode)
unfolding new_node_from_compact_info
read_nodes [] = ok []
read_nodes (info ∷ infos) = do
  n ← new_node_from_compact_info info
  ns ← read_nodes infos
  ok (n ∷ ns)

-- The loop over the responses of a round ends the lookup with values, or gives the nodes known.
pub data Merged : Type 0 where
  found : List (List ℕ) → Merged
  known : List NetworkNode → Merged

unfoldable pub merge : String → List ResponseMessage → List NetworkNode → Panics Merged
unfolding split read_nodes append_unique
merge query_type [] nodes = ok (known nodes)
merge query_type (result ∷ results) nodes = elim (query_type == "find_node") [
  | true ↦ read_nodes (split (argument "nodes" result.response)) >>= λ ns.
      merge query_type results (append_unique nodes ns)
  | false ↦ elim (query_type == "get_peers") [
    | false ↦ merge query_type results nodes
    | true ↦ elim (lookup "values" result.response) [
      | some values ↦ ok (found (split values))
      | none ↦ read_nodes (split (argument "nodes" result.response)) >>= λ ns.
          merge query_type results (append_unique nodes ns)
    ]
  ]
]

-- What a lookup that ends without an error returns: values, with nil as `none`, and the compact
-- forms of the closest nodes.
pub record Located : Type 0 where
  pub values : Option (List (List ℕ))
  pub closest : List (List ℕ)

abbrev pub End : Type 0
End = Outcome LookupError Located

-- A round ends the lookup, or the nodes known are sorted for the next.
pub data Step : Type 0 where
  stopped : End → Step
  further : NetworkNode → List NetworkNode → Step

unfoldable pub compare_first : NetworkNode → List NetworkNode → Step
unfolding equals_nodes
compare_first closest_node [] = stopped (ok (record { values = none; closest = [] }))
compare_first closest_node (n ∷ ns) =
    if equals_nodes n closest_node false
    then stopped (ok (record { values = none; closest = compact_infos (n ∷ ns) }))
    else further n ns

unfoldable pub conclude : List ℕ → NetworkNode → Panics Merged → Step
unfolding compare_first sort_nodes
conclude id closest_node panic = stopped panic
conclude id closest_node (err x) = elim x [ ]
conclude id closest_node (ok (found values)) =
    stopped (ok (record { values = some values; closest = [] }))
conclude id closest_node (ok (known nodes)) = compare_first closest_node (sort_nodes id nodes)

module _ (transmit : QueryMessage → String → Option (List ℕ)) (address : List ℕ → ℕ → String)
    (time_to_die : ℕ) where
  -- One round on the nodes `closest_node ∷ rest`: it is the first of the sorted list.
  unfoldable pub look_round :
      Round → String → List ℕ → NetworkNode → List NetworkNode → DhtNode → DhtNode × Step
  unfolding gather merge conclude
  look_round round query_type id closest_node rest dht =
      let (asked, sent) =
        send_queries transmit address time_to_die round query_type id 0
          (take alpha (closest_node ∷ rest)) [] dht in
      elim sent [
        | panic ↦ (asked, stopped panic)
        | err x ↦ (asked, stopped (err x))
        | ok expected ↦
            let (after, results) =
              (if ltb 0 (length expected)
                then gather (length expected) round.events asked []
                else (asked, [])) in
            (after, conclude id closest_node (merge query_type results (closest_node ∷ rest)))
      ]

  -- The loop, with so many rounds at most; `none` is a lookup that needs more.
  unfoldable pub look_rounds :
      ℕ
      → ℕ
      → (ℕ → Round)
      → String
      → List ℕ
      → NetworkNode
      → List NetworkNode
      → DhtNode
      → Option (DhtNode × End)
  look_rounds zero i rounds query_type id closest_node rest dht = none
  look_rounds (suc fuel) i rounds query_type id closest_node rest dht =
      let (after, step) = look_round (rounds i) query_type id closest_node rest dht in
      elim step [
        | stopped end ↦ some (after, end)
        | further n ns ↦ look_rounds fuel (i + 1) rounds query_type id n ns after
      ]

  unfoldable pub look_up : ℕ → (ℕ → Round) → String → List ℕ → DhtNode → Option (DhtNode × End)
  look_up fuel rounds query_type id dht = elim (get_nearest_nodes alpha id dht.routing_table) [
    | panic ↦ some (dht, panic)
    | err x ↦ elim x [ ]
    | ok [] ↦ some (dht, err no_nodes_known)
    | ok (n ∷ ns) ↦ look_rounds fuel 0 rounds query_type id n ns dht
  ]

  -- `GetPeersToDownload`. The lookup's error is returned, and no values are an empty list.
  abbrev pub peers_of : End → Outcome LookupError (List (List ℕ))
  peers_of panic = panic
  peers_of (err x) = err x
  peers_of (ok located) = elim located.values [ none ↦ ok [] | some values ↦ ok values ]

  unfoldable pub get_peers_to_download :
      ℕ → (ℕ → Round) → List ℕ → DhtNode → Option (DhtNode × Outcome LookupError (List (List ℕ)))
  unfolding get_peers
  get_peers_to_download fuel rounds infohash dht = elim (get_peers infohash dht) [
    | panic ↦ some (dht, panic)
    | err x ↦ elim x [ ]
    | ok (peers, true) ↦ some (dht, ok peers)
    | ok (peers, false) ↦ elim (look_up fuel rounds "get_peers" infohash dht) [
      | none ↦ none
      | some (after, end) ↦ some (after, peers_of end)
    ]
  ]
