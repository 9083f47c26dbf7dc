-- ===== src/Dht/Handler.antt =====
-- handler.go, and what it calls of dht.go and krpc.go: how a node answers a query, takes a response
-- and handles a packet. Functions of a section over the texts of addresses: `resolve` is
-- `net.ResolveUDPAddr`, `peer_text` the text of the address with an IP and the text of a port.
use bit_torrent_project.Common.{
  ℕ, ◌+◌, List, [], ◌∷◌, ◌++◌, Bool, true, false, not, ◌&&◌, ◌||◌, Option, none, some, String, ltb,
  ◌==◌, string_eq, bytes_eq_instance, if◌then◌else◌, Outcome, ok, err, panic, ◌>>=◌, codes,
}
use bit_torrent_project.Common.Dict.{Dict, lookup, has, delete}
use bit_torrent_project.Dht.Node.{NetworkNode, Panics, compact_info}
use bit_torrent_project.Dht.Table.{k_max, RoutingTable, update_bucket_of_node, get_nearest_nodes}
use bit_torrent_project.Dht.Store.{KStore, StoreError, time_in_the_past, store, get_values}
use bit_torrent_project.Dht.Messages.{
  Args, literal, reported, Failure, new_protocol_error, new_generic_error, QueryMessage,
  ResponseMessage, new_response_message,
}

pub record ExpectedResponse : Type 0 where
  pub id_query : List ℕ
  pub mess : QueryMessage
  pub receiver_addr : String
  pub time_to_die : ℕ

pub record DhtNode : Type 0 where
  pub routing_table : RoutingTable
  pub kstore : KStore
  pub own_id : List ℕ
  pub expiration_time : ℕ
  pub republish_time : ℕ
  pub expected_responses : Dict (List ℕ) ExpectedResponse

-- `args[name]`, which is "" where it is missing.
abbrev pub argument : String → Args → List ℕ
argument name args = elim (lookup name args) [ none ↦ [] | some v ↦ v ]

-- `strings.Join(parts, "//")`.
abbrev pub join : List (List ℕ) → List ℕ
join [] = []
join (p ∷ []) = p
join (p ∷ q ∷ ps) = p ++ (codes "//" ++ join (q ∷ ps))

abbrev pub compact_infos : List NetworkNode → List (List ℕ)
compact_infos [] = []
compact_infos (n ∷ ns) = compact_info n ∷ compact_infos ns

-- `FindNode` of dht.go.
unfoldable pub find_node : List ℕ → DhtNode → Panics (List (List ℕ))
find_node target dht =
    get_nearest_nodes k_max target dht.routing_table >>= λ ns. ok (compact_infos ns)

-- `GetPeers` of dht.go.
unfoldable pub get_peers : List ℕ → DhtNode → Panics (List (List ℕ) × Bool)
unfolding find_node get_values
get_peers infohash dht = elim (get_values infohash dht.kstore) [
  | some values ↦ ok (values, true)
  | none ↦ find_node infohash dht >>= λ nodes. ok (nodes, false)
]

-- What a handler gives: its two results, and the node after it. An error of `some none` is an
-- interface that holds a nil pointer.
pub record Reply : Type 0 where
  pub message : Option ResponseMessage
  pub error : Option Failure
  pub after : DhtNode

unfoldable pub remove_expected_response : List ℕ → DhtNode → DhtNode
remove_expected_response tid dht = record dht {
  expected_responses = delete tid dht.expected_responses;
}

-- `CheckExpectedResponses`, one tick.
unfoldable pub live_responses : ℕ → Dict (List ℕ) ExpectedResponse → Dict (List ℕ) ExpectedResponse
live_responses now [] = []
live_responses now ((k, r) ∷ m) =
    if ltb r.time_to_die now then live_responses now m else (k, r) ∷ live_responses now m

unfoldable pub check_expected_responses : ℕ → DhtNode → DhtNode
unfolding live_responses
check_expected_responses now dht = record dht {
  expected_responses = live_responses now dht.expected_responses;
}

-- Does `getResponse` take the response as one to this query? `none` is a query whose response is
-- not delivered at all.
unfoldable pub answers : QueryMessage → ResponseMessage → Option Bool
answers query msg =
    if query.query_name == "find_node"
    then some (has "id" msg.response && has "nodes" msg.response)
    else if query.query_name == "get_peers"
    then some (has "id" msg.response && (has "nodes" msg.response || has "values" msg.response))
    else if query.query_name == "ping"
    then some (has "id" msg.response)
    else none

-- What `getResponse` sends to the channel of an expected response, with nil as `none`, and the
-- node after it.
unfoldable pub deliver :
    ResponseMessage → String → DhtNode → DhtNode × List (List ℕ × Option ResponseMessage)
unfolding answers remove_expected_response
deliver msg addr dht = elim (lookup msg.transaction_id dht.expected_responses) [
  | none ↦ (dht, [])
  | some r ↦
      if not (addr == r.receiver_addr)
      then (remove_expected_response r.id_query dht, (r.id_query, none) ∷ [])
      else (elim (answers r.mess msg) [
        | none ↦ (dht, [])
        | some true ↦ (dht, (r.id_query, some msg) ∷ [])
        | some false ↦ (remove_expected_response msg.transaction_id dht, (r.id_query, none) ∷ [])
      ])
]

module _ (resolve : String → Option (List ℕ × ℕ)) (peer_text : List ℕ → List ℕ → List ℕ) where
  -- `updateNodeOfMessage` and `updateNodeOfResponse`, which differ in a text: the sender goes to
  -- the routing table.
  unfoldable pub update_node_of :
      ℕ → Option (List ℕ) → String → Args → String → DhtNode → Panics (DhtNode × Option Failure)
  unfolding new_protocol_error new_generic_error
  update_node_of now e text args addr dht = elim (lookup "id" args) [
    | none ↦ ok (dht, some (new_protocol_error e (literal text)))
    | some id ↦ elim (resolve addr) [
      | none ↦ ok (dht, some (new_generic_error e (reported "error resolving udp addr: ")))
      | some (ip, port) ↦ do
        rt ← update_bucket_of_node now (record { id = id; ip = ip; port = port }) dht.routing_table
        ok (record dht { routing_table = rt }, none)
    ]
  ]

  -- The end of every handler: the response is made, the sender is noted.
  unfoldable pub finish :
      ℕ → Option (List ℕ) → String → QueryMessage → String → Args → DhtNode → Panics Reply
  unfolding update_node_of
  finish now e name msg addr args dht = elim (new_response_message e name msg.transaction_id args) [
    | panic ↦ panic
    | err x ↦ ok (record { message = none; error = some x; after = dht })
    | ok response ↦ do
      (after, error) ←
          update_node_of now e "id key is required for ping request" msg.arguments addr dht
      ok (record { message = some response; error = error; after = after })
  ]

  unfoldable pub response_ping :
      ℕ → Option (List ℕ) → QueryMessage → String → DhtNode → Panics Reply
  unfolding finish
  response_ping now e msg addr dht = finish now e "ping" msg addr (("id", dht.own_id) ∷ []) dht

  unfoldable pub response_find_node :
      ℕ → Option (List ℕ) → QueryMessage → String → DhtNode → Panics Reply
  unfolding finish
  response_find_node now e msg addr dht = do
    nodes ← find_node (argument "target" msg.arguments) dht
    finish now e msg.query_name msg addr (("id", dht.own_id) ∷ ("nodes", join nodes) ∷ []) dht

  unfoldable pub response_get_peers :
      ℕ → Option (List ℕ) → QueryMessage → String → DhtNode → Panics Reply
  unfolding finish
  response_get_peers now e msg addr dht = do
    (peers, found) ← get_peers (argument "info_hash" msg.arguments) dht
    finish now e msg.query_name msg addr
        (("id", dht.own_id) ∷ (if found then "values" else "nodes", join peers) ∷ []) dht

  -- The rest of `ResponseAnnouncePeers` after the call of `Store`.
  unfoldable pub announce_stored :
      ℕ
      → Option (List ℕ)
      → QueryMessage
      → String
      → DhtNode
      → Outcome StoreError KStore
      → Panics Reply
  unfolding finish new_generic_error
  announce_stored now e msg addr dht panic = panic
  announce_stored now e msg addr dht (err time_in_the_past) = ok (record {
    message = none;
    error = some (
        new_generic_error e
          (literal "expiration time and republish time have to be after current time"));
    after = dht;
  })
  announce_stored now e msg addr dht (ok st) =
      finish now e msg.query_name msg addr (("id", dht.own_id) ∷ []) (record dht { kstore = st })

  -- `ResponseAnnouncePeers`, with `Store` of dht.go.
  unfoldable pub response_announce_peers :
      ℕ → Option (List ℕ) → QueryMessage → String → DhtNode → Panics Reply
  unfolding announce_stored new_generic_error
  response_announce_peers now e msg addr dht = elim (resolve addr) [
    | none ↦
        ok
          (record { message = none; error = some (new_generic_error e (reported "")); after = dht })
    | some (ip, port) ↦ announce_stored now e msg addr dht (
        store now (argument "info_hash" msg.arguments)
          (peer_text ip (argument "port" msg.arguments)) (now + dht.expiration_time)
          (now + dht.republish_time) dht.kstore)
  ]

  unfoldable pub get_response :
      ℕ
      → Option (List ℕ)
      → ResponseMessage
      → String
      → DhtNode
      → Panics (DhtNode × List (List ℕ × Option ResponseMessage))
  unfolding deliver update_node_of
  get_response now e msg addr dht = do
    let (after, sent) = deliver msg addr dht
    (final, error) ← update_node_of now e "id key is required" msg.response addr after
    ok (final, sent)
