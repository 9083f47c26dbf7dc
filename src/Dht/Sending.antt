-- ===== src/Dht/Sending.antt =====
-- dht.go: the queries of a lookup, `SendMessage`, and what comes back of them.
use bit_torrent_project.Common.{
  ℕ, ◌+◌, List, [], ◌∷◌, ◌++◌, Bool, true, false, Option, none, some, String, length, ◌==◌, nat_eq,
  string_eq, bytes_eq_instance, if◌then◌else◌, Outcome, ok, err, panic,
}
use bit_torrent_project.Common.Dict.{insert}
use bit_torrent_project.Dht.Node.{NetworkNode}
use bit_torrent_project.Dht.Messages.{
  KrpcError, Failure, QueryMessage, ResponseMessage, new_query_message,
}
use bit_torrent_project.Dht.Handler.{ExpectedResponse, DhtNode, remove_expected_response}

-- The errors of `LookUP`. A query that cannot be sent gives the text of the library's error.
pub data LookupError : Type 0 where
  no_nodes_known : LookupError
  not_valid_query_type : LookupError
  not_made : KrpcError → LookupError
  not_sent : List ℕ → LookupError

-- `errors.New(err.ErrorKRPC())`, which panics where the error is a nil pointer.
unfoldable pub made : Outcome Failure QueryMessage → Outcome LookupError QueryMessage
made panic = panic
made (err none) = panic
made (err (some x)) = err (not_made x)
made (ok q) = ok q

-- The query of a lookup to a node. Its "id" is the id of the node that is asked.
unfoldable pub lookup_query :
    Option (List ℕ)
    → Option (List ℕ)
    → String
    → List ℕ
    → NetworkNode
    → Outcome LookupError QueryMessage
unfolding made new_query_message
lookup_query tid e query_type id n =
    if query_type == "find_node"
    then made (new_query_message tid e query_type (("id", n.id) ∷ ("target", id) ∷ []))
    else if query_type == "get_peers"
    then made (new_query_message tid e query_type (("id", n.id) ∷ ("info_hash", id) ∷ []))
    else err not_valid_query_type

-- What happens while a lookup waits for its responses: a response comes, in time, or the waiting
-- goroutine of a query is told nil or runs into its time limit, or another part of the program
-- changes the node.
pub data Event : Type 0 where
  answer : ResponseMessage → Event
  silence : List ℕ → Event
  other : (DhtNode → DhtNode) → Event

-- What the surroundings give to one round: the time, the results of `newTransactionID` by the
-- index of the node, and the events up to the time limit.
pub record Round : Type 0 where
  pub now : ℕ
  pub transaction_id : ℕ → Option (List ℕ)
  pub error_id : ℕ → Option (List ℕ)
  pub events : List Event

-- `len(results) == expR` ends the waiting; so does the end of the events.
unfoldable pub gather :
    ℕ → List Event → DhtNode → List ResponseMessage → DhtNode × List ResponseMessage
unfolding remove_expected_response
gather expected [] dht results = (dht, results)
gather expected (answer m ∷ events) dht results = elim (length (results ++ m ∷ []) == expected) [
  | true ↦ (dht, results ++ m ∷ [])
  | false ↦ gather expected events dht (results ++ m ∷ [])
]
gather expected (silence tid ∷ events) dht results =
    gather expected events (remove_expected_response tid dht) results
gather expected (other f ∷ events) dht results = gather expected events (f dht) results

-- `transmit` encodes the query, resolves the address and writes: nothing, or the text of the
-- error that this ends with. `address` is the text of the address with an IP and a port, and
-- `time_to_die` an option of the node.
module _ (transmit : QueryMessage → String → Option (List ℕ)) (address : List ℕ → ℕ → String)
    (time_to_die : ℕ) where
  unfoldable pub send_message :
      ℕ
      → QueryMessage
      → Bool
      → String
      → DhtNode
      → DhtNode × Outcome (List ℕ) (Option ExpectedResponse)
  send_message now query expecting_response addr dht = elim (transmit query addr) [
    | some text ↦ (dht, err text)
    | none ↦ elim expecting_response [
      | false ↦ (dht, ok none)
      | true ↦
          let r : ExpectedResponse = record {
            id_query = query.transaction_id;
            mess = query;
            receiver_addr = addr;
            time_to_die = now + time_to_die;
          } in
          (
            record dht {
              expected_responses = insert query.transaction_id r dht.expected_responses;
            },
            ok (some r),
          )
    ]
  ]

  -- The first loop of a round, over the nodes from index `i` on, with what it has appended to
  -- `expectedResponsesLU`.
  unfoldable pub send_queries :
      Round
      → String
      → List ℕ
      → ℕ
      → List NetworkNode
      → List (Option ExpectedResponse)
      → DhtNode
      → DhtNode × Outcome LookupError (List (Option ExpectedResponse))
  unfolding send_message lookup_query
  send_queries round query_type id i [] sent dht = (dht, ok sent)
  send_queries round query_type id i (n ∷ ns) sent dht =
      elim (lookup_query (round.transaction_id i) (round.error_id i) query_type id n) [
        | panic ↦ (dht, panic)
        | err x ↦ (dht, err x)
        | ok q ↦
            let (after, result) = send_message round.now q true (address n.ip n.port) dht in
            elim result [
              | panic ↦ (after, panic)
              | err text ↦ (after, err (not_sent text))
              | ok er ↦ send_queries round query_type id (i + 1) ns (sent ++ er ∷ []) after
            ]
      ]
