-- ===== src/Dht/Process.antt =====
-- dht.go: how a node is made, and the operations that its owner calls.
use bit_torrent_project.Common.{
  ℕ, List, [], ◌∷◌, Bool, true, not, ◌||◌, Option, none, some, String, ◌==◌, nat_eq, string_eq,
  bytes_eq_instance, if◌then◌else◌, Outcome, ok, err, panic, ◌>>=◌, ◌>>◌, require, or_fail,
  or_panic,
}
use bit_torrent_project.Dht.Node.{Panics, new_node_from_compact_info}
use bit_torrent_project.Dht.Table.{RoutingTable, new_routing_table}
use bit_torrent_project.Dht.Store.{new_kstore}
use bit_torrent_project.Dht.Messages.{QueryMessage, new_query_message}
use bit_torrent_project.Dht.Handler.{DhtNode, remove_expected_response}
use bit_torrent_project.Dht.Sending.{Round, send_message}
use bit_torrent_project.Dht.Lookup.{End, look_up}

-- The options, without the two times that their users take as arguments; an id may be nil.
pub record Options : Type 0 where
  pub id : Option (List ℕ)
  pub ip : String
  pub port : ℕ
  pub expiration_time : ℕ
  pub republish_time : ℕ

pub data TableError : Type 0 where
  no_random_id : TableError
  port_and_ip_required : TableError

-- `newRoutingTable`, with the result of `rand.Read` for options without an id, and `net.ParseIP`.
unfoldable pub open_routing_table :
    (String → List ℕ) → Option (List ℕ) → ℕ → Options → Outcome TableError RoutingTable
unfolding new_routing_table
open_routing_table parse_ip random now options = do
  id ← (elim options.id [ some id ↦ ok id | none ↦ or_fail random no_random_id ])
  require (not (options.ip == "" || options.port == 0)) port_and_ip_required
  ok (new_routing_table now (record { id = id; ip = parse_ip options.ip; port = options.port }))

-- `NewDHT` drops the error: `none` is a node without a routing table. The id that the node sends
-- is the one of the options.
unfoldable pub new_dht : (String → List ℕ) → Option (List ℕ) → ℕ → Options → Option DhtNode
unfolding open_routing_table new_kstore
new_dht parse_ip random now options = elim (open_routing_table parse_ip random now options) [
  | panic ↦ none
  | err e ↦ none
  | ok rt ↦ some (record {
    routing_table = rt;
    kstore = new_kstore;
    own_id = (elim options.id [ none ↦ [] | some id ↦ id ]);
    expiration_time = options.expiration_time;
    republish_time = options.republish_time;
    expected_responses = [];
  })
]

-- `GetID`.
unfoldable pub get_id : DhtNode → List ℕ
get_id dht = dht.own_id

-- What `AnnouncePeer` does with the nodes of its lookup: it reads them, which can panic, and sends
-- to each.
unfoldable pub addresses_of : (List ℕ → ℕ → String) → List (List ℕ) → Panics (List String)
unfolding new_node_from_compact_info
addresses_of address [] = ok []
addresses_of address (info ∷ infos) = do
  n ← new_node_from_compact_info info
  rest ← addresses_of address infos
  ok (address n.ip n.port ∷ rest)

module _ (transmit : QueryMessage → String → Option (List ℕ)) (address : List ℕ → ℕ → String)
    (time_to_die : ℕ) where
  -- `Ping`, with whether its response comes in time. A query that cannot be made is nil, and so is
  -- the expected response of one that cannot be sent: both are read all the same.
  unfoldable pub ping :
      ℕ → Option (List ℕ) → Option (List ℕ) → String → Bool → DhtNode → Panics DhtNode
  unfolding send_message new_query_message remove_expected_response
  ping now tid e addr in_time dht =
      elim (new_query_message tid e "ping" (("id", dht.own_id) ∷ [])) [
        | panic ↦ panic
        | err x ↦ panic
        | ok q ↦
            let (after, result) = send_message transmit address time_to_die now q true addr dht in
            elim result [
              | panic ↦ panic
              | err text ↦ panic
              | ok r ↦ or_panic r >>= λ expected.
                  ok (if in_time then after else remove_expected_response q.transaction_id after)
            ]
      ]

  -- `JoinNetwork`: after the ping it looks for its own id.
  unfoldable pub join_network :
      ℕ
      → ℕ
      → Option (List ℕ)
      → Option (List ℕ)
      → (ℕ → Round)
      → String
      → Bool
      → DhtNode
      → Option (DhtNode × End)
  unfolding ping look_up
  join_network fuel now tid e rounds addr in_time dht = elim (ping now tid e addr in_time dht) [
    | panic ↦ some (dht, panic)
    | err x ↦ elim x [ ]
    | ok after ↦ look_up transmit address time_to_die fuel rounds "find_node" dht.own_id after
  ]

  -- The goroutines of `AnnouncePeer` in the order in which they run.
  unfoldable pub send_all : ℕ → QueryMessage → List String → DhtNode → DhtNode
  unfolding send_message
  send_all now q [] dht = dht
  send_all now q (addr ∷ addrs) dht =
      send_all now q addrs (send_message transmit address time_to_die now q true addr dht).0

  -- `AnnouncePeer` up to the waiting for responses, with the text of the port, the transaction id of
  -- its message and the order in which its goroutines run. The test after the message is made is of
  -- the lookup's error, so that a message that cannot be made is nil when it is sent.
  unfoldable pub announce_peer :
      ℕ
      → ℕ
      → Option (List ℕ)
      → Option (List ℕ)
      → (ℕ → Round)
      → (List String → List String)
      → List ℕ
      → List ℕ
      → DhtNode
      → Option (Panics DhtNode)
  unfolding look_up new_query_message addresses_of send_all
  announce_peer fuel now tid e rounds order key port dht =
      elim (look_up transmit address time_to_die fuel rounds "find_node" key dht) [
        | none ↦ none
        | some (after, panic) ↦ some panic
        | some (after, err x) ↦ some (ok after)
        | some (after, ok located) ↦ some (
            addresses_of address located.closest >>= λ addrs.
            elim (new_query_message tid e "announce_peer"
              (("id", dht.own_id) ∷ ("info_hash", key) ∷ ("port", port) ∷ [])) [
                | panic ↦ panic
                | err x ↦ elim addrs [ [] ↦ ok after | a ∷ more ↦ panic ]
                | ok q ↦ ok (send_all now q (order addrs) after)
              ])
      ]
