-- ===== src/Dht/Server.antt =====
-- krpc.go: what a node does with a packet.
use bit_torrent_project.Common.{
  ℕ, List, Option, none, some, String, get_elem?, ◌==◌, string_eq, if◌then◌else◌, ok, panic, ◌>>=◌,
  or_panic,
}
use bit_torrent_project.Dht.Node.{Panics}
use bit_torrent_project.Dht.Messages.{QueryMessage, ResponseMessage}
use bit_torrent_project.Dht.Handler.{
  DhtNode, Reply, response_ping, response_find_node, response_get_peers, response_announce_peers,
  get_response,
}

-- What the bencode library reads of a packet as an error, as a query and as a response, where it
-- can read it as an error; else `HandleMessage` panics at once.
pub record Packet : Type 0 where
  pub error_type : String
  pub error_field : List (List ℕ)
  pub query : Option QueryMessage
  pub response : Option ResponseMessage

-- What `HandleMessage` does: it logs an error, writes a response, or has a response delivered.
pub data Action : Type 0 where
  logged : List ℕ → Action
  written : ResponseMessage → Action
  delivered : List (List ℕ × Option ResponseMessage) → Action

-- After a handler: on an error the text is read from the packet's error field, not from the error.
unfoldable pub write_reply : Packet → Reply → Panics (DhtNode × Action)
write_reply p reply = elim reply.error [
  | none ↦ or_panic reply.message >>= λ m. ok (reply.after, written m)
  | some x ↦ or_panic (get_elem? p.error_field 1) >>= λ text.
      or_panic reply.message >>= λ m. ok (reply.after, written m)
]

module _ (resolve : String → Option (List ℕ × ℕ)) (peer_text : List ℕ → List ℕ → List ℕ) where
  -- The four handlers by the query's name; the second test for find_node is never reached.
  unfoldable pub respond :
      ℕ → Option (List ℕ) → QueryMessage → String → DhtNode → Option (Panics Reply)
  unfolding response_ping response_find_node response_get_peers response_announce_peers
  respond now e msg addr dht =
      if msg.query_name == "ping"
      then some (response_ping resolve peer_text now e msg addr dht)
      else if msg.query_name == "find_node"
      then some (response_find_node resolve peer_text now e msg addr dht)
      else if msg.query_name == "get_peers"
      then some (response_get_peers resolve peer_text now e msg addr dht)
      else if msg.query_name == "announce_peer"
      then some (response_announce_peers resolve peer_text now e msg addr dht)
      else none

  -- The part of `HandleMessage` after the query's.
  unfoldable pub handle_response :
      ℕ → Option (List ℕ) → Packet → String → DhtNode → Panics (DhtNode × Action)
  handle_response now e p addr dht = or_panic p.response >>= λ msg.
      let r = get_response resolve peer_text now e msg addr dht in
      if msg.type_of_message == "r"
      then (r >>= λ (after, sent). ok (after, delivered sent))
      else panic

  unfoldable pub handle_query :
      ℕ → Option (List ℕ) → Packet → QueryMessage → String → DhtNode → Panics (DhtNode × Action)
  unfolding write_reply
  handle_query now e p msg addr dht = elim (respond now e msg addr dht) [
    | none ↦ handle_response now e p addr dht
    | some r ↦ r >>= λ reply. write_reply p reply
  ]

  unfoldable pub handle_message :
      ℕ → Option (List ℕ) → Packet → String → DhtNode → Panics (DhtNode × Action)
  handle_message now e p addr dht =
      if p.error_type == "e"
      then (or_panic (get_elem? p.error_field 1) >>= λ text. ok (dht, logged text))
      else (elim p.query [
        | none ↦ handle_response now e p addr dht
        | some msg ↦
            if msg.type_of_message == "q"
            then handle_query now e p msg addr dht
            else handle_response now e p addr dht
      ])
