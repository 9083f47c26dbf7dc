-- ===== src/Dht/Finding.antt =====
-- handler.go and dht.go: the answer to a find_node query.
use bit_torrent_project.Common.{
  ℕ, ◌≤◌, ◌≡◌, refl, ◌∙◌, List, [], ◌∷◌, true, false, Option, none, some, String, length, ◌==◌,
  string_eq, bytes_eq_instance, ok,
}
use bit_torrent_project.Common.Dict.{lookup}
use bit_torrent_project.Dht.Node.{NetworkNode}
use bit_torrent_project.Dht.Table.{k_max}
use bit_torrent_project.Dht.Tables.{IsId, IsTable}
use bit_torrent_project.Dht.Nearest.{IsNearestFirst, get_nearest_nodes-total}
use bit_torrent_project.Dht.Messages.{
  QueryMessage, ResponseMessage, response_of, new_response_message, find_node_response,
  arguments_given, argument_given,
}
use bit_torrent_project.Dht.Handler.{
  DhtNode, argument, join, compact_infos, find_node, answers, Reply, response_find_node,
}
use bit_torrent_project.Dht.Answering.{finish-total, response-answers}

not_announce_peer : (name : String) → name ≡ "find_node" → (name == "announce_peer") ≡ false
not_announce_peer name e = rw e refl

module _ (resolve : String → Option (List ℕ × ℕ)) (peer_text : List ℕ → List ℕ → List ℕ) where
  -- A find_node query from a sender with an id of twenty bytes, whose address can be resolved, for a
  -- target of twenty bytes is answered without an error by a node whose table is as it should be.
  -- The response carries the compact forms of at most 20 nodes, nearest to the target first, the
  -- asking node takes it as an answer to its query, and the table stays as it should be.
  pub find_node-answered :
      (now : ℕ) (e : Option (List ℕ)) (msg : QueryMessage) (addr : String) (dht : DhtNode)
      (id ip : List ℕ) (port : ℕ)
      → msg.query_name ≡ "find_node"
      → lookup "id" msg.arguments ≡ some id
      → IsId id
      → IsId (argument "target" msg.arguments)
      → resolve addr ≡ some (ip, port)
      → IsTable dht.routing_table
      → (reply : Reply) × (r : ResponseMessage) × (ns : List NetworkNode) × (response_find_node
            resolve peer_text now e msg addr dht
          ≡ ok reply)
        × (reply.message ≡ some r)
        × (reply.error ≡ none)
        × IsTable reply.after.routing_table
        × (answers msg r ≡ some true)
        × (lookup "nodes" r.response ≡ some (join (compact_infos ns)))
        × (length ns ≤ k_max)
        × IsNearestFirst (argument "target" msg.arguments) ns
  unfolding response_find_node find_node new_response_message find_node_response arguments_given
      argument_given response_of
  find_node-answered now e msg addr dht id ip port name i hid ht s h =
      let target = argument "target" msg.arguments in
      let (ns, found, few, near) = get_nearest_nodes-total k_max target dht.routing_table h ht in
      let args = ("id", dht.own_id) ∷ ("nodes", join (compact_infos ns)) ∷ [] in
      let r = response_of msg.transaction_id args in
      let accepted : new_response_message e msg.query_name msg.transaction_id args ≡ ok r =
        rw (name, new_response_message) refl in
      let (rt, t, f) =
        finish-total resolve peer_text now e msg.query_name msg addr args dht r id ip port accepted
          i hid s h in
      let (_, answered) =
        response-answers e msg.query_name msg.transaction_id args r msg accepted refl in
      let other : (msg.query_name == "announce_peer") ≡ false =
        not_announce_peer msg.query_name name in
      let reply : Reply = record {
        message = some r;
        error = none;
        after = record dht { routing_table = rt };
      } in
      (
        reply,
        r,
        ns,
        rw (found, response_find_node, find_node) f,
        refl,
        refl,
        t,
        answered ∙ rw other refl,
        refl,
        few,
        near,
      )
