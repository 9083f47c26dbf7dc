-- ===== src/Dht/Answering.antt =====
-- handler.go and krpc.go: what a node answers, and when handling a packet panics.
use bit_torrent_project.Common.{
  ℕ, ◌+◌, ◌≡◌, ◌⊎◌, inl, inr, refl, sym, ap, List, [], ◌∷◌, Bool, true, false, not, ◌&&◌, ◌||◌,
  Option, none, some, String, length, ◌==◌, string_eq, nat_eq, bytes_eq_instance, if◌then◌else◌,
  Outcome, ok, err, ◌>>◌, require, arith, Bool-cases,
}
use bit_torrent_project.Common.Dict.{lookup, has}
use bit_torrent_project.Dht.Table.{RoutingTable}
use bit_torrent_project.Dht.Tables.{IsId, IsTable}
use bit_torrent_project.Dht.Placement.{update_bucket_of_node-IsTable}
use bit_torrent_project.Dht.Ordered.{member}
use bit_torrent_project.Dht.Retrieval.{IsTimed, store-get_values}
use bit_torrent_project.Dht.Messages.{
  Args, QueryMessage, ResponseMessage, arguments_given, argument_given, response_of,
  new_response_message, ping_response, get_peers_response, find_node_response,
  announce_peer_response,
}
use bit_torrent_project.Dht.Handler.{
  DhtNode, argument, get_peers, Reply, update_node_of, finish, announce_stored,
  response_announce_peers, answers,
}

require-ok :
    {E : Type 0} {A : Type 0} (b : Bool) (x : E) (k : Outcome E A) (m : A)
    → (require b x >> k) ≡ ok m
    → (b ≡ true) × (k ≡ ok m)
require-ok true x k m h = (refl, h)
require-ok false x k m h = cc

ping_response-ok :
    (e : Option (List ℕ)) (tid : List ℕ) (args : Args) (m : ResponseMessage)
    → ping_response e tid args ≡ ok m
    → (response_of tid args ≡ m) × (has "id" args ≡ true)
unfolding ping_response arguments_given argument_given
ping_response-ok e tid args m h =
    let (_, h1) = require-ok (length args == 1) _ _ m h in
    let (id, h2) = require-ok (has "id" args) _ _ m h1 in (cc, id)

get_peers_response-ok :
    (e : Option (List ℕ)) (tid : List ℕ) (args : Args) (m : ResponseMessage)
    → get_peers_response e tid args ≡ ok m
    → (response_of tid args ≡ m)
      × (has "id" args ≡ true)
      × ((has "values" args || has "nodes" args) ≡ true)
unfolding get_peers_response arguments_given argument_given
get_peers_response-ok e tid args m h =
    let (_, h1) = require-ok (length args == 2) _ _ m h in
    let (id, h2) = require-ok (has "id" args) _ _ m h1 in
    let (one, h3) = require-ok (has "values" args || has "nodes" args) _ _ m h2 in
    let (_, h4) = require-ok (not (has "values" args && has "nodes" args)) _ _ m h3 in (cc, id, one)

find_node_response-ok :
    (e : Option (List ℕ)) (tid : List ℕ) (args : Args) (m : ResponseMessage)
    → find_node_response e tid args ≡ ok m
    → (response_of tid args ≡ m) × (has "id" args ≡ true) × (has "nodes" args ≡ true)
unfolding find_node_response arguments_given argument_given
find_node_response-ok e tid args m h =
    let (_, h1) = require-ok (length args == 2) _ _ m h in
    let (id, h2) = require-ok (has "id" args) _ _ m h1 in
    let (nodes, h3) = require-ok (has "nodes" args) _ _ m h2 in (cc, id, nodes)

announce_peer_response-ok :
    (e : Option (List ℕ)) (tid : List ℕ) (args : Args) (m : ResponseMessage)
    → announce_peer_response e tid args ≡ ok m
    → response_of tid args ≡ m
unfolding announce_peer_response arguments_given argument_given
announce_peer_response-ok e tid args m h =
    let (_, h1) = require-ok (length args == 1) _ _ m h in
    let (id, h2) = require-ok (has "id" args) _ _ m h1 in cc

-- The names of the four queries, and the rest.
pub query_cases :
    (name : String)
    → (name ≡ "ping")
      ⊎ ((name ≡ "get_peers")
          ⊎ ((name ≡ "find_node")
              ⊎ ((name ≡ "announce_peer")
                  ⊎ (((name == "ping") ≡ false)
                      × ((name == "get_peers") ≡ false)
                      × ((name == "find_node") ≡ false)
                      × ((name == "announce_peer") ≡ false)))))
query_cases name = elim (Bool-cases (name == "ping")) [
  | inl t ↦ inl ((string_eq.test_iff name "ping").0 t)
  | inr a ↦ inr (elim (Bool-cases (name == "get_peers")) [
    | inl t ↦ inl ((string_eq.test_iff name "get_peers").0 t)
    | inr b ↦ inr (elim (Bool-cases (name == "find_node")) [
      | inl t ↦ inl ((string_eq.test_iff name "find_node").0 t)
      | inr c ↦ inr (elim (Bool-cases (name == "announce_peer")) [
        | inl t ↦ inl ((string_eq.test_iff name "announce_peer").0 t)
        | inr d ↦ inr (a, b, c, d)
      ])
    ])
  ])
]

-- A response that `newResponseMessage` makes for a query's name carries the transaction id that it
-- was given, and `getResponse` takes it as an answer to a query of this name; except for
-- announce_peer, whose responses it does not look at.
pub response-answers :
    (e : Option (List ℕ)) (name : String) (tid : List ℕ) (args : Args) (m : ResponseMessage)
    (q : QueryMessage)
    → new_response_message e name tid args ≡ ok m
    → q.query_name ≡ name
    → (m.transaction_id ≡ tid)
      × (answers q m ≡ (if name == "announce_peer" then none else some true))
unfolding answers new_response_message response_of
response-answers e name tid args m q h n = elim (query_cases name) [
  | inl is ↦
      let (r, id) = ping_response-ok e tid args m (rw (is, new_response_message) at h) in
      (ap (λ (x : ResponseMessage). x.transaction_id) (sym r), rw (n, is, sym r) (rw id refl))
  | inr (inl is) ↦
      let (r, id, one) = get_peers_response-ok e tid args m (rw (is, new_response_message) at h) in
      (
        ap (λ (x : ResponseMessage). x.transaction_id) (sym r),
        rw (n, is, sym r) (rw id (ground (arith, one))),
      )
  | inr (inr (inl is)) ↦
      let (r, id, nodes) =
        find_node_response-ok e tid args m (rw (is, new_response_message) at h) in
      (
        ap (λ (x : ResponseMessage). x.transaction_id) (sym r),
        rw (n, is, sym r) (rw (id, nodes) refl),
      )
  | inr (inr (inr (inl is))) ↦
      let r = announce_peer_response-ok e tid args m (rw (is, new_response_message) at h) in
      (ap (λ (x : ResponseMessage). x.transaction_id) (sym r), rw (n, is) refl)
  | inr (inr (inr (inr (a, b, c, d)))) ↦
      let no : err _ ≡ ok m = rw (a, new_response_message, b, c, d) at h in cc
]

module _ (resolve : String → Option (List ℕ × ℕ)) (peer_text : List ℕ → List ℕ → List ℕ) where
  -- The end of a handler whose response is accepted, for a sender with an id of twenty bytes.
  pub finish-total :
      (now : ℕ) (e : Option (List ℕ)) (name : String) (msg : QueryMessage) (addr : String)
      (args : Args) (dht : DhtNode) (r : ResponseMessage) (id ip : List ℕ) (port : ℕ)
      → new_response_message e name msg.transaction_id args ≡ ok r
      → lookup "id" msg.arguments ≡ some id
      → IsId id
      → resolve addr ≡ some (ip, port)
      → IsTable dht.routing_table
      → (rt : RoutingTable) × IsTable rt
        × (finish resolve peer_text now e name msg addr args dht
            ≡ ok (record {
              message = some r;
              error = none;
              after = record dht { routing_table = rt };
            }))
  unfolding finish update_node_of
  finish-total now e name msg addr args dht r id ip port a i hid s h =
      let (rt, u, t, _) =
        update_bucket_of_node-IsTable now (record { id = id; ip = ip; port = port })
          dht.routing_table id h hid hid in
      (rt, t, rw (a, finish, i, update_node_of, s, u) refl)

  -- An announce_peer query from a sender with an id of twenty bytes, whose address can be
  -- resolved, is answered without an error by a node whose table is as it should be and whose
  -- store holds the announced pair in case the pair has an expiration time. The table stays so,
  -- and after the query the node answers `GetPeers` for the info hash with values, among them the
  -- address of the sender with the port that it announced.
  pub announce-get_peers :
      (now : ℕ) (e : Option (List ℕ)) (msg : QueryMessage) (addr : String) (dht : DhtNode)
      (id ip : List ℕ) (port : ℕ)
      → msg.query_name ≡ "announce_peer"
      → lookup "id" msg.arguments ≡ some id
      → IsId id
      → resolve addr ≡ some (ip, port)
      → IsTable dht.routing_table
      → IsTimed
          (argument "info_hash" msg.arguments)
          (peer_text ip (argument "port" msg.arguments))
          dht.kstore
      → (reply : Reply) × (r : ResponseMessage) × (values : List (List ℕ))
        × (response_announce_peers resolve peer_text now e msg addr dht ≡ ok reply)
        × (reply.message ≡ some r)
        × (reply.error ≡ none)
        × IsTable reply.after.routing_table
        × (get_peers (argument "info_hash" msg.arguments) reply.after ≡ ok (values, true))
        × (member (peer_text ip (argument "port" msg.arguments)) values ≡ true)
  unfolding response_announce_peers announce_stored get_peers new_response_message
      announce_peer_response arguments_given argument_given
  announce-get_peers now e msg addr dht id ip port name i hid s h timed =
      let ih = argument "info_hash" msg.arguments in
      let text = peer_text ip (argument "port" msg.arguments) in
      let (st, values, k, g, m) =
        store-get_values now ih text (now + dht.expiration_time) (now + dht.republish_time)
          dht.kstore timed (omega arith) (omega arith) in
      let r = response_of msg.transaction_id (("id", dht.own_id) ∷ []) in
      let accepted : new_response_message e msg.query_name msg.transaction_id
            (("id", dht.own_id) ∷ [])
          ≡ ok r =
        rw (name, new_response_message) refl in
      let (rt, t, f) =
        finish-total now e msg.query_name msg addr (("id", dht.own_id) ∷ [])
          (record dht { kstore = st }) r id ip port accepted i hid s h in
      let reply : Reply = record {
        message = some r;
        error = none;
        after = record dht { kstore = st; routing_table = rt };
      } in
      (
        reply,
        r,
        values,
        rw (s, response_announce_peers, k) f,
        refl,
        refl,
        t,
        rw (g, get_peers) refl,
        m,
      )
