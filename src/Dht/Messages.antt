-- ===== src/Dht/Messages.antt =====
-- krpcMsg.go: the messages of the DHT's protocol and the checks on their arguments.
use bit_torrent_project.Common.{
  ℕ, List, not, ◌&&◌, ◌||◌, Option, none, some, String, length, ◌==◌, nat_eq, string_eq,
  if◌then◌else◌, Outcome, ok, err, ◌>>=◌, ◌>>◌, require, or_fail,
}
use bit_torrent_project.Common.Dict.{Dict, has}

-- A string of the protocol is its bytes; names of arguments and of queries are literals.
abbrev pub Args : Type 0
Args = Dict String (List ℕ)

-- The text of an error: a literal, one with a number between its parts, or one that the text of a
-- library's error follows.
pub data Text : Type 0 where
  literal : String → Text
  reported : String → Text
  counted : String → ℕ → String → Text

pub record KrpcError : Type 0 where
  pub transaction_id : List ℕ
  pub type_of_message : String
  pub error_code : String
  pub text : Text

-- The calls of `newTransactionID` that a function makes are arguments: `none` where `rand.Read`
-- fails. An error whose own call fails is a nil pointer.
abbrev pub Failure : Type 0
Failure = Option KrpcError

unfoldable pub new_error : String → Option (List ℕ) → Text → Failure
new_error error_code none text = none
new_error error_code (some t) text =
    some
      (record { transaction_id = t; type_of_message = "e"; error_code = error_code; text = text })

unfoldable pub new_generic_error : Option (List ℕ) → Text → Failure
unfolding new_error
new_generic_error = new_error "201"

unfoldable pub new_server_error : Option (List ℕ) → Text → Failure
unfolding new_error
new_server_error = new_error "202"

unfoldable pub new_protocol_error : Option (List ℕ) → Text → Failure
unfolding new_error
new_protocol_error = new_error "203"

unfoldable pub new_method_unknown_error : Option (List ℕ) → Text → Failure
unfolding new_error
new_method_unknown_error = new_error "204"

pub record QueryMessage : Type 0 where
  pub transaction_id : List ℕ
  pub type_of_message : String
  pub query_name : String
  pub arguments : Args

pub record ResponseMessage : Type 0 where
  pub transaction_id : List ℕ
  pub type_of_message : String
  pub response : Args

-- The check that every message begins with.
unfoldable pub arguments_given :
    Option (List ℕ) → ℕ → String → String → Args → Outcome Failure (Unit {0})
unfolding new_protocol_error
arguments_given e n before after args =
    require (length args == n) (new_protocol_error e (counted before (length args) after))

unfoldable pub argument_given :
    Option (List ℕ) → String → String → Args → Outcome Failure (Unit {0})
unfolding new_protocol_error
argument_given e name text args = require (has name args) (new_protocol_error e (literal text))

unfoldable pub query_of : List ℕ → String → Args → QueryMessage
query_of t name args = record {
  transaction_id = t;
  type_of_message = "q";
  query_name = name;
  arguments = args;
}

unfoldable pub ping_query :
    Option (List ℕ) → Option (List ℕ) → String → Args → Outcome Failure QueryMessage
unfolding arguments_given argument_given new_protocol_error query_of
ping_query tid e name args = do
  arguments_given e 1 "one argument required for ping request and " "were given" args
  argument_given e "id" "invalid argument for ping message" args
  t ← or_fail tid (new_protocol_error e (literal "error while getting transactionID"))
  ok (query_of t name args)

unfoldable pub get_peers_query :
    Option (List ℕ) → Option (List ℕ) → String → Args → Outcome Failure QueryMessage
unfolding arguments_given argument_given new_generic_error query_of
get_peers_query tid e name args = do
  arguments_given e 2 "two arguments required for get_peers request and " " were given" args
  argument_given e "id" "id argument required for get_peers request" args
  argument_given e "info_hash" "info_hash argument required for find_node request" args
  t ← or_fail tid (new_generic_error e (literal "error while getting transactionID"))
  ok (query_of t name args)

unfoldable pub find_node_query :
    Option (List ℕ) → Option (List ℕ) → String → Args → Outcome Failure QueryMessage
unfolding arguments_given argument_given new_generic_error query_of
find_node_query tid e name args = do
  arguments_given e 2 "two arguments required for find_node request and " " were given" args
  argument_given e "id" "id argument required for find_node request" args
  argument_given e "target" "target argument required for find_node request" args
  t ← or_fail tid (new_generic_error e (literal "error while getting transactionID"))
  ok (query_of t name args)

unfoldable pub announce_peer_query :
    Option (List ℕ) → Option (List ℕ) → String → Args → Outcome Failure QueryMessage
unfolding arguments_given argument_given new_generic_error query_of
announce_peer_query tid e name args = do
  arguments_given e 3 "four arguments required for announce_peer request and " " were given" args
  argument_given e "id" "id argument required for announce_peer request" args
  argument_given e "info_hash" "info_hash argument required for announce_peer request" args
  argument_given e "port" "port argument required for announce_peer request" args
  t ← or_fail tid (new_generic_error e (literal "error while getting transactionID"))
  ok (query_of t name args)

-- `newQueryMessage`, with its transaction id and that of its error.
unfoldable pub new_query_message :
    Option (List ℕ) → Option (List ℕ) → String → Args → Outcome Failure QueryMessage
unfolding new_method_unknown_error
new_query_message tid e name args =
    if name == "ping"
    then ping_query tid e name args
    else if name == "get_peers"
    then get_peers_query tid e name args
    else if name == "find_node"
    then find_node_query tid e name args
    else if name == "announce_peer"
    then announce_peer_query tid e name args
    else err (new_method_unknown_error e (literal "method name not valid"))

unfoldable pub response_of : List ℕ → Args → ResponseMessage
response_of t args = record { transaction_id = t; type_of_message = "r"; response = args }

unfoldable pub ping_response : Option (List ℕ) → List ℕ → Args → Outcome Failure ResponseMessage
unfolding arguments_given argument_given response_of
ping_response e tid args = do
  arguments_given e 1 "one argument required for ping Response and " "were given" args
  argument_given e "id" "invalid argument for ping message" args
  ok (response_of tid args)

unfoldable pub get_peers_response :
    Option (List ℕ) → List ℕ → Args → Outcome Failure ResponseMessage
unfolding arguments_given argument_given new_protocol_error response_of
get_peers_response e tid args = do
  arguments_given e 2 "two arguments required for get_peers response and " " were given" args
  argument_given e "id" "id argument required for get_peers response" args
  require (has "values" args || has "nodes" args) (
      new_protocol_error e
        (literal "one of values or nodes arguments are required for get_peers response"))
  require (not (has "values" args && has "nodes" args)) (
      new_protocol_error e
        (literal "values and nodes arguments can not be both in get_peers response"))
  ok (response_of tid args)

unfoldable pub find_node_response :
    Option (List ℕ) → List ℕ → Args → Outcome Failure ResponseMessage
unfolding arguments_given argument_given response_of
find_node_response e tid args = do
  arguments_given e 2 "two arguments required for find_node response and " " were given" args
  argument_given e "id" "id argument required for find_node response" args
  argument_given e "nodes" "nodes argument required for find_node response" args
  ok (response_of tid args)

unfoldable pub announce_peer_response :
    Option (List ℕ) → List ℕ → Args → Outcome Failure ResponseMessage
unfolding arguments_given argument_given response_of
announce_peer_response e tid args = do
  arguments_given e 1 "one argument required for announce_peer response and " " were given" args
  argument_given e "id" "id argument required for announce_peer response" args
  ok (response_of tid args)

-- `newResponseMessage`, with the transaction id of its error.
unfoldable pub new_response_message :
    Option (List ℕ) → String → List ℕ → Args → Outcome Failure ResponseMessage
unfolding new_method_unknown_error
new_response_message e name tid args =
    if name == "ping"
    then ping_response e tid args
    else if name == "get_peers"
    then get_peers_response e tid args
    else if name == "find_node"
    then find_node_response e tid args
    else if name == "announce_peer"
    then announce_peer_response e tid args
    else err (new_method_unknown_error e (literal "method name not valid"))
