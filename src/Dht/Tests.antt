-- ===== src/Dht/Tests.antt =====
-- Runs of the DHT's definitions on concrete nodes, tables, stores and packets.
use bit_torrent_project.Common.{
  ℕ, zero, suc, ◌<◌, ◌≤◌, ◌≡◌, ◌⊎◌, set, refl, List, [], ◌∷◌, true, false, Option, none, some,
  String, length, replicate, All, bytes_eq, string_eq, bytes_eq_instance, if◌then◌else◌, ok, panic,
  arith,
}
use bit_torrent_project.Common.Dict.{lookup}
use bit_torrent_project.Wire.Words.{IsByte}
use bit_torrent_project.Dht.Node.{NetworkNode, exists, get_distance}
use bit_torrent_project.Dht.Table.{
  RoutingTable, new_routing_table, get_first_dif_bit_bucket_index, update_bucket_of_node,
  remove_node, remove_from_bucket, get_nearest_nodes, first_dif, first_bit,
}
use bit_torrent_project.Dht.Distance.{Measures, bucket_index-Measures}
use bit_torrent_project.Dht.Removal.{without_id, remove_from_bucket-without_id}
use bit_torrent_project.Dht.Tables.{IsId, IsTable, set-IsTable, knows}
use bit_torrent_project.Dht.Placement.{
  new_routing_table-IsTable, update_bucket_of_node-IsTable, remove_node-IsTable,
}
use bit_torrent_project.Dht.Nearest.{IsNearestFirst}
use bit_torrent_project.Dht.Gathered.{get_nearest_nodes-knows}
use bit_torrent_project.Dht.Store.{
  KStore, new_kstore, store, with_pair, time_key, value_of, expire_keys,
}
use bit_torrent_project.Dht.Ordered.{member}
use bit_torrent_project.Dht.Storage.{IsStore, Reach, start, next, stores, reachable-IsStore}
use bit_torrent_project.Dht.Retrieval.{values_of}
use bit_torrent_project.Dht.Expiry.{is_late, is_expired, expire_keys-total}
use bit_torrent_project.Dht.Messages.{QueryMessage, ResponseMessage, query_of}
use bit_torrent_project.Dht.Handler.{
  response_find_node, join, compact_infos, DhtNode, Reply, answers, get_peers,
  response_announce_peers,
}
use bit_torrent_project.Dht.Server.{Packet, respond, handle_message}
use bit_torrent_project.Dht.Answering.{announce-get_peers}
use bit_torrent_project.Dht.Finding.{find_node-answered}
use bit_torrent_project.Dht.Crash.{handle_message-no_id}

replicate-IsByte : (n b : ℕ) → b < 256 → All IsByte (replicate n b)
replicate-IsByte zero b h = tt
replicate-IsByte (suc n) b h = (h, replicate-IsByte n b h)

abbrev pub id_of : ℕ → List ℕ
id_of b = replicate 20 b

pub id_of-IsId : (b : ℕ) → b < 256 → IsId (id_of b)
id_of-IsId b h = (refl, replicate-IsByte 20 b h)

abbrev pub self : NetworkNode
self = record { id = id_of 0; ip = replicate 16 7; port = 6881 }

abbrev pub other : NetworkNode
other = record { id = id_of 1; ip = replicate 16 9; port = 6882 }

abbrev pub table : RoutingTable
table = new_routing_table 0 self

table-IsTable : IsTable table
table-IsTable = new_routing_table-IsTable 0 self (id_of-IsId 0 (omega arith))

bucket_index-Measures_example :
    Measures (get_first_dif_bit_bucket_index table (id_of 1)) (get_distance (id_of 1) table.self.id)
unfolding new_routing_table
bucket_index-Measures_example =
    bucket_index-Measures table (id_of 1) refl refl (replicate-IsByte 20 1 (omega arith))
      (replicate-IsByte 20 0 (omega arith))

update_bucket_of_node-IsTable_example :
    (rt' : RoutingTable) × (update_bucket_of_node 3 other table ≡ ok rt')
    × IsTable rt'
    × (knows rt' (id_of 1) ≡ (if bytes_eq (id_of 1) (id_of 1) then true else knows table (id_of 1)))
update_bucket_of_node-IsTable_example =
    update_bucket_of_node-IsTable 3 other table (id_of 1) table-IsTable (id_of-IsId 1 (omega arith))
      (id_of-IsId 1 (omega arith))

remove_node-IsTable_example :
    (rt' : RoutingTable) × (remove_node (id_of 1) table ≡ ok rt')
    × IsTable rt'
    × (knows rt' (id_of 2)
        ≡ (if bytes_eq (id_of 1) (id_of 2) then false else knows table (id_of 2)))
remove_node-IsTable_example =
    remove_node-IsTable (id_of 1) table (id_of 2) table-IsTable (id_of-IsId 1 (omega arith))
      (id_of-IsId 2 (omega arith))

remove_from_bucket-without_id_example :
    remove_from_bucket (id_of 0) (self ∷ other ∷ []) ≡ ok (without_id (id_of 0) (self ∷ other ∷ []))
unfolding exists
remove_from_bucket-without_id_example =
    remove_from_bucket-without_id (id_of 0) (self ∷ other ∷ []) (refl, (refl, tt))

-- A table with a node in the bucket of its id.
abbrev filled : RoutingTable
filled = record table {
  table = set table.table 152 (record { bucket = other ∷ []; last_changed = 0 });
}

filled-IsTable : IsTable filled
unfolding get_first_dif_bit_bucket_index exists first_dif new_routing_table first_bit
filled-IsTable =
    set-IsTable table 152 (record { bucket = other ∷ []; last_changed = 0 }) table-IsTable
      (omega arith) ((refl, tt), (refl, tt))

get_nearest_nodes-knows_example :
    (ns : List NetworkNode) × (get_nearest_nodes 2 (id_of 3) filled ≡ ok ns)
    × IsNearestFirst (id_of 3) ns
    × (length ns ≤ 2)
    × ((length ns ≡ 2) ⊎ (exists (id_of 1) ns ≡ knows filled (id_of 1)))
    × ((exists (id_of 1) ns ≡ false) ⊎ (knows filled (id_of 1) ≡ true))
get_nearest_nodes-knows_example =
    get_nearest_nodes-knows 2 (id_of 3) (id_of 1) filled filled-IsTable (id_of-IsId 3 (omega arith))
      (id_of-IsId 1 (omega arith))

abbrev one_pair : KStore
one_pair = with_pair (1 ∷ []) (2 ∷ []) 9 9 new_kstore

one_pair-Reach : Reach one_pair
unfolding store
one_pair-Reach =
    next new_kstore one_pair start (stores 5 (1 ∷ []) (2 ∷ []) 9 9 new_kstore one_pair refl)

reachable-IsStore_example : IsStore one_pair.data_map
reachable-IsStore_example = reachable-IsStore one_pair one_pair-Reach

expire_keys-total_example :
    (st' : KStore) × (expire_keys 12 one_pair ≡ ok st')
    × (lookup (time_key (1 ∷ []) (2 ∷ [])) st'.expiration_time_map ≡ (
        if is_late 12 (time_key (1 ∷ []) (2 ∷ [])) one_pair.expiration_time_map
        then none
        else lookup (time_key (1 ∷ []) (2 ∷ [])) one_pair.expiration_time_map))
    × (member (2 ∷ []) (values_of (1 ∷ []) st') ≡ (
        if is_expired 12 (1 ∷ []) (2 ∷ []) one_pair.expiration_time_map
        then false
        else member (2 ∷ []) (values_of (1 ∷ []) one_pair)))
unfolding with_pair new_kstore value_of
expire_keys-total_example =
    expire_keys-total 12 one_pair (1 ∷ []) (2 ∷ []) (time_key (1 ∷ []) (2 ∷ []))
      ((2 ∷ [], refl), tt) (reachable-IsStore one_pair one_pair-Reach)

abbrev ping : QueryMessage
ping = query_of (4 ∷ []) "ping" (("id", id_of 1) ∷ [])

-- The resolver and the text of addresses of the runs.
abbrev resolve : String → Option (List ℕ × ℕ)
resolve addr = some (replicate 16 7, 6881)

abbrev peer_text : List ℕ → List ℕ → List ℕ
peer_text ip port = ip

abbrev pub node : DhtNode
node = record {
  routing_table = table;
  kstore = new_kstore;
  own_id = id_of 0;
  expiration_time = 60;
  republish_time = 30;
  expected_responses = [];
}

abbrev announcement : QueryMessage
announcement = record {
  transaction_id = 4 ∷ [];
  type_of_message = "q";
  query_name = "announce_peer";
  arguments = ("id", id_of 1) ∷ ("info_hash", id_of 8) ∷ ("port", 54 ∷ []) ∷ [];
}

announce-get_peers_example :
    (reply : Reply) × (r : ResponseMessage) × (values : List (List ℕ)) × (response_announce_peers
        resolve peer_text 0 none announcement "a" node
      ≡ ok reply)
    × (reply.message ≡ some r)
    × (reply.error ≡ none)
    × IsTable reply.after.routing_table
    × (get_peers (id_of 8) reply.after ≡ ok (values, true))
    × (member (replicate 16 7) values ≡ true)
unfolding new_kstore
announce-get_peers_example =
    announce-get_peers resolve peer_text 0 none announcement "a" node (id_of 1) (replicate 16 7)
      6881 refl refl (id_of-IsId 1 (omega arith)) refl table-IsTable (λ e. cc)

abbrev nameless : QueryMessage
nameless = query_of (4 ∷ []) "ping" []

abbrev packet : Packet
packet = record { error_type = "q"; error_field = []; query = some nameless; response = none }

handle_message-no_id_example : handle_message resolve peer_text 0 none packet "a" node ≡ panic
unfolding respond query_of
handle_message-no_id_example =
    handle_message-no_id resolve peer_text 0 none packet nameless "a" node _ refl refl refl refl
      refl refl

abbrev question : QueryMessage
question = query_of (4 ∷ []) "find_node" (("id", id_of 1) ∷ ("target", id_of 8) ∷ [])

find_node-answered_example :
    (reply : Reply) × (r : ResponseMessage) × (ns : List NetworkNode) × (response_find_node resolve
        peer_text 0 none question "a" node
      ≡ ok reply)
    × (reply.message ≡ some r)
    × (reply.error ≡ none)
    × IsTable reply.after.routing_table
    × (answers question r ≡ some true)
    × (lookup "nodes" r.response ≡ some (join (compact_infos ns)))
    × (length ns ≤ 20)
    × IsNearestFirst (id_of 8) ns
unfolding query_of
find_node-answered_example =
    find_node-answered resolve peer_text 0 none question "a" node (id_of 1) (replicate 16 7) 6881
      refl refl (id_of-IsId 1 (omega arith)) (id_of-IsId 8 (omega arith)) refl table-IsTable
