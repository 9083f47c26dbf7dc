-- ===== src/Dht/LookupTests.antt =====
-- Runs of lookups and of the refreshing of buckets on a concrete node.
use bit_torrent_project.Common.{
  ℕ, ◌<◌, ◌≡◌, inl, inr, refl, List, [], ◌∷◌, none, some, bytes_eq_instance, string_eq, ok, panic,
  ◌>>=◌, arith,
}
use bit_torrent_project.Dht.Node.{NetworkNode, compact_info, append_unique}
use bit_torrent_project.Dht.Table.{
  new_routing_table, first_dif, first_bit, get_first_dif_bit_bucket_index,
}
use bit_torrent_project.Dht.Tables.{IsId}
use bit_torrent_project.Dht.Messages.{ResponseMessage, response_of}
use bit_torrent_project.Dht.Handler.{DhtNode, join, compact_infos}
use bit_torrent_project.Dht.Sending.{Round}
use bit_torrent_project.Dht.Lookup.{End, merge, found, look_up}
use bit_torrent_project.Dht.Reading.{IsSendable, merge-nodes, merge-values, merge-no_nodes}
use bit_torrent_project.Dht.Search.{Finds, look_up-ends}
use bit_torrent_project.Dht.Refresh.{get_random_id_from_bucket}
use bit_torrent_project.Dht.Aimed.{get_random_id_from_bucket-IsId}
use bit_torrent_project.Dht.Tests.{id_of, id_of-IsId, self, other, table, node}

-- A network in which nothing is answered.
abbrev silence : ℕ → Round
silence i = record { now = i; transaction_id = λ n. some []; error_id = λ n. none; events = [] }

look_up-ends_example :
    (enough : ℕ) × (after : DhtNode) × (end : End) × ((fuel : ℕ)
      → enough < fuel
      → look_up (λ q a. none) (λ ip port. "a") 60 fuel silence "find_node" (id_of 8) node
        ≡ some (after, end))
    × Finds (λ q a. none) (λ ip port. "a") 60 silence (id_of 8) end
look_up-ends_example =
    look_up-ends (λ q a. none) (λ ip port. "a") 60 silence "find_node" (id_of 8) node

other-IsSendable : IsSendable other
unfolding compact_info
other-IsSendable = record {
  id_length = refl;
  ip_length = refl;
  port_fits = omega arith;
  form_IsPlain = refl;
}

abbrev with_nodes : List NetworkNode → ResponseMessage
with_nodes ns = response_of (4 ∷ []) (("nodes", join (compact_infos ns)) ∷ [])

merge-nodes_example :
    merge "find_node" (with_nodes (other ∷ []) ∷ []) (self ∷ [])
    ≡ merge "find_node" [] (append_unique (self ∷ []) (other ∷ []))
unfolding response_of
merge-nodes_example =
    merge-nodes "find_node" (with_nodes (other ∷ [])) [] (self ∷ []) other [] (inl refl) refl
      (other-IsSendable, tt)

abbrev two_values : List (List ℕ)
two_values = (1 ∷ 2 ∷ []) ∷ (3 ∷ 47 ∷ 4 ∷ []) ∷ []

merge-values_example :
    merge "get_peers"
      (response_of (4 ∷ []) (("values", join two_values) ∷ []) ∷ with_nodes [] ∷ [])
      []
    ≡ ok (found two_values)
unfolding response_of
merge-values_example =
    merge-values (response_of (4 ∷ []) (("values", join two_values) ∷ [])) (with_nodes [] ∷ []) []
      (1 ∷ 2 ∷ []) ((3 ∷ 47 ∷ 4 ∷ []) ∷ []) refl (refl, (refl, tt))

merge-no_nodes_example : merge "get_peers" (with_nodes [] ∷ []) (self ∷ []) ≡ panic
unfolding response_of
merge-no_nodes_example =
    merge-no_nodes "get_peers" (with_nodes []) [] (self ∷ []) (inr (refl, refl)) refl

get_random_id_from_bucket-IsId_example :
    (id : List ℕ) × (get_random_id_from_bucket (λ i. 1) (λ i. 7) 155 table ≡ ok id)
    × IsId id
    × (get_first_dif_bit_bucket_index table id ≡ ok 155)
unfolding new_routing_table
get_random_id_from_bucket-IsId_example =
    get_random_id_from_bucket-IsId (λ i. 1) (λ i. 7) 155 4 0 table (id_of-IsId 0 (omega arith))
      (omega arith) refl refl refl

-- A bucket that is a multiple of 8: the id belongs to another bucket.
random_id_of_multiple :
    (get_random_id_from_bucket (λ i. 1) (λ i. 7) 152 table >>= get_first_dif_bit_bucket_index table)
    ≡ ok 159
unfolding get_random_id_from_bucket get_first_dif_bit_bucket_index new_routing_table first_dif
    first_bit
random_id_of_multiple = refl
