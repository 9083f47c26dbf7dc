-- ===== src/Dht/Node.antt =====
-- node.go: nodes, their compact form, the distance of two ids and lists of nodes.
use Prim.Native.Nat.{bit_xor}
use mathlib.Core.List.{foldl}
use bit_torrent_project.Common.{
  ℕ, ◌+◌, ◌*◌, ◌/◌, ◌%◌, List, [], ◌∷◌, ◌++◌, Bool, true, false, length, take, drop, ltb, bytes_eq,
  if◌then◌else◌, Outcome, ok, panic,
}

pub record NetworkNode : Type 0 where
  pub id : List ℕ
  pub ip : List ℕ
  pub port : ℕ

-- The model of a call that returns no error and may panic.
abbrev pub Panics {ℓ} : Type ℓ → Type ℓ
Panics = Outcome ⊥

-- `CompactInfo`: the id, the IP and the two low bytes of the port.
unfoldable pub compact_info : NetworkNode → List ℕ
compact_info n = n.id ++ (n.ip ++ ((n.port / 256 % 256) ∷ (n.port % 256) ∷ []))

-- `uint16(portB[0])<<8 + uint16(portB[1])` of what was copied to two zero bytes.
abbrev pub port_of : List ℕ → ℕ
port_of [] = 0
port_of (h ∷ []) = h * 256
port_of (h ∷ l ∷ rest) = h * 256 + l

-- `NewNodeFromCompactInfo`. Of its three slices `info[36:]` is the one that needs the length: it
-- panics on fewer than 36 bytes, whatever the capacity.
unfoldable pub new_node_from_compact_info : List ℕ → Panics NetworkNode
new_node_from_compact_info info =
    if ltb (length info) 36
    then panic
    else ok
        (record { id = take 20 info; ip = take 16 (drop 20 info); port = port_of (drop 36 info) })

-- `new(big.Int).SetBytes`.
abbrev pub add_byte : ℕ → ℕ → ℕ
add_byte acc b = acc * 256 + b

unfoldable pub big_int : List ℕ → ℕ
big_int = foldl add_byte 0

unfoldable pub get_distance : List ℕ → List ℕ → ℕ
unfolding big_int
get_distance id1 id2 = bit_xor (big_int id1) (big_int id2)

-- A nodeList is its comparator, which the functions take as an argument, and its nodes.
unfoldable pub less : List ℕ → NetworkNode → NetworkNode → Bool
less comparator n m = ltb (get_distance n.id comparator) (get_distance m.id comparator)

unfoldable pub remove_node : NetworkNode → List NetworkNode → List NetworkNode
remove_node n [] = []
remove_node n (m ∷ nodes) = if bytes_eq m.id n.id then nodes else m ∷ remove_node n nodes

-- The inner loop of `AppendUnique`: is there a node with this id?
unfoldable pub exists : List ℕ → List NetworkNode → Bool
exists id [] = false
exists id (m ∷ nodes) = if bytes_eq m.id id then true else exists id nodes

-- `AppendUnique`, and `AppendUniqueNetworkNodes`, which differs in the type of its argument.
unfoldable pub append_unique : List NetworkNode → List NetworkNode → List NetworkNode
append_unique nodes [] = nodes
append_unique nodes (n ∷ ns) =
    append_unique (if exists n.id nodes then nodes else nodes ++ n ∷ []) ns

-- `sort.Sort` by `Less`: insertion sort stands for the library's, whose result is the same list
-- where no two nodes have one distance.
unfoldable pub insert_node : List ℕ → NetworkNode → List NetworkNode → List NetworkNode
insert_node comparator n [] = n ∷ []
insert_node comparator n (m ∷ nodes) =
    if less comparator m n then m ∷ insert_node comparator n nodes else n ∷ m ∷ nodes

unfoldable pub sort_nodes : List ℕ → List NetworkNode → List NetworkNode
unfolding insert_node
sort_nodes comparator [] = []
sort_nodes comparator (n ∷ nodes) = insert_node comparator n (sort_nodes comparator nodes)
