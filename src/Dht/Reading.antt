-- ===== src/Dht/Reading.antt =====
-- dht.go: what a lookup reads from the answers that handler.go writes.
use bit_torrent_project.Common.{
  ℕ, ◌<◌, ◌≡◌, ◌⊎◌, inl, inr, refl, ap, ◌∙◌, List, [], ◌∷◌, ◌++◌, Bool, true, false, not, ◌&&◌,
  none, some, String, length, All, ◌==◌, nat_eq, string_eq, bytes_eq_instance, codes, ok, panic,
  ◌>>=◌, arith,
}
use bit_torrent_project.Common.Dict.{lookup}
use bit_torrent_project.Dht.Node.{
  NetworkNode, compact_info, new_node_from_compact_info, append_unique,
}
use bit_torrent_project.Dht.Compact.{read-compact_info}
use bit_torrent_project.Dht.Messages.{Args, ResponseMessage}
use bit_torrent_project.Dht.Handler.{argument, join, compact_infos}
use bit_torrent_project.Dht.Lookup.{split, read_nodes, found, merge}

-- A text without "//" that does not end with "/".
abbrev pub plain : List ℕ → Bool
plain [] = true
plain (c ∷ []) = not (c == 47)
plain (c ∷ d ∷ s) = not (c == 47 && d == 47) && plain (d ∷ s)

abbrev pub IsPlain : List ℕ → Type 0
IsPlain s = plain s ≡ true

split-plain : (p : List ℕ) → IsPlain p → split p ≡ p ∷ []
unfolding split
split-plain [] h = refl
split-plain (c ∷ []) h = refl
split-plain (c ∷ d ∷ s) h = ground (arith, split-plain (d ∷ s))

split-append : (p s : List ℕ) → IsPlain p → split (p ++ (codes "//" ++ s)) ≡ p ∷ split s
unfolding split
split-append [] s h = refl
split-append (c ∷ []) s h = ground arith
split-append (c ∷ d ∷ p) s h = ground (arith, split-append (d ∷ p) s)

pub split-join :
    (p : List ℕ) (ps : List (List ℕ)) → All IsPlain (p ∷ ps) → split (join (p ∷ ps)) ≡ p ∷ ps
split-join p [] h = split-plain p h.0
split-join p (q ∷ ps) h = split-append p (join (q ∷ ps)) h.0 ∙ ap (◌∷◌ p) (split-join q ps h.1)

-- A node that can be sent: an id of twenty bytes, an IP in its form of sixteen bytes, a port of
-- sixteen bits, and a compact form that does not interfere with the separator.
pub record IsSendable (n : NetworkNode) : Type 0 where
  pub id_length : length n.id ≡ 20
  pub ip_length : length n.ip ≡ 16
  pub port_fits : n.port < 65536
  pub form_IsPlain : IsPlain (compact_info n)

read-compact_infos :
    (ns : List NetworkNode) → All IsSendable ns → read_nodes (compact_infos ns) ≡ ok ns
unfolding read_nodes
read-compact_infos [] h = refl
read-compact_infos (n ∷ ns) (s, h) =
    rw (read-compact_info n s.id_length s.ip_length s.port_fits, read-compact_infos ns h) refl

compact_infos-IsPlain : (ns : List NetworkNode) → All IsSendable ns → All IsPlain (compact_infos ns)
compact_infos-IsPlain [] h = tt
compact_infos-IsPlain (n ∷ ns) (s, h) = (s.form_IsPlain, compact_infos-IsPlain ns h)

-- The queries of a lookup whose answer is read for nodes.
abbrev pub ReadsNodes : String → ResponseMessage → Type 0
ReadsNodes query_type r =
    (query_type ≡ "find_node") ⊎ ((query_type ≡ "get_peers") × (lookup "values" r.response ≡ none))

argument_given_by :
    (name : String) (args : Args) (text : List ℕ)
    → lookup name args ≡ some text
    → argument name args ≡ text
argument_given_by name args text e = rw (e, argument) refl

get_peers_tests :
    (query_type : String)
    → query_type ≡ "get_peers"
    → ((query_type == "find_node") ≡ false) × ((query_type == "get_peers") ≡ true)
get_peers_tests query_type q = (rw q refl, rw q refl)

merge_step :
    (query_type : String) (r : ResponseMessage) (results : List ResponseMessage)
    (nodes : List NetworkNode) (text : List ℕ)
    → ReadsNodes query_type r
    → lookup "nodes" r.response ≡ some text
    → merge query_type (r ∷ results) nodes
      ≡ (read_nodes (split text) >>= λ ns. merge query_type results (append_unique nodes ns))
unfolding merge
merge_step query_type r results nodes text (inl q) e =
    let a = argument_given_by "nodes" r.response text e in rw (q, merge) (rw a refl)
merge_step query_type r results nodes text (inr (q, v)) e =
    let a = argument_given_by "nodes" r.response text e in
    let (not_find_node, get_peers) = get_peers_tests query_type q in
    rw (not_find_node, merge, get_peers, v, a) refl

-- An answer that carries nodes, written by `find_node` or by `get_peers` and without values, is
-- read in full by a lookup of either kind: if at least one node is sent and each can be sent (an
-- id of twenty bytes, an IP of sixteen, a port of sixteen bits, a compact form without "//" and
-- without a "/" at its end), then exactly these nodes join the nodes known, each id once, and the
-- lookup goes on with the other answers.
pub merge-nodes :
    (query_type : String) (r : ResponseMessage) (results : List ResponseMessage)
    (nodes : List NetworkNode) (n : NetworkNode) (ns : List NetworkNode)
    → ReadsNodes query_type r
    → lookup "nodes" r.response ≡ some (join (compact_infos (n ∷ ns)))
    → All IsSendable (n ∷ ns)
    → merge query_type (r ∷ results) nodes ≡ merge query_type results (append_unique nodes (n ∷ ns))
merge-nodes query_type r results nodes n ns q e h =
    let parts = split-join (compact_info n) (compact_infos ns) (compact_infos-IsPlain (n ∷ ns) h) in
    let all = read-compact_infos (n ∷ ns) h in
    rw (merge_step query_type r results nodes (join (compact_infos (n ∷ ns))) q e, parts, all) refl

-- The answer of a node that knows the peers of a torrent ends a lookup for them: if at least one
-- value is sent, each without "//" and without a "/" at its end, the lookup gives exactly these
-- values, whatever the answers behind it.
pub merge-values :
    (r : ResponseMessage) (results : List ResponseMessage) (nodes : List NetworkNode) (v : List ℕ)
    (vs : List (List ℕ))
    → lookup "values" r.response ≡ some (join (v ∷ vs))
    → All IsPlain (v ∷ vs)
    → merge "get_peers" (r ∷ results) nodes ≡ ok (found (v ∷ vs))
unfolding merge
merge-values r results nodes v vs e h = rw (e, merge, split-join v vs h) refl

-- An answer without nodes, which a node writes whose table is empty, makes the lookup that reads
-- it panic, whatever else it has received behind it.
pub merge-no_nodes :
    (query_type : String) (r : ResponseMessage) (results : List ResponseMessage)
    (nodes : List NetworkNode)
    → ReadsNodes query_type r
    → lookup "nodes" r.response ≡ some (join (compact_infos []))
    → merge query_type (r ∷ results) nodes ≡ panic
unfolding read_nodes split new_node_from_compact_info
merge-no_nodes query_type r results nodes q e = merge_step query_type r results nodes [] q e
