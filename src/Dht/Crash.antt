-- ===== src/Dht/Crash.antt =====
-- krpc.go: a query without the sender's id ends the node.
use bit_torrent_project.Common.{
  ℕ, ◌≡◌, inl, inr, refl, sym, ap, subst, List, [], ◌∷◌, true, false, Option, none, some, String,
  ◌==◌, string_eq, Outcome, ok, err, panic, ◌>>=◌, Bool-cases,
}
use bit_torrent_project.Common.Dict.{lookup}
use bit_torrent_project.Dht.Node.{Panics}
use bit_torrent_project.Dht.Store.{KStore, StoreError, time_in_the_past}
use bit_torrent_project.Dht.Messages.{
  Args, Failure, QueryMessage, ResponseMessage, new_response_message,
}
use bit_torrent_project.Dht.Handler.{
  DhtNode, argument, find_node, get_peers, Reply, update_node_of, finish, announce_stored,
  response_ping, response_find_node, response_get_peers, response_announce_peers,
}
use bit_torrent_project.Dht.Server.{respond, Packet, write_reply, handle_query, handle_message}

-- A chain panics where each of its steps that return makes the rest panic.
bind_panics :
    {A : Type 0} {B : Type 0} (o : Panics A) (k : A → Panics B)
    → ((a : A) → o ≡ ok a → k a ≡ panic)
    → (o >>= k) ≡ panic
bind_panics panic k h = refl
bind_panics (err x) k h = elim x [ ]
bind_panics (ok a) k h = h a refl

-- A reply that reports an error.
abbrev HasError : Panics Reply → Type 0
HasError r = (reply : Reply) → r ≡ ok reply → (x : Failure) × (reply.error ≡ some x)

bind-HasError :
    {A : Type 0} (o : Panics A) (k : A → Panics Reply)
    → ((a : A) → HasError (k a))
    → HasError (o >>= k)
bind-HasError panic k h reply e = cc
bind-HasError (err x) k h reply e = cc
bind-HasError (ok a) k h reply e = h a reply e

some_eq : (a b : Panics Reply) → some a ≡ some b → a ≡ b
some_eq a b h = cc

ok_reply : (a b : Reply) → ◌≡◌ {A = Panics Reply} (ok a) (ok b) → a ≡ b
ok_reply a b h = cc

module _ (resolve : String → Option (List ℕ × ℕ)) (peer_text : List ℕ → List ℕ → List ℕ) where
  finish-HasError :
      (now : ℕ) (e : Option (List ℕ)) (name : String) (msg : QueryMessage) (addr : String)
      (args : Args) (dht : DhtNode)
      → lookup "id" msg.arguments ≡ none
      → HasError (finish resolve peer_text now e name msg addr args dht)
  unfolding finish update_node_of
  finish-HasError now e name msg addr args dht n reply h =
      go (new_response_message e name msg.transaction_id args) refl
    where
      go :
          (o : Outcome Failure ResponseMessage)
          → new_response_message e name msg.transaction_id args ≡ o
          → (x : Failure) × (reply.error ≡ some x)
      go panic a = let k : panic ≡ ok reply = rw (a, finish) at h in cc
      go (err x) a =
          let k : ok (record { message = none; error = some x; after = dht }) ≡ ok reply =
            rw (a, finish) at h in
          (x, cc)
      go (ok r) a =
          let k = rw (a, finish, n, update_node_of) at h in
          (_, ap Reply.error (sym (ok_reply _ reply k)))

  announce_stored-HasError :
      (now : ℕ) (e : Option (List ℕ)) (msg : QueryMessage) (addr : String) (dht : DhtNode)
      (o : Outcome StoreError KStore)
      → lookup "id" msg.arguments ≡ none
      → HasError (announce_stored resolve peer_text now e msg addr dht o)
  unfolding announce_stored
  announce_stored-HasError now e msg addr dht panic n reply h = cc
  announce_stored-HasError now e msg addr dht (err time_in_the_past) n reply h =
      (_, ap Reply.error (sym (ok_reply _ reply h)))
  announce_stored-HasError now e msg addr dht (ok st) n reply h =
      finish-HasError now e msg.query_name msg addr (("id", dht.own_id) ∷ [])
        (record dht { kstore = st }) n reply h

  announce-HasError :
      (now : ℕ) (e : Option (List ℕ)) (msg : QueryMessage) (addr : String) (dht : DhtNode)
      → lookup "id" msg.arguments ≡ none
      → HasError (response_announce_peers resolve peer_text now e msg addr dht)
  unfolding response_announce_peers
  announce-HasError now e msg addr dht n = go (resolve addr) refl
    where
      go :
          (o : Option (List ℕ × ℕ))
          → resolve addr ≡ o
          → HasError (response_announce_peers resolve peer_text now e msg addr dht)
      go none a =
          rw (a, response_announce_peers)
            (λ reply h. (_, ap Reply.error (sym (ok_reply _ reply h))))
      go (some (ip, port)) a =
          rw (a, response_announce_peers) (announce_stored-HasError now e msg addr dht _ n)

  respond-HasError :
      (now : ℕ) (e : Option (List ℕ)) (msg : QueryMessage) (addr : String) (dht : DhtNode)
      (r : Panics Reply)
      → lookup "id" msg.arguments ≡ none
      → respond resolve peer_text now e msg addr dht ≡ some r
      → HasError r
  unfolding respond response_ping response_find_node response_get_peers
  respond-HasError now e msg addr dht r n h = elim (Bool-cases (msg.query_name == "ping")) [
    | inl a ↦
        subst HasError (some_eq _ r (rw (a, respond) at h))
          (finish-HasError now e "ping" msg addr (("id", dht.own_id) ∷ []) dht n)
    | inr a ↦ elim (Bool-cases (msg.query_name == "find_node")) [
      | inl b ↦ subst HasError (some_eq _ r (rw (a, respond, b) at h)) (
          bind-HasError (find_node (argument "target" msg.arguments) dht) _
            (λ nodes. finish-HasError now e msg.query_name msg addr _ dht n))
      | inr b ↦ elim (Bool-cases (msg.query_name == "get_peers")) [
        | inl c ↦ subst HasError (some_eq _ r (rw (a, respond, b, c) at h)) (
            bind-HasError (get_peers (argument "info_hash" msg.arguments) dht) _
              (λ (peers, found). finish-HasError now e msg.query_name msg addr _ dht n))
        | inr c ↦ elim (Bool-cases (msg.query_name == "announce_peer")) [
          | inl d ↦
              subst HasError (some_eq _ r (rw (a, respond, b, c, d) at h))
                (announce-HasError now e msg addr dht n)
          | inr d ↦ let k : none ≡ some r = rw (a, respond, b, c, d) at h in cc
        ]
      ]
    ]
  ]

  -- A packet that reads as a query with one of the four names and without the sender's id, and
  -- whose error field is empty, makes `HandleMessage` panic, whatever the node's state: the
  -- handler reports an error, and the text that is logged is read from the packet's error field.
  pub handle_message-no_id :
      (now : ℕ) (e : Option (List ℕ)) (p : Packet) (msg : QueryMessage) (addr : String)
      (dht : DhtNode) (r : Panics Reply)
      → (p.error_type == "e") ≡ false
      → p.error_field ≡ []
      → p.query ≡ some msg
      → (msg.type_of_message == "q") ≡ true
      → respond resolve peer_text now e msg addr dht ≡ some r
      → lookup "id" msg.arguments ≡ none
      → handle_message resolve peer_text now e p addr dht ≡ panic
  unfolding handle_message handle_query write_reply
  handle_message-no_id now e p msg addr dht r no_error empty q is_query known n =
      rw (no_error, handle_message, q, is_query)
        (rw (known, handle_query)
          (bind_panics r (write_reply p) (λ reply h.
            let (x, f) = respond-HasError now e msg addr dht r n known reply h in
            rw (f, write_reply, empty) refl)))
