-- ===== src/Peer/Accept.antt =====
-- uploader_client.go: the connections that a client accepts, one after the other.
use bit_torrent_project.Common.{
  ℕ, List, [], ◌∷◌, ◌++◌, Bool, true, false, Option, ◌≡◌, refl, ap, Bool-cases, inl, inr, ok, err,
  panic, ◌>>=◌, if◌then◌else◌, ltb, bytes_eq_instance,
}
use bit_torrent_project.Common.Dict.{Dict}
use bit_torrent_project.Wire.Words.{WireError}
use bit_torrent_project.Wire.Message.{Message}
use bit_torrent_project.Wire.Handshake.{deserialize as read_handshake}
use bit_torrent_project.Dht.Node.{Panics}
use bit_torrent_project.Peer.Upload.{ClientTorrentFileInfo, ConnectionsState}
use bit_torrent_project.Peer.Serve.{greet, read_deadline, open_connection, connection_loop}

-- A connection that is accepted: whether setting its deadline, writing the bitfield and writing
-- UNCHOKE fail, when its handshake arrives and its bytes, and its messages as for `connection_loop`.
pub record Arrival : Type 0 where
  pub deadline_fails : Bool
  pub bitfield_fails : Bool
  pub unchoke_fails : Bool
  pub arrives : ℕ
  pub stream : List ℕ
  pub messages : List (ℕ × Bool × Option Message)

-- What a connection leaves behind: the counters, the messages that were written after the greeting,
-- and whether `connectionsGroup.Done` was called.
pub record Left : Type 0 where
  pub connections : ConnectionsState
  pub sent : List Message
  pub done : Bool

-- What `ServerTCP` has made of its connections: the counters, what was sent on each connection that
-- was accepted, and whether the next one would be.
abbrev pub Run : Type 0
Run = Panics (ConnectionsState × List (List Message) × Bool)

abbrev pub and_further : Left → Run → Run
and_further left panic = panic
and_further left (err x) = elim x [ ]
and_further left (ok (cs, sent, accepts)) = ok (cs, left.sent ∷ sent, accepts)

abbrev pub returned_early : ConnectionsState → Left
returned_early cs = record { connections = cs; sent = []; done = false }

module _ (read_file : List ℕ → Option (List ℕ)) (info : Dict (List ℕ) ClientTorrentFileInfo)
    (peer_id : List ℕ) where
  -- `HandleTCPConnection`.
  unfoldable pub handle_tcp_connection : Arrival → ConnectionsState → Panics Left
  unfolding open_connection connection_loop
  handle_tcp_connection a cs =
      if a.deadline_fails
      then ok (returned_early cs)
      else elim (open_connection info peer_id a.unchoke_fails a.arrives a.stream) [
        | panic ↦ panic
        | err e ↦ ok (returned_early cs)
        | ok (pc, written) ↦
            if a.bitfield_fails
            then ok (returned_early cs)
            else connection_loop read_file info a.messages pc cs [] >>= λ (pc', cs', sent).
                ok (record { connections = cs'; sent = sent; done = true })
      ]

  -- The loop of `ServerTCP` over the connections that come. `connectionsGroup.Wait` comes back where
  -- the connection has called `Done`.
  unfoldable pub server_tcp : List Arrival → ConnectionsState → Run
  unfolding handle_tcp_connection
  server_tcp [] cs = ok (cs, [], true)
  server_tcp (a ∷ arrivals) cs = handle_tcp_connection a cs >>= λ left. elim left.done [
    | false ↦ ok (left.connections, left.sent ∷ [], false)
    | true ↦ and_further left (server_tcp arrivals left.connections)
  ]

  -- The uploader does not accept a further connection; a run that panics accepts none.
  abbrev pub Stops : Run → Type 0
  Stops panic = Unit {0}
  Stops (err x) = Unit {0}
  Stops (ok (cs, sent, accepts)) = accepts ≡ false

  -- Two lists of which the uploader makes the same, behind one connection.
  server_tcp_step :
      (b : Arrival) (xs ys : List Arrival) (cs : ConnectionsState)
      → ((cs' : ConnectionsState)
          → (server_tcp xs cs' ≡ server_tcp ys cs') × Stops (server_tcp xs cs'))
      → (server_tcp (b ∷ xs) cs ≡ server_tcp (b ∷ ys) cs) × Stops (server_tcp (b ∷ xs) cs)
  unfolding server_tcp
  server_tcp_step b xs ys cs h = go (handle_tcp_connection b cs)
    where
      and_further-Stops : (left : Left) (rest : Run) → Stops rest → Stops (and_further left rest)
      and_further-Stops left panic s = tt
      and_further-Stops left (err x) s = elim x [ ]
      and_further-Stops left (ok (cs', sent, accepts)) s = s

      rest : List Arrival → Left → Run
      rest zs left = elim left.done [
        | false ↦ ok (left.connections, left.sent ∷ [], false)
        | true ↦ and_further left (server_tcp zs left.connections)
      ]

      go : (o : Panics Left) → ((o >>= rest xs) ≡ (o >>= rest ys)) × Stops (o >>= rest xs)
      go panic = (refl, tt)
      go (err x) = elim x [ ]
      go (ok left) = elim (Bool-cases left.done) [
        | inl d ↦ rw d (
          ap (and_further left) (h left.connections).0,
          and_further-Stops left _ (h left.connections).1,
        )
        | inr d ↦ rw d (refl, refl)
      ]

  handle_tcp_connection-unread :
      (a : Arrival) (e : WireError) (cs : ConnectionsState)
      → read_handshake a.stream ≡ err e
      → handle_tcp_connection a cs ≡ ok (returned_early cs)
  unfolding handle_tcp_connection open_connection greet
  handle_tcp_connection-unread a e cs unread = elim (Bool-cases a.deadline_fails) [
    | inl t ↦ rw (t, handle_tcp_connection) refl
    | inr f ↦ elim (Bool-cases (ltb a.arrives read_deadline)) [
      | inl soon ↦
          rw (f, handle_tcp_connection) (rw (soon, open_connection) (rw (unread, greet) refl))
      | inr late ↦ rw (f, handle_tcp_connection) (rw (late, open_connection) refl)
    ]
  ]

  -- A peer that connects and sends no handshake that can be read stops the uploader: whatever
  -- connections came before it, the uploader makes the same of every list of connections that come
  -- after it as of none, and accepts no further connection, unless one of those before has panicked.
  pub server_tcp-unread :
      (before after : List Arrival) (a : Arrival) (e : WireError) (cs : ConnectionsState)
      → read_handshake a.stream ≡ err e
      → (server_tcp (before ++ a ∷ after) cs ≡ server_tcp (before ++ a ∷ []) cs)
        × Stops (server_tcp (before ++ a ∷ after) cs)
  unfolding server_tcp
  server_tcp-unread [] after a e cs unread =
      let early = handle_tcp_connection-unread a e cs unread in
      (rw (early, server_tcp) refl, rw (early, server_tcp) refl)
  server_tcp-unread (b ∷ before) after a e cs unread =
      server_tcp_step b (before ++ a ∷ after) (before ++ a ∷ []) cs
        (λ cs'. server_tcp-unread before after a e cs' unread)
