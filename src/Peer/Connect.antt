-- ===== src/Peer/Connect.antt =====
-- torrent_peer.go and downloader_client.go: how a client connects to a peer, over what the peer
-- sends, and the messages that set its flags. The TLS connection itself is there.
use bit_torrent_project.Common.{
  ℕ, ◌+◌, List, [], Bool, true, false, Option, none, some, ◌==◌, nat_eq, bytes_eq_instance,
  if◌then◌else◌, Outcome, ok, err, panic, ◌>>=◌, or_panic,
}
use bit_torrent_project.Wire.Words.{WireError}
use bit_torrent_project.Wire.Message.{
  Message, choke, unchoke, interested, not_interested, bitfield, deserialize,
}
use bit_torrent_project.Wire.Payloads.{build_have, build_request}
use bit_torrent_project.Wire.Handshake.{
  protocol, serialize as write_handshake, deserialize as read_handshake,
}

-- The errors of a connection: of a read, of another message than BITFIELD, where a keep-alive has no
-- id, and of the peer ids.
pub data ConnectError : Type 0 where
  not_read : WireError → ConnectError
  no_bitfield : Option ℕ → ConnectError
  peer_ids_differ : ConnectError

-- `RecvBitfield`, with the rest of the stream.
unfoldable pub recv_bitfield : List ℕ → Outcome ConnectError (List ℕ × List ℕ)
recv_bitfield stream = elim (deserialize stream) [
  | panic ↦ panic
  | err e ↦ err (not_read e)
  | ok (none, rest) ↦ err (no_bitfield none)
  | ok (some m, rest) ↦
      if m.id == bitfield then ok (m.payload, rest) else err (no_bitfield (some m.id))
]

-- What `SendHandshake` writes.
unfoldable pub send_handshake : List ℕ → List ℕ → List ℕ
send_handshake info_hash peer_id =
    write_handshake (record { pstr = protocol; peer_id = peer_id; info_hash = info_hash })

-- When `StartClientTCP` sends the handshake, in seconds, of a client that is connected at this time: it
-- sleeps before.
unfoldable pub handshake_time : ℕ → ℕ
handshake_time connected = connected + 4

-- `StartClientTCP` after the sleep and the handshake, on the peer's id and what the peer sends: the rest of the stream. Where the
-- handshake cannot be read, the error that is returned is that of the writing, nil, and so is the
-- connection: `none`.
unfoldable pub start_client_tcp : List ℕ → List ℕ → Outcome ConnectError (Option (List ℕ))
start_client_tcp peer_id stream = elim (read_handshake stream) [
  | panic ↦ panic
  | err e ↦ ok none
  | ok (hsh, rest) ↦ if hsh.peer_id == peer_id then ok (some rest) else err peer_ids_differ
]

-- A client, as far as its flags and its bitfield go.
pub record Client : Type 0 where
  pub choked : Bool
  pub peer_choked : Bool
  pub interested : Bool
  pub peer_interested : Bool
  pub bitfield : List ℕ

-- `StartConnectionWithPeer`: the client and the rest of the stream. A nil connection panics when it
-- is read.
unfoldable pub start_connection_with_peer : List ℕ → List ℕ → Outcome ConnectError (Client × List ℕ)
unfolding start_client_tcp recv_bitfield
start_connection_with_peer peer_id stream = do
  connection ← start_client_tcp peer_id stream
  after_handshake ← or_panic connection
  (bf, rest) ← recv_bitfield after_handshake
  ok (
    record {
      choked = true;
      peer_choked = true;
      interested = false;
      peer_interested = false;
      bitfield = bf;
    },
    rest,
  )

-- A message without a payload.
abbrev pub bare : ℕ → Message
bare id = record { id = id; payload = [] }

-- The four messages to the peer, with whether the write fails: the flag changes where it does.
unfoldable pub send_unchoke : Bool → Client → Client × Message
send_unchoke fails c = (if fails then record c { peer_choked = false } else c, bare unchoke)

unfoldable pub send_choke : Bool → Client → Client × Message
send_choke fails c = (if fails then record c { peer_choked = true } else c, bare choke)

unfoldable pub send_interested : Bool → Client → Client × Message
send_interested fails c = (if fails then record c { interested = true } else c, bare interested)

unfoldable pub send_not_interested : Bool → Client → Client × Message
send_not_interested fails c =
    (if fails then record c { interested = false } else c, bare not_interested)

unfoldable pub send_have : ℕ → Message
send_have index = build_have index

unfoldable pub send_request : ℕ → ℕ → ℕ → Message
send_request index begin len = build_request index begin len
