-- ===== src/Peer/Serve.antt =====
-- uploader_client.go: how a client serves a peer that has connected.
use bit_torrent_project.Common.{
  ℕ, List, [], ◌∷◌, ◌++◌, Bool, true, false, Option, none, some, ◌==◌, bytes_eq_instance,
  if◌then◌else◌, ltb, ok, err, ◌>>=◌,
}
use bit_torrent_project.Common.Dict.{Dict}
use bit_torrent_project.Wire.Words.{Wire, timed_out}
use bit_torrent_project.Wire.Message.{Message, bitfield, unchoke, serialize}
use bit_torrent_project.Wire.Handshake.{deserialize as read_handshake}
use bit_torrent_project.Dht.Node.{Panics}
use bit_torrent_project.Peer.Upload.{
  ClientTorrentFileInfo, get_client_torrent_file_info, PeerConnection, ConnectionsState,
  send_unchoke, handle_message,
}
use bit_torrent_project.Peer.Connect.{send_handshake}

-- A `Server` of the list that `FindServer` looks through is its info hash here.
unfoldable pub find_server : List (List ℕ) → List ℕ → Option (List ℕ)
find_server [] info_hash = none
find_server (s ∷ servers) info_hash =
    if s == info_hash then some s else find_server servers info_hash

-- `Handshake`: the info hash and the id that the peer sends, the bytes that are written, and the
-- rest of the stream.
unfoldable pub greet : List ℕ → List ℕ → Wire (List ℕ × List ℕ × List ℕ × List ℕ)
unfolding send_handshake
greet peer_id stream = do
  (hsh, rest) ← read_handshake stream
  ok (hsh.info_hash, hsh.peer_id, send_handshake hsh.info_hash peer_id, rest)

-- The bytes that `SendBitfield` writes.
unfoldable pub send_bitfield : Dict (List ℕ) ClientTorrentFileInfo → List ℕ → Wire (List ℕ)
unfolding get_client_torrent_file_info
send_bitfield info info_hash = serialize (
    some
      (record { id = bitfield; payload = (get_client_torrent_file_info info info_hash).bitfield }))

-- The deadline that `HandleTCPConnection` sets, in seconds from its beginning.
abbrev pub read_deadline : ℕ
read_deadline = 3

-- A connection after its greeting, and the bytes that were written. The handshake arrives so many
-- seconds after the deadline was set: one that is late is not read.
unfoldable pub open_connection :
    Dict (List ℕ) ClientTorrentFileInfo
    → List ℕ
    → Bool
    → ℕ
    → List ℕ
    → Wire (PeerConnection × List ℕ)
unfolding greet send_bitfield send_unchoke
open_connection info peer_id fails arrives stream = do
  in_time ← if ltb arrives read_deadline then ok stream else err timed_out
  (info_hash, id, written, rest) ← greet peer_id in_time
  bf ← send_bitfield info info_hash
  unchoke_frame ← serialize (some (record { id = unchoke; payload = [] }))
  ok (
    send_unchoke fails (record {
      choked = true;
      peer_choked = false;
      interested = false;
      peer_interested = false;
      peer = id;
      info_hash = info_hash;
    }),
    written ++ (bf ++ (if fails then [] else unchoke_frame)),
  )

module _ (read_file : List ℕ → Option (List ℕ)) where
  -- The loop of `HandleTCPConnection` over the messages that are read, each with its time and with
  -- whether writing fails, until a read fails, as the first one does at the deadline above: the connection, the counters, the messages written.
  -- A keep-alive is nil, and logging its id panics.
  unfoldable pub connection_loop :
      Dict (List ℕ) ClientTorrentFileInfo
      → List (ℕ × Bool × Option Message)
      → PeerConnection
      → ConnectionsState
      → List Message
      → Panics (PeerConnection × ConnectionsState × List Message)
  unfolding handle_message
  connection_loop info [] pc cs sent = ok (pc, cs, sent)
  connection_loop info ((now, fails, m) ∷ ms) pc cs sent =
      handle_message read_file now fails info m pc cs >>= λ h.
      if h.closed
      then ok (h.connection, h.connections, sent ++ h.sent)
      else connection_loop info ms h.connection h.connections (sent ++ h.sent)
