-- ===== src/Peer/Upload.antt =====
-- uploader_client.go: how a client answers the messages of a peer. `read_file` gives the content of
-- the file at a path, if it can be opened.
use bit_torrent_project.Common.{
  ℕ, ◌+◌, ◌-◌, ◌*◌, List, [], ◌∷◌, ◌++◌, Bool, true, false, not, ◌&&◌, ◌||◌, Option, none, some,
  length, take, drop, replicate, ltb, ◌==◌, nat_eq, bytes_eq_instance, if◌then◌else◌, ok, err,
  panic, ◌>>=◌,
}
use bit_torrent_project.Common.Dict.{Dict, lookup, insert}
use bit_torrent_project.Wire.Words.{WireError, put_uint32}
use bit_torrent_project.Wire.Message.{
  Message, choke, unchoke, interested, not_interested, have, request, piece, cancel,
}
use bit_torrent_project.Wire.Payloads.{parse_have, parse_request}
use bit_torrent_project.Dht.Node.{Panics}

pub record ClientTorrentFileInfo : Type 0 where
  pub pieces : List (List ℕ)
  pub bitfield : List ℕ
  pub path : List ℕ
  pub piece_size : ℕ
  pub info_hash : List ℕ

-- `ClientTorrentFileInfo{}`.
abbrev pub no_info : ClientTorrentFileInfo
no_info = record {
  pieces = [];
  bitfield = [];
  path = [];
  piece_size = 0;
  info_hash = replicate 20 0;
}

-- `GetClientTorrentFileInfo`: the empty one where no torrent has the info hash.
unfoldable pub get_client_torrent_file_info :
    Dict (List ℕ) ClientTorrentFileInfo → List ℕ → ClientTorrentFileInfo
get_client_torrent_file_info [] info_hash = no_info
get_client_torrent_file_info ((k, tf) ∷ info) info_hash =
    if tf.info_hash == info_hash then tf else get_client_torrent_file_info info info_hash

pub record PeerConnection : Type 0 where
  pub choked : Bool
  pub peer_choked : Bool
  pub interested : Bool
  pub peer_interested : Bool
  pub peer : List ℕ
  pub info_hash : List ℕ

pub record ConnectionsState : Type 0 where
  pub last_upload : Dict (List ℕ) ℕ
  pub blocks_in_last_30_seconds : Dict (List ℕ) ℕ
  pub number_of_upload_peers : ℕ

abbrev pub max_uploads : ℕ
max_uploads = 4

-- What a message makes of a connection: what is written to it, what goes to the error channel.
pub record Handled : Type 0 where
  pub connection : PeerConnection
  pub connections : ConnectionsState
  pub sent : List Message
  pub reported : Option WireError
  pub closed : Bool

-- `SendUnchoke`: the flag changes where the write fails.
unfoldable pub send_unchoke : Bool → PeerConnection → PeerConnection
send_unchoke fails pc = if fails then record pc { peer_choked = false } else pc

-- The message with a block.
unfoldable pub piece_of : ℕ → ℕ → List ℕ → Message
piece_of index begin block = record {
  id = piece;
  payload = put_uint32 index ++ (put_uint32 begin ++ block);
}

-- `HandleHave`. A message that is no HAVE ends the process. `time.Since` of a peer that is not in
-- the map is longer than 30 seconds.
unfoldable pub handle_have : ℕ → Message → List ℕ → ConnectionsState → Panics ConnectionsState
handle_have now m peer cs = elim (parse_have m) [
  | panic ↦ panic
  | err e ↦ panic
  | ok index ↦ ok (
      if elim (lookup peer cs.last_upload) [ none ↦ true | some t ↦ ltb 30 (now - t) ]
      then record cs {
        last_upload = insert peer now cs.last_upload;
        blocks_in_last_30_seconds = insert peer 0 cs.blocks_in_last_30_seconds;
      }
      else record cs {
        blocks_in_last_30_seconds =
            insert peer
              (elim (lookup peer cs.blocks_in_last_30_seconds) [ none ↦ 1 | some n ↦ n + 1 ])
              cs.blocks_in_last_30_seconds;
      })
]

module _ (read_file : List ℕ → Option (List ℕ)) where
  -- The block of a file that a request names; a slice past the file's end panics. The one `Read` is
  -- taken to fill the buffer, which has the file's size; its count is not looked at.
  unfoldable pub block_of : ClientTorrentFileInfo → ℕ → ℕ → ℕ → Panics (Option (List ℕ))
  block_of ci index begin len = elim (read_file ci.path) [
    | none ↦ ok none
    | some buffer ↦
        if ltb (length buffer) (index * ci.piece_size + begin + len)
        then panic
        else ok (some (take len (drop (index * ci.piece_size + begin) buffer)))
  ]

  -- `HandleRequest`: the messages that are sent and the error that is reported.
  unfoldable pub handle_request :
      Dict (List ℕ) ClientTorrentFileInfo
      → List ℕ
      → Message
      → Panics (List Message × Option WireError)
  unfolding block_of piece_of get_client_torrent_file_info
  handle_request info info_hash m = elim (parse_request m) [
    | panic ↦ panic
    | err e ↦ ok ([], some e)
    | ok (index, begin, len) ↦
        block_of (get_client_torrent_file_info info info_hash) index begin len >>= λ block.
        ok (elim block [ none ↦ [] | some b ↦ piece_of index begin b ∷ [] ], none)
  ]

  -- The case REQUEST of `HandleMessage`; `fails` tells whether the write of UNCHOKE fails.
  unfoldable pub handle_request_case :
      Bool
      → Dict (List ℕ) ClientTorrentFileInfo
      → Message
      → PeerConnection
      → ConnectionsState
      → Panics Handled
  unfolding handle_request send_unchoke
  handle_request_case fails info m pc cs =
      let unchokes = ltb cs.number_of_upload_peers max_uploads && pc.peer_choked in
      let after = if unchokes then send_unchoke fails pc else pc in
      let first : List Message =
        if unchokes && not fails then record { id = unchoke; payload = [] } ∷ [] else [] in
      let quiet : Handled = record {
        connection = after;
        connections = cs;
        sent = first;
        reported = none;
        closed = false;
      } in
      if (unchokes && fails) || after.choked
      then ok quiet
      else (handle_request info pc.info_hash m >>= λ (sent, reported).
          ok (record quiet { sent = first ++ sent; reported = reported }))

  -- `HandleMessage`; a keep-alive is nil, and reading its id panics.
  unfoldable pub handle_message :
      ℕ
      → Bool
      → Dict (List ℕ) ClientTorrentFileInfo
      → Option Message
      → PeerConnection
      → ConnectionsState
      → Panics Handled
  unfolding handle_request_case handle_have
  handle_message now fails info none pc cs = panic
  handle_message now fails info (some m) pc cs =
      let same : Handled = record {
        connection = pc;
        connections = cs;
        sent = [];
        reported = none;
        closed = false;
      } in
      if m.id == choke
      then ok (record same { connection = record pc { choked = true } })
      else if m.id == unchoke
      then ok (record same { connection = record pc { choked = false } })
      else if m.id == interested
      then ok (record same { connection = record pc { peer_interested = true } })
      else if m.id == not_interested
      then ok (record same { connection = record pc { peer_interested = false } })
      else if m.id == have
      then (handle_have now m pc.peer cs >>= λ cs'. ok (record same { connections = cs' }))
      else if m.id == request
      then handle_request_case fails info m pc cs
      else if m.id == cancel
      then ok (record same { closed = true })
      else ok same
