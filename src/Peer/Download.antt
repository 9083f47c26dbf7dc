-- ===== src/Peer/Download.antt =====
-- torrent_peer.go: `DownloadPiece` on the messages that its peer sends, each with the time at which
-- it is read. Writing to the connection does not fail.
use bit_torrent_project.Common.{
  ℕ, ◌+◌, ◌-◌, List, [], ◌∷◌, ◌++◌, Bool, true, false, Option, none, some, length, replicate, ltb,
  ◌==◌, nat_eq, bytes_eq_instance, if◌then◌else◌, ok, err, panic, ◌>>=◌,
}
use bit_torrent_project.Common.Dict.{lookup, insert}
use bit_torrent_project.Wire.Words.{Wire, end_of_stream}
use bit_torrent_project.Wire.Message.{
  Message, choke, unchoke, interested, not_interested, have, piece,
}
use bit_torrent_project.Wire.Payloads.{parse_have, parse_piece}
use bit_torrent_project.Wire.Bitfield.{set_piece}
use bit_torrent_project.Peer.Upload.{ConnectionsState}
use bit_torrent_project.Peer.Requests.{max_blocks, request_blocks}

-- `pieceProgress` with the flags of the client that the loop reads and sets. `room` is
-- `MaxBlocks - pp.pendingBlocks`, since a peer that sends blocks unasked makes `pendingBlocks`
-- negative; `sent` are the requests so far, as begin and size.
pub record Progress : Type 0 where
  pub buf : List ℕ
  pub downloaded : ℕ
  pub room : ℕ
  pub requested : ℕ
  pub choked : Bool
  pub peer_interested : Bool
  pub bitfield : List ℕ
  pub sent : List (ℕ × ℕ)
  pub connections : ConnectionsState

abbrev pub sizes : List (ℕ × ℕ) → ℕ
sizes [] = 0
sizes ((begin, size) ∷ blocks) = size + sizes blocks

-- The requests at the head of a round.
unfoldable pub ask : ℕ → Progress → Progress
ask size p =
    let blocks = request_blocks p.room size p.requested in
    if p.choked then p else record p {
      room = p.room - length blocks;
      requested = p.requested + sizes blocks;
      sent = p.sent ++ blocks;
    }

-- The counters of a peer after a block.
unfoldable pub count_block : ℕ → List ℕ → ConnectionsState → ConnectionsState
count_block now peer cs = record cs {
  last_upload = insert peer now cs.last_upload;
  blocks_in_last_30_seconds =
      insert peer
        (if elim (lookup peer cs.last_upload) [ none ↦ true | some t ↦ ltb 30 (now - t) ]
          then 0
          else elim (lookup peer cs.blocks_in_last_30_seconds) [ none ↦ 1 | some n ↦ n + 1 ])
        cs.blocks_in_last_30_seconds;
}

-- What a message makes of the progress.
unfoldable pub receive : ℕ → List ℕ → ℕ → Message → Progress → Wire Progress
unfolding count_block
receive index peer now m p =
    if m.id == unchoke
    then ok (record p { choked = false })
    else if m.id == choke
    then ok (record p { choked = true })
    else if m.id == interested
    then ok (record p { peer_interested = true })
    else if m.id == not_interested
    then ok (record p { peer_interested = false })
    else if m.id == have
    then (parse_have m >>= λ i. ok (record p { bitfield = set_piece p.bitfield i }))
    else if m.id == piece
    then (parse_piece index p.buf m >>= λ (buf, n). ok (record p {
      buf = buf;
      downloaded = p.downloaded + n;
      room = p.room + 1;
      connections = count_block now peer p.connections;
    }))
    else ok p

-- The loop, on the messages that are still to come; a keep-alive is nil, and reading its id panics.
unfoldable pub download_loop : ℕ → List ℕ → ℕ → List (ℕ × Option Message) → Progress → Wire Progress
unfolding ask receive
download_loop index peer size [] p = if ltb p.downloaded size then err end_of_stream else ok p
download_loop index peer size ((now, none) ∷ ms) p = if ltb p.downloaded size then panic else ok p
download_loop index peer size ((now, some m) ∷ ms) p = elim (ltb p.downloaded size) [
  | false ↦ ok p
  | true ↦ receive index peer now m (ask size p) >>= λ p'. download_loop index peer size ms p'
]

-- `DownloadPiece` of the piece with this index and length, from a peer with these flags.
unfoldable pub download_piece :
    ℕ
    → List ℕ
    → ℕ
    → Bool
    → Bool
    → List ℕ
    → ConnectionsState
    → List (ℕ × Option Message)
    → Wire Progress
unfolding download_loop
download_piece index peer size choked peer_interested bitfield cs ms =
    download_loop index peer size ms (record {
      buf = replicate size 0;
      downloaded = 0;
      room = max_blocks;
      requested = 0;
      choked = choked;
      peer_interested = peer_interested;
      bitfield = bitfield;
      sent = [];
      connections = cs;
    })
