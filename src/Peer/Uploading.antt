-- ===== src/Peer/Uploading.antt =====
-- torrent_peer.go and uploader_client.go together: a piece that is downloaded from an uploader.
use bit_torrent_project.Common.{
  false, not, ◌&&◌, Bool-cases, inl, inr, ltb, ℕ, zero, suc, ◌+◌, ◌*◌, ◌^◌, ◌≤◌, ◌<◌, ◌≡◌, refl,
  sym, ap, ◌∙◌, List, [], ◌∷◌, Bool, Option, none, some, length, take, drop, length-take,
  length-drop, ok, err, panic, nat_eq, arith,
}
use bit_torrent_project.Common.Dict.{Dict}
use bit_torrent_project.Wire.Message.{Message}
use bit_torrent_project.Wire.Payloads.{build_request}
use bit_torrent_project.Wire.Exchange.{piece_message}
use bit_torrent_project.Dht.Node.{Panics}
use bit_torrent_project.Dht.Compact.{drop-append_drop}
use bit_torrent_project.Peer.Upload.{
  ClientTorrentFileInfo, ConnectionsState, PeerConnection, max_uploads, Handled,
  get_client_torrent_file_info, piece_of, handle_request, handle_request_case, handle_message,
}
use bit_torrent_project.Peer.Transfer.{handle_request-piece_of}
use bit_torrent_project.Peer.Download.{Progress, download_piece}
use bit_torrent_project.Peer.Assembly.{block_at}
use bit_torrent_project.Peer.Worker.{PieceTask}
use bit_torrent_project.Peer.Collector.{piece_at}
use bit_torrent_project.Peer.Dialogue.{Answers}
use bit_torrent_project.Peer.Honest.{IsTaskOf, answered-download}
use bit_torrent_project.Peer.Conversation.{at_start, conversation}

take_within : (s n : ℕ) (xs : List ℕ) → s ≤ n → take s (take n xs) ≡ take s xs
take_within zero n xs h = refl
take_within (suc s) zero xs h = absurd (omega arith)
take_within (suc s) (suc n) [] h = refl
take_within (suc s) (suc n) (x ∷ xs) h = ap (◌∷◌ x) (take_within s n xs (omega arith))

block_at-take : (n b s : ℕ) (xs : List ℕ) → b + s ≤ n → block_at (take n xs) b s ≡ block_at xs b s
block_at-take n zero s xs h = take_within s n xs (omega arith)
block_at-take zero (suc b) s xs h = absurd (omega arith)
block_at-take (suc n) (suc b) s [] h = refl
block_at-take (suc n) (suc b) s (x ∷ xs) h = block_at-take n b s xs (omega arith)

module _ (read_file : List ℕ → Option (List ℕ)) (info : Dict (List ℕ) ClientTorrentFileInfo)
    (pc : PeerConnection) (cs : ConnectionsState) where
  abbrev first_sent : Panics Handled → Option Message
  first_sent panic = none
  first_sent (err x) = elim x [ ]
  first_sent (ok h) = elim h.sent [ [] ↦ none | m ∷ ms ↦ some m ]

  -- What `HandleMessage` of the uploader sends first for a request on this connection.
  unfoldable pub reply : ℕ → ℕ → ℕ → Option Message
  unfolding handle_message
  reply index begin n =
      first_sent (handle_message read_file 0 false info (some (build_request index begin n)) pc cs)

  module _ (file : List ℕ) (piece_size index : ℕ) (indexed : index < 2 ^ 32)
      (short : length file < 2 ^ 32) (begins : index * piece_size ≤ length file)
      (heard_unchoke : pc.choked ≡ false) (has_unchoked : pc.peer_choked ≡ false)
      (opened : read_file (get_client_torrent_file_info info pc.info_hash).path ≡ some file)
      (sized : (get_client_torrent_file_info info pc.info_hash).piece_size ≡ piece_size) where
    abbrev bytes : List ℕ
    bytes = piece_at piece_size file index

    block-piece_at :
        (begin size : ℕ)
        → begin + size ≤ length bytes
        → take size (drop (index * piece_size + begin) file) ≡ block_at bytes begin size
    block-piece_at begin size h =
        let n = length-take piece_size (drop (index * piece_size) file) in
        ap (take size) (drop-append_drop (index * piece_size) begin file)
        ∙ sym (
            block_at-take piece_size begin size (drop (index * piece_size) file) (omega (arith, n)))

    -- A connection on which both sides have unchoked answers a request as `HandleRequest` does.
    handle_message-request :
        (m : Message) (begin n : ℕ)
        → handle_request read_file info pc.info_hash (build_request index begin n)
          ≡ ok (m ∷ [], none)
        → reply index begin n ≡ some m
    unfolding reply handle_message handle_request_case build_request
    handle_message-request m begin n h =
        elim (Bool-cases (ltb cs.number_of_upload_peers max_uploads)) [
          | inl few ↦ rw (reply, few, has_unchoked, heard_unchoke) (rw h refl)
          | inr many ↦ rw (reply, many, heard_unchoke, h) refl
        ]

    pub reply-Answers : (peer : List ℕ) → Answers (reply index) index peer bytes
    unfolding piece_of
    reply-Answers peer begin size some_bytes small fits =
        let n = length-take piece_size (drop (index * piece_size) file) in
        let l = length-drop (index * piece_size) file in
        let here : index * piece_size + begin + size ≤ length file = omega (arith, n, l) in
        let run =
          handle_request-piece_of read_file info pc.info_hash file index begin size indexed
            (omega (arith, n, l)) some_bytes small opened (rw sized here) in
        let block =
          ap (λ z. take size (drop (index * z + begin) file)) sized
          ∙ block-piece_at begin size fits in
        handle_message-request (piece_message index begin (block_at bytes begin size)) begin size
          (run ∙ ap (λ b. ok (piece_message index begin b ∷ [], none)) block)

  -- A client that asks an uploader for a piece, on a connection on which the uploader was sent UNCHOKE
  -- and does not hold the client choked, and the client has heard UNCHOKE before or hears it first.
  -- The uploader has the piece in a file below 2 ^ 32 bytes under the info hash, with the piece
  -- length of the torrent, and answers each request, once it is sent, as `HandleMessage` does: then
  -- `DownloadPiece` returns with the piece of the file in its buffer.
  pub download_piece-reply :
      (sha1 : List ℕ → List ℕ) (file : List ℕ) (piece_size : ℕ) (task : PieceTask)
      (peer bitfield : List ℕ) (unchokes choked peer_interested : Bool)
      (counters : ConnectionsState)
      → length file < 2 ^ 32
      → IsTaskOf sha1 piece_size file task
      → pc.choked ≡ false
      → pc.peer_choked ≡ false
      → read_file (get_client_torrent_file_info info pc.info_hash).path ≡ some file
      → (get_client_torrent_file_info info pc.info_hash).piece_size ≡ piece_size
      → (choked && not unchokes) ≡ false
      → (q : Progress) × (download_piece task.index peer task.size choked peer_interested bitfield
            counters
            (conversation
              (reply task.index)
              unchokes
              task.index
              peer
              task.size
              (at_start task.size choked peer_interested bitfield counters))
          ≡ ok q)
        × (q.buf ≡ piece_at piece_size file task.index)
  download_piece-reply sha1 file piece_size task peer bitfield unchokes choked peer_interested
        counters short t heard has opened sized free =
      let answers =
        reply-Answers file piece_size task.index t.indexed short t.begins heard has opened sized
          peer in
      let (q, done, buf, _, _) =
        answered-download sha1 piece_size file (reply task.index) unchokes peer peer bitfield
          bitfield choked peer_interested peer_interested counters counters task short t answers
          free in
      (q, done, buf)
