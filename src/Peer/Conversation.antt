-- ===== src/Peer/Conversation.antt =====
-- torrent_peer.go: what a client hears from a peer that greets it and answers its requests.
use bit_torrent_project.Common.{
  ℕ, ◌+◌, ◌^◌, ◌≤◌, ◌<◌, ◌≡◌, refl, sym, ap, subst, ◌∙◌, List, [], ◌∷◌, ◌++◌, Bool, true, false,
  Option, some, length, get_elem?, replicate, length-replicate, not, ◌&&◌, ltb, nat_eq, string_eq,
  bytes_eq_instance, arith,
}
use bit_torrent_project.Wire.Message.{Message, unchoke}
use bit_torrent_project.Wire.Exchange.{piece_message}
use bit_torrent_project.Peer.Upload.{ConnectionsState}
use bit_torrent_project.Peer.Requests.{max_blocks, request_blocks}
use bit_torrent_project.Peer.Dialogue.{
  dialogue, dialogue-zero, Answers, whole_piece, dialogue-arrivals,
}
use bit_torrent_project.Peer.Pacing.{IsPaced, ask-sent}
use bit_torrent_project.Peer.Blocks.{RunsFrom, total, request_blocks-RunsFrom}
use bit_torrent_project.Peer.Download.{Progress, ask, receive}
use bit_torrent_project.Peer.Assembly.{arrivals, block_at, ask-buf, ask-downloaded}
use bit_torrent_project.Peer.Worker.{PieceTask, last_progress}
use bit_torrent_project.Peer.Collector.{piece_at}

pub whole_piece_lem :
    (size : ℕ) → RunsFrom size 0 (whole_piece size) × (total (whole_piece size) ≡ size)
whole_piece_lem size =
    let (runs, _, all) = request_blocks-RunsFrom size size 0 (omega arith) in
    (runs, all ∙ ground arith)

-- How a peer begins: with UNCHOKE or with nothing.
abbrev pub greeting : Bool → List (ℕ × Option Message)
greeting true = (0, some (record { id = unchoke; payload = [] })) ∷ []
greeting false = []

-- The progress of a download that begins with these flags and counters.
abbrev pub at_start : ℕ → Bool → Bool → List ℕ → ConnectionsState → Progress
at_start size choked peer_interested bitfield cs = record {
  buf = replicate size 0;
  downloaded = 0;
  room = max_blocks;
  requested = 0;
  choked = choked;
  peer_interested = peer_interested;
  bitfield = bitfield;
  sent = [];
  connections = cs;
}

-- What a client in this progress hears from a peer that greets it and then answers the requests that it
-- sends: as many answers as the piece has bytes are enough, since each brings one at least.
abbrev pub conversation :
    (ℕ → ℕ → Option Message) → Bool → ℕ → List ℕ → ℕ → Progress → List (ℕ × Option Message)
conversation answer unchokes index peer size p =
    greeting unchokes
    ++ dialogue answer index peer size size 0 (last_progress index peer size (greeting unchokes) p)

-- What a peer sends that has the file to a client that is choked or not, and answers each request that
-- the client sends. The client's bitfield and counters make no difference to its requests.
abbrev pub honest_peer : Bool → Bool → ℕ → List ℕ → PieceTask → List (ℕ × Option Message)
honest_peer choked unchokes piece_size file task =
    conversation
      (λ begin n.
        some
          (piece_message task.index begin (block_at (piece_at piece_size file task.index) begin n)))
      unchokes task.index [] task.size
      (at_start task.size choked false []
        (record { last_upload = []; blocks_in_last_30_seconds = []; number_of_upload_peers = 0 }))

last_progress-unchoke :
    (index size : ℕ) (peer : List ℕ) (p : Progress)
    → ltb p.downloaded size ≡ true
    → last_progress index peer size (greeting true) p ≡ record (ask size p) { choked = false }
unfolding last_progress receive
last_progress-unchoke index size peer p h = rw (h, last_progress) refl

from_zero : (blocks : List (ℕ × ℕ)) (j : ℕ) → get_elem? blocks j ≡ get_elem? blocks (0 + j)
from_zero blocks j = let z : j ≡ 0 + j = omega arith in ap (get_elem? blocks) z

length-whole_piece : (size : ℕ) → length (whole_piece size) ≤ size
length-whole_piece size = (request_blocks-RunsFrom size size 0 (omega arith)).1

-- UNCHOKE comes before a request or after the first five.
unchoked-IsPaced :
    (size : ℕ) (choked peer_interested : Bool) (bitfield : List ℕ) (cs : ConnectionsState)
    → IsPaced size 0
        (record (ask size (at_start size choked peer_interested bitfield cs)) { choked = false })
unfolding ask request_blocks
unchoked-IsPaced size true peer_interested bitfield cs = record {
  free = refl;
  in_order = refl;
  counted = refl;
  five = omega arith;
}
unchoked-IsPaced size false peer_interested bitfield cs =
    let h =
      (ask-sent size 0 (at_start size false peer_interested bitfield cs)
        (record { free = refl; in_order = refl; counted = refl; five = omega arith })).1 in
    record { free = refl; in_order = h.in_order; counted = h.counted; five = h.five }

-- A client that is not choked, or hears UNCHOKE first, hears the blocks of the piece in order.
pub conversation-arrivals :
    (answer : ℕ → ℕ → Option Message) (unchokes choked peer_interested : Bool) (index : ℕ)
    (peer bytes bitfield : List ℕ) (cs : ConnectionsState)
    → Answers answer index peer bytes
    → index < 2 ^ 32
    → length bytes < 2 ^ 32
    → (choked && not unchokes) ≡ false
    → conversation answer unchokes index peer
        (length bytes)
        (at_start (length bytes) choked peer_interested bitfield cs)
      ≡ greeting unchokes ++ arrivals 0 index bytes (whole_piece (length bytes))
unfolding last_progress request_blocks
conversation-arrivals answer false choked peer_interested index peer bytes bitfield cs a hi hl
      free =
    let (runs, all) = whole_piece_lem (length bytes) in
    dialogue-arrivals answer index peer bytes (length bytes) 0 (whole_piece (length bytes)) _ a hi
      hl (record { free = ground arith; in_order = refl; counted = refl; five = omega arith })
      (length-replicate (length bytes) 0) runs (omega (arith, all)) (λ j. from_zero _ j)
      (length-whole_piece (length bytes))
conversation-arrivals answer true choked peer_interested index peer [] bitfield cs a hi hl free =
    ap (◌++◌ (greeting true)) (dialogue-zero answer index peer 0 0 _)
conversation-arrivals answer true choked peer_interested index peer (x ∷ xs) bitfield cs a hi hl
      free =
    let size = length (x ∷ xs) in
    let (runs, all) = whole_piece_lem size in
    let p = at_start size choked peer_interested bitfield cs in
    let more : ltb 0 size ≡ true = ground arith in
    let q : Progress = record (ask size p) { choked = false } in
    let d : q.downloaded ≡ 0 = ask-downloaded size p in
    let heard : last_progress index peer size (greeting true) p ≡ q =
      last_progress-unchoke index size peer p more in
    ap (◌++◌ (greeting true)) (
      rw heard (
        dialogue-arrivals answer index peer (x ∷ xs) size 0 (whole_piece size) q a hi hl
          (unchoked-IsPaced size choked peer_interested bitfield cs)
          (ap (λ y. length y) (ask-buf size p) ∙ length-replicate size 0)
          (subst (λ t. RunsFrom size t (whole_piece size)) (sym d) runs) (omega (arith, d, all))
          (λ j. from_zero _ j) (length-whole_piece size)))
