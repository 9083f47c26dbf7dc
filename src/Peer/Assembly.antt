-- ===== src/Peer/Assembly.antt =====
-- torrent_peer.go: blocks that arrive in order make up the piece.
use bit_torrent_project.Common.{
  ℕ, suc, ◌+◌, ◌-◌, ◌^◌, ◌≤◌, ◌<◌, ◌≡◌, inl, inr, refl, sym, ap, subst, ◌∙◌, List, [], ◌∷◌, Bool,
  true, false, Option, some, length, take, drop, get_elem?, length-replicate, length-take,
  length-drop, get_elem?-take, get_elem?-drop, ltb, nat_eq, ok, arith, Bool-cases,
}
use mathlib.Core.Option.{some-injective}
use bit_torrent_project.Wire.Words.{copy_at, get_elem?-copy_at, length-copy_at}
use bit_torrent_project.Wire.Message.{Message}
use bit_torrent_project.Wire.Payloads.{parse_piece}
use bit_torrent_project.Wire.Exchange.{piece_message, parse_piece-piece_message}
use bit_torrent_project.Peer.Upload.{ConnectionsState}
use bit_torrent_project.Peer.Download.{
  Progress, ask, count_block, receive, download_loop, download_piece,
}
use bit_torrent_project.Peer.Blocks.{RunsFrom, total}

-- The first `d` bytes are those of the piece.
abbrev Agrees : ℕ → List ℕ → List ℕ → Type 0
Agrees d buf bytes = (i : ℕ) → i < d → get_elem? buf i ≡ get_elem? bytes i

pub same_reads : (xs ys : List ℕ) → length xs ≡ length ys → Agrees (length xs) xs ys → xs ≡ ys
same_reads [] [] e h = refl
same_reads [] (y ∷ ys) e h = absurd (omega arith)
same_reads (x ∷ xs) [] e h = absurd (omega arith)
same_reads (x ∷ xs) (y ∷ ys) e h =
    let head : x ≡ y = some-injective _ _ (h 0 (omega arith)) in
    let tail : xs ≡ ys = same_reads xs ys (omega arith) (λ i l. h (suc i) (omega arith)) in cc

-- The bytes of a piece in a block.
abbrev pub block_at : List ℕ → ℕ → ℕ → List ℕ
block_at bytes begin size = take size (drop begin bytes)

-- The messages of a peer that sends these blocks of a piece.
abbrev pub arrivals : ℕ → ℕ → List ℕ → List (ℕ × ℕ) → List (ℕ × Option Message)
arrivals now index bytes [] = []
arrivals now index bytes ((begin, size) ∷ blocks) =
    (now, some (piece_message index begin (block_at bytes begin size)))
    ∷ arrivals now index bytes blocks

pub length-block_at :
    (bytes : List ℕ) (begin size : ℕ)
    → begin + size ≤ length bytes
    → length (block_at bytes begin size) ≡ size
length-block_at bytes begin size h =
    omega (arith, length-take size (drop begin bytes), length-drop begin bytes)

-- A block in its place makes the part that agrees longer.
copy-Agrees :
    (d size : ℕ) (buf bytes : List ℕ)
    → length buf ≡ length bytes
    → d + size ≤ length bytes
    → Agrees d buf bytes
    → Agrees (d + size) (copy_at d (block_at bytes d size) buf) bytes
copy-Agrees d size buf bytes e fits h i l =
    let n = length-block_at bytes d size fits in
    let c = get_elem?-copy_at d (block_at bytes d size) buf i (omega (arith, n)) in
    elim (Bool-cases (ltb i d)) [
      | inl old ↦ c ∙ rw old (h i (ground arith))
      | inr new ↦
          let inside : ltb i (d + length (block_at bytes d size)) ≡ true = ground (arith, n) in
          let within : ltb (i - d) size ≡ true = ground arith in
          let place : d + (i - d) ≡ i = ground arith in
          c
          ∙ rw (new, inside)
              (get_elem?-take size (drop d bytes) (i - d)
                ∙ rw within (get_elem?-drop d bytes (i - d) ∙ ap (get_elem? bytes) place))
    ]

pub ask-buf : (size : ℕ) (p : Progress) → (ask size p).buf ≡ p.buf
unfolding ask
ask-buf size p = elim (Bool-cases p.choked) [ inl t ↦ rw (t, ask) refl | inr f ↦ rw (f, ask) refl ]

pub ask-downloaded : (size : ℕ) (p : Progress) → (ask size p).downloaded ≡ p.downloaded
unfolding ask
ask-downloaded size p = elim (Bool-cases p.choked) [
  | inl t ↦ rw (t, ask) refl
  | inr f ↦ rw (f, ask) refl
]

receive-piece :
    (index now begin : ℕ) (peer block buf : List ℕ) (n : ℕ) (p : Progress)
    → parse_piece index p.buf (piece_message index begin block) ≡ ok (buf, n)
    → (q : Progress) × (receive index peer now (piece_message index begin block) p ≡ ok q)
      × (q.buf ≡ buf)
      × (q.downloaded ≡ p.downloaded + n)
unfolding receive
receive-piece index now begin peer block buf n p e =
    let q : Progress = record p {
      buf = buf;
      downloaded = p.downloaded + n;
      room = p.room + 1;
      connections = count_block now peer p.connections;
    } in
    (q, rw (receive, e) refl, refl, refl)

pub download_loop-assembles :
    (index now : ℕ) (peer bytes : List ℕ) (blocks : List (ℕ × ℕ)) (p : Progress)
    → index < 2 ^ 32
    → length bytes < 2 ^ 32
    → length p.buf ≡ length bytes
    → RunsFrom (length bytes) p.downloaded blocks
    → p.downloaded + total blocks ≡ length bytes
    → Agrees p.downloaded p.buf bytes
    → (q : Progress) × (download_loop index peer (length bytes) (arrivals now index bytes blocks) p
        ≡ ok q)
      × (q.buf ≡ bytes)
unfolding download_loop
download_loop-assembles index now peer bytes [] p hi hl e runs all h =
    let done : ltb p.downloaded (length bytes) ≡ false = ground arith in
    (p, rw done refl, same_reads p.buf bytes e (λ i l. h i (omega arith)))
download_loop-assembles index now peer bytes ((begin, size) ∷ blocks) p hi hl e runs all h =
    let (at, some_bytes, small, fits, rest) = runs in
    let p' = ask (length bytes) p in
    let block = block_at bytes begin size in
    let b : p'.buf ≡ p.buf = ask-buf (length bytes) p in
    let d : p'.downloaded ≡ p.downloaded = ask-downloaded (length bytes) p in
    let n : length block ≡ size = length-block_at bytes begin size fits in
    let more : ltb p.downloaded (length bytes) ≡ true = ground arith in
    let same : length p'.buf ≡ length bytes = ap length b ∙ e in
    let parsed : parse_piece index p'.buf (piece_message index begin block)
        ≡ ok (copy_at begin block p'.buf, size) =
      parse_piece-piece_message index begin block p'.buf hi (omega arith)
      ∙ ground (arith, n, same) in
    let (r, f, rb, rd) = receive-piece index now begin peer block _ size p' parsed in
    let reached : r.downloaded ≡ begin + size = omega (arith, rd, d, at) in
    let buf : r.buf ≡ copy_at begin block p.buf = rb ∙ ap (λ x. copy_at begin block x) b in
    let long : length r.buf ≡ length bytes =
      ap length buf ∙ length-copy_at begin block p.buf (omega (arith, n, e)) ∙ e in
    let h' : Agrees begin p.buf bytes = λ i l. h i (omega (arith, at)) in
    let agrees : Agrees r.downloaded r.buf bytes = λ i l.
      ap (λ x. get_elem? x i) buf ∙ copy-Agrees begin size p.buf bytes e fits h' i (omega arith) in
    let (q, g, qb) =
      download_loop-assembles index now peer bytes blocks r hi hl long
        (subst (λ t. RunsFrom (length bytes) t blocks) (sym reached) rest)
        (omega (arith, reached, at, all)) agrees in
    (q, rw (more, download_loop, f) g, qb)

-- Whatever the flags and the counters at the start: if the peer sends the blocks of a piece in
-- order, each of 1 to 16 bytes and together the whole piece, and the index and the length of the
-- piece are below 2 ^ 32, then `DownloadPiece` returns, and its buffer is the piece.
download_piece-assembles :
    (index now : ℕ) (peer bytes bitfield : List ℕ) (choked peer_interested : Bool)
    (cs : ConnectionsState) (blocks : List (ℕ × ℕ))
    → index < 2 ^ 32
    → length bytes < 2 ^ 32
    → RunsFrom (length bytes) 0 blocks
    → total blocks ≡ length bytes
    → (q : Progress) × (download_piece index peer
          (length bytes)
          choked
          peer_interested
          bitfield
          cs
          (arrivals now index bytes blocks)
        ≡ ok q)
      × (q.buf ≡ bytes)
unfolding download_piece
download_piece-assembles index now peer bytes bitfield choked peer_interested cs blocks hi hl runs
      all =
    download_loop-assembles index now peer bytes blocks _ hi hl (length-replicate (length bytes) 0)
      runs (omega arith) (λ i l. absurd (omega arith))
