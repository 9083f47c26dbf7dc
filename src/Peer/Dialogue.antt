-- ===== src/Peer/Dialogue.antt =====
-- torrent_peer.go: a download from a peer that answers the requests it is sent.
use bit_torrent_project.Common.{
  ℕ, zero, suc, ◌+◌, ◌^◌, ◌≤◌, ◌<◌, ◌≡◌, refl, sym, ap, subst, ◌∙◌, List, [], ◌∷◌, true, false,
  Option, none, some, length, get_elem?, ltb, nat_eq, ok, err, panic, arith,
}
use bit_torrent_project.Wire.Message.{Message}
use bit_torrent_project.Wire.Words.{copy_at, length-copy_at}
use bit_torrent_project.Wire.Payloads.{parse_piece}
use bit_torrent_project.Wire.Exchange.{piece_message, parse_piece-piece_message}
use bit_torrent_project.Peer.Requests.{request_blocks}
use bit_torrent_project.Peer.Blocks.{RunsFrom, total}
use bit_torrent_project.Peer.Download.{Progress, ask, count_block, receive}
use bit_torrent_project.Peer.Assembly.{arrivals, block_at, ask-buf, ask-downloaded, length-block_at}
use bit_torrent_project.Peer.Pacing.{
  request_blocks-get_elem?, length-request_blocks, ask-sent, IsPaced,
}

module _ (answer : ℕ → ℕ → Option Message) (index : ℕ) (peer : List ℕ) (size : ℕ) where
  -- What a client in this progress hears from a peer that answers its requests, as begin and size, one
  -- after the other: the peer has answered `k` of those that the client has sent, and answers the
  -- next one once it is sent. Where the client sends no further request, or the peer has no answer,
  -- nothing more is heard. The fuel is the number of answers.
  unfoldable pub dialogue : ℕ → ℕ → Progress → List (ℕ × Option Message)
  unfolding ask receive
  dialogue zero k p = []
  dialogue (suc fuel) k p = elim (ltb p.downloaded size) [
    | false ↦ []
    | true ↦ elim (get_elem? (ask size p).sent k) [
      | none ↦ []
      | some (begin, n) ↦ elim (answer begin n) [
        | none ↦ []
        | some m ↦ (0, some m) ∷ elim (receive index peer 0 m (ask size p)) [
          | ok q ↦ dialogue fuel (k + 1) q
          | err e ↦ []
          | panic ↦ []
        ]
      ]
    ]
  ]

pub dialogue-zero :
    (answer : ℕ → ℕ → Option Message) (index : ℕ) (peer : List ℕ) (size k : ℕ) (p : Progress)
    → dialogue answer index peer size 0 k p ≡ []
unfolding dialogue
dialogue-zero answer index peer size k p = refl

-- The progress once a block has come, with this buffer.
abbrev with_block : ℕ → List ℕ → ℕ → List ℕ → Progress → Progress
with_block now peer n buf p = record p {
  buf = buf;
  downloaded = p.downloaded + n;
  room = p.room + 1;
  connections = count_block now peer p.connections;
}

receive-with_block :
    (index begin : ℕ) (peer block : List ℕ) (p : Progress)
    → index < 2 ^ 32
    → begin < 2 ^ 32
    → 0 < length block
    → begin + length block ≤ length p.buf
    → receive index peer 0 (piece_message index begin block) p
      ≡ ok (with_block 0 peer (length block) (copy_at begin block p.buf) p)
unfolding receive
receive-with_block index begin peer block p hi hb some_bytes fits =
    let parsed : parse_piece index p.buf (piece_message index begin block)
        ≡ ok (copy_at begin block p.buf, length block) =
      parse_piece-piece_message index begin block p.buf hi hb ∙ ground arith in
    rw (parsed, receive) refl

-- The requests for a whole piece, one after the other.
abbrev pub whole_piece : ℕ → List (ℕ × ℕ)
whole_piece size = request_blocks size size 0

get_elem?-lt {ℓ} :
    {A : Type ℓ} (xs : List A) (k : ℕ) (a : A) → get_elem? xs k ≡ some a → k < length xs
get_elem?-lt [] k a h = cc
get_elem?-lt (x ∷ xs) zero a h = omega arith
get_elem?-lt (x ∷ xs) (suc k) a h = omega (arith, get_elem?-lt xs k a h)

-- The next request is sent before its answer is due.
ask-next :
    (size k : ℕ) (p : Progress) (b : ℕ × ℕ)
    → IsPaced size k p
    → get_elem? (whole_piece size) k ≡ some b
    → get_elem? (ask size p).sent k ≡ some b
ask-next size k p b h g =
    let inside : k < length (whole_piece size) = get_elem?-lt (whole_piece size) k b g in
    ap (λ x. get_elem? x k) (ask-sent size k p h).0
    ∙ request_blocks-get_elem? (5 + k) size k size 0 (omega arith)
        (omega (arith, inside, length-request_blocks size size 0))
    ∙ g

module _ (answer : ℕ → ℕ → Option Message) (index : ℕ) (peer bytes : List ℕ) where
  -- A peer that answers each request for a block of the piece with the block.
  abbrev pub Answers : Type 0
  Answers =
      (begin n : ℕ)
      → 0 < n
      → n ≤ 16
      → begin + n ≤ length bytes
      → answer begin n ≡ some (piece_message index begin (block_at bytes begin n))

  pub dialogue-arrivals :
      (fuel k : ℕ) (blocks : List (ℕ × ℕ)) (p : Progress)
      → Answers
      → index < 2 ^ 32
      → length bytes < 2 ^ 32
      → IsPaced (length bytes) k p
      → length p.buf ≡ length bytes
      → RunsFrom (length bytes) p.downloaded blocks
      → p.downloaded + total blocks ≡ length bytes
      → ((j : ℕ) → get_elem? blocks j ≡ get_elem? (whole_piece (length bytes)) (k + j))
      → length blocks ≤ fuel
      → dialogue answer index peer (length bytes) fuel k p ≡ arrivals 0 index bytes blocks
  unfolding dialogue
  dialogue-arrivals zero k [] p a hi hl paced e runs all next few = refl
  dialogue-arrivals zero k (b ∷ blocks) p a hi hl paced e runs all next few = absurd (omega arith)
  dialogue-arrivals (suc fuel) k [] p a hi hl paced e runs all next few =
      let done : ltb p.downloaded (length bytes) ≡ false = ground arith in rw (done, dialogue) refl
  dialogue-arrivals (suc fuel) k ((begin, n) ∷ blocks) p a hi hl paced e runs all next few =
      let (at, some_bytes, small, fits, rest) = runs in
      let more : ltb p.downloaded (length bytes) ≡ true = ground arith in
      let block = block_at bytes begin n in
      let long : length block ≡ n = length-block_at bytes begin n fits in
      let p' = ask (length bytes) p in
      let b : p'.buf ≡ p.buf = ask-buf (length bytes) p in
      let d : p'.downloaded ≡ p.downloaded = ask-downloaded (length bytes) p in
      let here : get_elem? (whole_piece (length bytes)) k ≡ some (begin, n) =
        let z : k ≡ k + 0 = omega arith in
        ap (get_elem? (whole_piece (length bytes))) z ∙ sym (next 0) in
      let sent = ask-next (length bytes) k p (begin, n) paced here in
      let heard = a begin n some_bytes small fits in
      let q = with_block 0 peer (length block) (copy_at begin block p'.buf) p' in
      let got : receive index peer 0 (piece_message index begin block) p' ≡ ok q =
        receive-with_block index begin peer block p' hi (omega arith) (omega (arith, long))
          (omega (arith, ap (λ x. length x) b, long, e)) in
      let paced' = (ask-sent (length bytes) k p paced).1 in
      let reached : q.downloaded ≡ begin + n = omega (arith, d, at, long) in
      let ih =
        dialogue-arrivals fuel (k + 1) blocks q a hi hl
          (record {
            free = paced'.free;
            in_order = paced'.in_order;
            counted = paced'.counted;
            five = omega (arith, paced'.five);
          })
          (length-copy_at begin block p'.buf (omega (arith, ap (λ x. length x) b, long, e))
            ∙ ap (λ x. length x) b
            ∙ e)
          (subst (λ t. RunsFrom (length bytes) t blocks) (sym reached) rest)
          (omega (arith, reached, at, all))
          (λ j.
            let s : k + suc j ≡ k + 1 + j = omega arith in
            next (suc j) ∙ ap (get_elem? (whole_piece (length bytes))) s)
          (omega arith) in
      rw (more, dialogue)
        (rw (sent, heard) (rw got (ap (◌∷◌ (0, some (piece_message index begin block))) ih)))
