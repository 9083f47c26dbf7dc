-- ===== src/Peer/Honest.antt =====
-- torrent_peer.go and torrent.go: a download from one peer that has the whole file and sends it.
use bit_torrent_project.Common.{
  ℕ, ◌*◌, ◌^◌, ◌≤◌, ◌<◌, ◌≡◌, inl, inr, refl, sym, ap, subst, ◌∙◌, List, [], ◌∷◌, ◌++◌, Bool, true,
  false, Option, some, length, length-replicate, not, ◌&&◌, ltb, nat_eq, string_eq,
  bytes_eq_instance, ok, arith, Bool-cases,
}
use bit_torrent_project.Wire.Message.{Message, unchoke}
use bit_torrent_project.Peer.Upload.{ConnectionsState}
use bit_torrent_project.Peer.Dialogue.{Answers, whole_piece}
use bit_torrent_project.Peer.Blocks.{RunsFrom, total}
use bit_torrent_project.Peer.Download.{Progress, ask, receive, download_loop, download_piece}
use bit_torrent_project.Peer.Assembly.{
  arrivals, download_loop-assembles, ask-buf, ask-downloaded, same_reads,
}
use bit_torrent_project.Peer.Worker.{PieceTask}
use bit_torrent_project.Peer.Collector.{piece_at, piece_length_lem}
use bit_torrent_project.Peer.Flags.{ask-HasFlags, download_loop-HasFlags}
use bit_torrent_project.Peer.Conversation.{
  whole_piece_lem, greeting, at_start, conversation, honest_peer, conversation-arrivals,
}

-- UNCHOKE at the start of a download only sets a flag.
download_loop-unchoke :
    (index size : ℕ) (peer : List ℕ) (ms : List (ℕ × Option Message)) (p : Progress)
    → ltb p.downloaded size ≡ true
    → download_loop index peer size ((0, some (record { id = unchoke; payload = [] })) ∷ ms) p
      ≡ download_loop index peer size ms (record (ask size p) { choked = false })
unfolding download_loop receive
download_loop-unchoke index size peer ms p h = rw (h, download_loop) refl

module _ (sha1 : List ℕ → List ℕ) (piece_size : ℕ) (file : List ℕ) where
  -- A task that asks for a piece of the file.
  pub record IsTaskOf (task : PieceTask) : Type 0 where
    pub hashed : task.hash ≡ sha1 (piece_at piece_size file task.index)
    pub sized : task.size ≡ length (piece_at piece_size file task.index)
    pub begins : task.index * piece_size ≤ length file
    pub indexed : task.index < 2 ^ 32

-- A download of a piece whose blocks come in order after the peer's greeting.
greeted-download :
    (unchokes : Bool) (index : ℕ) (peer bytes : List ℕ) (blocks : List (ℕ × ℕ)) (p : Progress)
    → index < 2 ^ 32
    → length bytes < 2 ^ 32
    → length p.buf ≡ length bytes
    → p.downloaded ≡ 0
    → RunsFrom (length bytes) 0 blocks
    → total blocks ≡ length bytes
    → (q : Progress) × (download_loop index peer
          (length bytes)
          (greeting unchokes ++ arrivals 0 index bytes blocks)
          p
        ≡ ok q)
      × (q.buf ≡ bytes)
      × (q.bitfield ≡ p.bitfield)
      × (0 < length bytes → (p.choked && not unchokes) ≡ false → q.choked ≡ false)
unfolding download_loop
greeted-download false index peer bytes blocks p hi hl e z runs all =
    let (q, f, b) =
      download_loop-assembles index 0 peer bytes blocks p hi hl e
        (subst (λ t. RunsFrom (length bytes) t blocks) (sym z) runs) (omega (arith, z, all))
        (λ i l. absurd (omega (arith, z))) in
    let flags = download_loop-HasFlags index 0 (length bytes) peer bytes blocks p q f in
    (q, f, b, flags.0, λ some_bytes free. flags.1 ∙ ground arith)
greeted-download true index peer bytes blocks p hi hl e z runs all =
    elim (Bool-cases (ltb p.downloaded (length bytes))) [
      | inr done ↦
          let empty : length bytes ≡ 0 = ground (arith, z) in
          (
            p,
            rw (done, download_loop) refl,
            same_reads p.buf bytes e (λ i l. absurd (omega (arith, e, empty))),
            refl,
            λ some_bytes free. absurd (omega (arith, empty)),
          )
      | inl more ↦
          let p' : Progress = record (ask (length bytes) p) { choked = false } in
          let d : p'.downloaded ≡ 0 = ask-downloaded (length bytes) p ∙ z in
          let b : p'.buf ≡ p.buf = ask-buf (length bytes) p in
          let (q, f, c) =
            download_loop-assembles index 0 peer bytes blocks p' hi hl (ap length b ∙ e)
              (subst (λ t. RunsFrom (length bytes) t blocks) (sym d) runs) (omega (arith, d, all))
              (λ i l. absurd (omega (arith, d))) in
          let flags = download_loop-HasFlags index 0 (length bytes) peer bytes blocks p' q f in
          (
            q,
            download_loop-unchoke index (length bytes) peer (arrivals 0 index bytes blocks) p more
                ∙ f,
            c,
            flags.0 ∙ (ask-HasFlags (length bytes) p).0,
            λ some_bytes free. flags.1,
          )
    ]

module _ (sha1 : List ℕ → List ℕ) (piece_size : ℕ) (file : List ℕ) where
  -- A download of a piece from a peer that answers, by a client that is not choked or hears UNCHOKE.
  pub answered-download :
      (answer : ℕ → ℕ → Option Message) (unchokes : Bool)
      (peer asked bitfield other_bitfield : List ℕ) (choked peer_interested other_interested : Bool)
      (cs other : ConnectionsState) (task : PieceTask)
      → length file < 2 ^ 32
      → IsTaskOf sha1 piece_size file task
      → Answers answer task.index asked (piece_at piece_size file task.index)
      → (choked && not unchokes) ≡ false
      → (q : Progress) × (download_piece task.index peer task.size choked peer_interested bitfield
            cs
            (conversation answer unchokes task.index asked task.size
              (at_start task.size choked other_interested other_bitfield other))
          ≡ ok q)
        × (q.buf ≡ piece_at piece_size file task.index)
        × (q.bitfield ≡ bitfield)
        × (0 < task.size → q.choked ≡ false)
  unfolding download_piece
  answered-download answer unchokes peer asked bitfield other_bitfield choked peer_interested
        other_interested cs other task l t a free =
      let bytes = piece_at piece_size file task.index in
      let (runs, all) = whole_piece_lem (length bytes) in
      let short = (piece_length_lem (task.index * piece_size) piece_size file t.begins).1 in
      let (q, e, b, same, unchoked) =
        greeted-download unchokes task.index peer bytes (whole_piece (length bytes))
          (at_start (length bytes) choked peer_interested bitfield cs) t.indexed (omega arith)
          (length-replicate (length bytes) 0) refl runs all in
      let heard =
        conversation-arrivals answer unchokes choked other_interested task.index asked bytes
          other_bitfield other a t.indexed (omega arith) free in
      (
        q,
        subst
            (λ n.
              download_piece task.index peer n choked peer_interested bitfield cs (
                conversation answer unchokes task.index asked n
                  (at_start n choked other_interested other_bitfield other))
              ≡ ok q)
            (sym t.sized)
            (ap
                (λ ms.
                  download_piece task.index peer (length bytes) choked peer_interested bitfield cs
                    ms)
                heard
              ∙ e),
        b,
        same,
        λ some_bytes. unchoked (subst (λ n. 0 < n) t.sized some_bytes) free,
      )

  pub honest-download :
      (unchokes : Bool) (peer bitfield : List ℕ) (choked peer_interested : Bool)
      (cs : ConnectionsState) (task : PieceTask)
      → length file < 2 ^ 32
      → IsTaskOf sha1 piece_size file task
      → (choked && not unchokes) ≡ false
      → (q : Progress) × (download_piece task.index peer task.size choked peer_interested bitfield
            cs
            (honest_peer choked unchokes piece_size file task)
          ≡ ok q)
        × (q.buf ≡ piece_at piece_size file task.index)
        × (q.bitfield ≡ bitfield)
        × (0 < task.size → q.choked ≡ false)
  honest-download unchokes peer bitfield choked peer_interested cs task l t free =
      answered-download _ unchokes peer [] bitfield [] choked peer_interested false cs
        (record { last_upload = []; blocks_in_last_30_seconds = []; number_of_upload_peers = 0 })
        task l t (λ begin n some_bytes small fits. refl) free
