-- ===== src/Peer/Complete.antt =====
-- torrent_peer.go and torrent.go: a download from one peer that has the whole file comes to its end.
use bit_torrent_project.Common.{
  ℕ, ◌+◌, ◌^◌, ◌<◌, ◌≡◌, ◌⊎◌, inl, inr, refl, sym, ap, subst, ◌∙◌, List, [], ◌∷◌, Bool, true, false,
  not, ◌&&◌, some, String, length, get_elem?, length-append, All, All-append, All-get_elem?, ◌==◌,
  nat_eq, string_eq, bytes_eq, bytes_eq_iff, bytes_eq_instance, if◌then◌else◌, ok, arith,
  Bool-cases,
}
use bit_torrent_project.Wire.Bitfield.{has_piece}
use bit_torrent_project.Peer.Download.{Progress, download_piece}
use bit_torrent_project.Peer.Worker.{
  PieceTask, PieceResult, check, remove, indexes_of, select_piece, Work, Attempt, note_client,
  finish_piece, try_piece, work_round,
}
use bit_torrent_project.Peer.Collector.{piece_at, received, IsPieceOf}
use bit_torrent_project.Peer.Honest.{IsTaskOf, honest-download}
use bit_torrent_project.Peer.Conversation.{honest_peer}
use bit_torrent_project.Peer.Tasks.{
  awaited, IsMode, select_piece-some, length-remove, remove-All, awaited-remove, received-append,
}

module _ (sha1 : List ℕ → List ℕ) (peer : List ℕ) (piece_size : ℕ) (file : List ℕ) where
  -- The rounds of a download from a peer that has the file, by their random numbers and by
  -- whether the peer sends UNCHOKE first, to a client that is choked at first or not, and is not once
  -- it has a piece.
  abbrev pub honest_round : Bool → ℕ → Bool → Attempt
  honest_round choked random unchokes = record {
    random = random;
    messages = honest_peer choked unchokes piece_size file;
  }

  abbrev pub honest_rounds : Bool → List (ℕ × Bool) → List Attempt
  honest_rounds choked [] = []
  honest_rounds choked ((random, unchokes) ∷ rounds) =
      honest_round choked random unchokes ∷ honest_rounds false rounds

  -- A choked client hears UNCHOKE in the first round.
  abbrev pub Unchokes : Bool → List (ℕ × Bool) → Type 0
  Unchokes choked [] = Unit {0}
  Unchokes choked ((random, unchokes) ∷ rounds) = (choked && not unchokes) ≡ false

  -- A state of the loop in which so many pieces are received or awaited.
  pub record IsOnTrack (pieces : ℕ) (w : Work) : Type 0 where
    pub tasks_ok :
        All
          (λ t.
            IsTaskOf sha1 piece_size file t
            × (has_piece w.peer_bitfield t.index ≡ ok true)
            × (0 < t.size))
          w.tasks
    pub mode_ok : IsMode w.mode
    pub results_ok : All (IsPieceOf piece_size file) w.responses
    pub covered :
        (k : ℕ) → k < pieces → (received k w.responses ≡ true) ⊎ (awaited k w.tasks ≡ true)
    pub counted : length w.responses + length w.tasks ≡ pieces

  -- A piece that is downloaded and passes its check is finished.
  try_piece-finish :
      (attempt : Attempt) (task : PieceTask) (w : Work) (q : Progress)
      → download_piece task.index peer task.size w.choked w.peer_interested w.peer_bitfield
          w.connections
          (attempt.messages task)
        ≡ ok q
      → sha1 q.buf ≡ task.hash
      → try_piece sha1 peer [] attempt task w ≡ ok (finish_piece task q.buf (note_client q w))
  unfolding try_piece check
  try_piece-finish attempt task w q e same =
      let passes : bytes_eq (sha1 q.buf) task.hash ≡ true = (bytes_eq_iff _ _).1 same in
      rw (e, try_piece) (rw passes refl)

  try_piece-honest :
      (random : ℕ) (unchokes : Bool) (task : PieceTask) (w : Work)
      → length file < 2 ^ 32
      → IsTaskOf sha1 piece_size file task
      → (w.choked && not unchokes) ≡ false
      → (q : Progress) × (q.bitfield ≡ w.peer_bitfield)
        × (0 < task.size → q.choked ≡ false)
        × (try_piece sha1 peer [] (honest_round w.choked random unchokes) task w
            ≡ ok (finish_piece task (piece_at piece_size file task.index) (note_client q w)))
  try_piece-honest random unchokes task w l t free =
      let (q, e, b, same, unchoked) =
        honest-download sha1 piece_size file unchokes peer w.peer_bitfield w.choked
          w.peer_interested w.connections task l t free in
      (
        q,
        same,
        unchoked,
        try_piece-finish _ task w q e (ap sha1 b ∙ sym t.hashed)
            ∙ ap (λ x. ok (finish_piece task x (note_client q w))) b,
      )

  finish-IsMode :
      (mode : String)
      → IsMode mode
      → IsMode (if mode == "random first" then "rarest first" else mode)
  finish-IsMode mode h = elim (Bool-cases (mode == "random first")) [
    | inl t ↦ rw t (inr refl)
    | inr f ↦ rw f h
  ]

  pub round-IsOnTrack :
      (pieces random : ℕ) (unchokes : Bool) (t : PieceTask) (ts : List PieceTask) (w : Work)
      → length file < 2 ^ 32
      → w.tasks ≡ t ∷ ts
      → IsOnTrack pieces w
      → (w.choked && not unchokes) ≡ false
      → (w' : Work) × (work_round sha1 peer [] (honest_round w.choked random unchokes) w ≡ ok w')
        × IsOnTrack pieces w'
        × (w'.choked ≡ false)
        × (length w'.tasks + 1 ≡ length w.tasks)
  unfolding work_round finish_piece note_client
  round-IsOnTrack pieces random unchokes t ts w l e h free =
      let (i, task, s, g) = select_piece-some w.mode random t ts h.mode_ok in
      let g' : get_elem? w.tasks i ≡ some task = ap (λ x. get_elem? x i) e ∙ g in
      let (is_task, has_it, some_bytes) = All-get_elem? _ w.tasks i task h.tasks_ok g' in
      let s' : select_piece w.mode random (indexes_of w.tasks) [] ≡ ok (some i) =
        ap (λ x. select_piece w.mode random (indexes_of x) []) e ∙ s in
      let rest : Work = record w {
        tasks = remove w.tasks i;
        progress = record w.progress { requested = w.progress.requested + task.size };
      } in
      let (q, same, unchoked, f) = try_piece-honest random unchokes task rest l is_task free in
      let bytes = piece_at piece_size file task.index in
      let res : PieceResult = record { index = task.index; bytes = bytes } in
      let shorter = length-remove w.tasks i task g' in
      let w' = finish_piece task bytes (note_client q rest) in
      (
        w',
        rw (s', g') (rw (has_it, work_round) f),
        record {
          tasks_ok =
              subst
                (λ bf.
                  All
                    (λ t.
                      IsTaskOf sha1 piece_size file t
                      × (has_piece bf t.index ≡ ok true)
                      × (0 < t.size))
                    (remove w.tasks i))
                (sym same) (remove-All _ w.tasks i h.tasks_ok);
          mode_ok = finish-IsMode w.mode h.mode_ok;
          results_ok =
              All-append (IsPieceOf piece_size file) w.responses (res ∷ []) h.results_ok
                ((refl, is_task.begins), tt);
          covered = λ k below. elim (h.covered k below) [
            | inl old ↦ inl (received-append k w.responses res (inl old))
            | inr wait ↦ elim (awaited-remove w.tasks i k task g' wait) [
              | inl this ↦ inl (received-append k w.responses res (inr this))
              | inr other ↦ inr other
            ]
          ];
          counted = omega (arith, length-append w.responses (res ∷ []), shorter, h.counted);
        },
        unchoked some_bytes,
        shorter,
      )
