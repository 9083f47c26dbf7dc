-- ===== src/Peer/Whole.antt =====
-- torrent_peer.go and torrent.go: the whole file is downloaded.
use bit_torrent_project.Common.{
  ℕ, zero, suc, ◌+◌, ◌*◌, ◌^◌, ◌≤◌, ◌<◌, ◌≡◌, ◌⊎◌, inl, inr, refl, sym, ap, subst, ◌∙◌, List, [],
  ◌∷◌, Bool, true, false, some, length, All, All-weaken, ◌==◌, nat_eq, string_eq, bytes_eq_instance,
  ok, ◌>>=◌, arith,
}
use bit_torrent_project.Wire.Words.{Wire}
use bit_torrent_project.Wire.Bitfield.{has_piece}
use bit_torrent_project.Peer.Upload.{ConnectionsState}
use bit_torrent_project.Peer.Worker.{
  build_tasks, start_work, PieceTask, Work, Attempt, work_round, work_loop,
}
use bit_torrent_project.Peer.Collector.{piece_at, received, collect, collect-file, piece_length_lem}
use bit_torrent_project.Peer.Hashes.{piece_length-ends}
use bit_torrent_project.Peer.Honest.{IsTaskOf}
use bit_torrent_project.Peer.Tasks.{awaited}
use bit_torrent_project.Peer.Complete.{honest_rounds, Unchokes, IsOnTrack, round-IsOnTrack}

List-cases :
    (ts : List PieceTask) → (ts ≡ []) ⊎ ((u : PieceTask) × (us : List PieceTask) × (ts ≡ u ∷ us))
List-cases [] = inl refl
List-cases (u ∷ us) = inr (u, us, refl)

module _ (sha1 : List ℕ → List ℕ) (peer : List ℕ) (piece_size : ℕ) (file : List ℕ) where
  work_loop-nil :
      (attempt : Attempt) (attempts : List Attempt) (w : Work)
      → w.tasks ≡ []
      → work_loop sha1 peer [] (attempt ∷ attempts) w ≡ ok w
  unfolding work_loop
  work_loop-nil attempt attempts w = go w.tasks
    where
      go :
          (ts : List PieceTask)
          → ts ≡ []
          → ◌≡◌ {A = Wire Work}
              (elim ts [
                | [] ↦ ok w
                | u ∷ us ↦
                    work_round sha1 peer [] attempt w >>= λ w'. work_loop sha1 peer [] attempts w'
              ])
              (ok w)
      go [] e = refl
      go (u ∷ us) e = cc

  unchoked-Unchokes :
      (w : Work) (rounds : List (ℕ × Bool))
      → w.choked ≡ false
      → Unchokes sha1 peer piece_size file w.choked rounds
  unchoked-Unchokes w [] e = tt
  unchoked-Unchokes w (r ∷ rounds) e = rw e refl

  work_loop-finishes :
      (pieces : ℕ) (rounds : List (ℕ × Bool)) (w : Work)
      → length file < 2 ^ 32
      → length w.tasks ≤ length rounds
      → IsOnTrack sha1 peer piece_size file pieces w
      → Unchokes sha1 peer piece_size file w.choked rounds
      → (w' : Work) × (work_loop sha1 peer []
            (honest_rounds sha1 peer piece_size file w.choked rounds)
            w
          ≡ ok w')
        × IsOnTrack sha1 peer piece_size file pieces w'
        × (w'.tasks ≡ [])
  unfolding work_loop
  work_loop-finishes pieces [] w l n h free = elim (List-cases w.tasks) [
    | inl none_left ↦ (w, refl, h, none_left)
    | inr (u, us, e) ↦ absurd (omega (arith, ap (λ ts. length ts) e))
  ]
  work_loop-finishes pieces ((random, unchokes) ∷ rounds) w l n h free = elim (List-cases w.tasks) [
    | inl none_left ↦ (w, work_loop-nil _ _ w none_left, h, none_left)
    | inr (u, us, e) ↦
        let (w', run, h', unchoked, shorter) =
          round-IsOnTrack sha1 peer piece_size file pieces random unchokes u us w l e h free in
        let (last, rest, h'', none_left) =
          work_loop-finishes pieces rounds w' l (omega arith) h'
            (unchoked-Unchokes w' rounds unchoked) in
        let next =
          ap (λ c. work_loop sha1 peer [] (honest_rounds sha1 peer piece_size file c rounds) w')
            (sym unchoked) in
        (last, rw (e, work_loop) (rw run (next ∙ rest)), h'', none_left)
  ]

-- The hashes of a torrent from piece `i` on are those of the pieces of the file.
abbrev pub AreHashesOf : (List ℕ → List ℕ) → ℕ → List ℕ → ℕ → List (List ℕ) → Type 0
AreHashesOf sha1 piece_size file i [] = Unit {0}
AreHashesOf sha1 piece_size file i (hash ∷ hashes) =
    (hash ≡ sha1 (piece_at piece_size file i))
    × (i * piece_size < length file)
    × AreHashesOf sha1 piece_size file (i + 1) hashes

awaited-cons :
    (task : PieceTask) (tasks : List PieceTask) (n : ℕ)
    → ((k : ℕ) → k < n → awaited (task.index + 1 + k) tasks ≡ true)
    → (k : ℕ) → k < suc n
    → awaited (task.index + k) (task ∷ tasks) ≡ true
awaited-cons task tasks n h zero l =
    let same : (task.index == task.index + 0) ≡ true = ground arith in rw same refl
awaited-cons task tasks n h (suc k) l =
    let other : (task.index == task.index + suc k) ≡ false = ground arith in
    let step : task.index + suc k ≡ task.index + 1 + k = omega arith in
    rw other (ap (λ (t : ℕ). awaited t tasks) step ∙ h k (omega arith))

zero_add : (k : ℕ) → k ≡ 0 + k
zero_add k = omega arith

received_all :
    (w : Work) (k : ℕ)
    → (received k w.responses ≡ true) ⊎ (awaited k w.tasks ≡ true)
    → w.tasks ≡ []
    → received k w.responses ≡ true
received_all w k (inl r) e = r
received_all w k (inr a) e = let no : awaited k w.tasks ≡ false = ap (awaited k) e in cc

module _ (sha1 : List ℕ → List ℕ) (piece_size : ℕ) (file : List ℕ) where
  build_tasks-IsTaskOf :
      (i : ℕ) (hashes : List (List ℕ))
      → AreHashesOf sha1 piece_size file i hashes
      → 0 < piece_size
      → i + length hashes ≤ 2 ^ 32
      → (tasks : List PieceTask) × (build_tasks piece_size (length file) i hashes ≡ ok tasks)
        × (length tasks ≡ length hashes)
        × All
            (λ t. IsTaskOf sha1 piece_size file t × (t.index < i + length hashes) × (0 < t.size))
            tasks
        × ((k : ℕ) → k < length hashes → awaited (i + k) tasks ≡ true)
  unfolding build_tasks
  build_tasks-IsTaskOf i [] h pos fits = ([], refl, refl, tt, λ k l. absurd (omega arith))
  build_tasks-IsTaskOf i (hash ∷ hashes) (hashed, begins, h) pos fits =
      let (tasks, e, n, all, waits) = build_tasks-IsTaskOf (i + 1) hashes h pos (omega arith) in
      let (size, s, _, ends) = piece_length-ends piece_size (length file) i (omega arith) in
      let task : PieceTask = record { index = i; hash = hash; size = size } in
      let n' = (piece_length_lem (i * piece_size) piece_size file (omega arith)).0 in
      let first : IsTaskOf sha1 piece_size file task = record {
        hashed = hashed;
        sized = ground (arith, ends, n');
        begins = omega arith;
        indexed = omega arith;
      } in
      (
        task ∷ tasks,
        rw (s, build_tasks, e) refl,
        ap suc n,
        (
          (first, omega arith, ground (arith, ends)),
          All-weaken (λ t x. (x.0, omega (arith, x.1), x.2)) tasks all,
        ),
        awaited-cons task tasks (length hashes) waits,
      )

  -- A torrent whose hashes are those of the pieces of a file shorter than 2 ^ 32 bytes, in order
  -- and enough to cover it, no piece empty, and one peer whose bitfield has all of these pieces, that
  -- unchokes the client in the first round and answers each request that it sends: `DownloadFile` makes a task for each piece; the
  -- loop of `StartPeerDownload` finishes all tasks in as many rounds as there are pieces, whatever
  -- the random numbers; and what is collected from its results is the file.
  pub download-file :
      (peer bitfield : List ℕ) (cs : ConnectionsState) (hashes : List (List ℕ))
      (rounds : List (ℕ × Bool))
      → length file < 2 ^ 32
      → length hashes ≤ 2 ^ 32
      → AreHashesOf sha1 piece_size file 0 hashes
      → length file ≤ length hashes * piece_size
      → ((k : ℕ) → k < length hashes → has_piece bitfield k ≡ ok true)
      → length rounds ≡ length hashes
      → 0 < piece_size
      → Unchokes sha1 peer piece_size file true rounds
      → (tasks : List PieceTask) × (w : Work) × (build_tasks piece_size (length file) 0 hashes
          ≡ ok tasks)
        × (work_loop sha1 peer []
              (honest_rounds sha1 peer piece_size file true rounds)
              (start_work tasks bitfield cs (length hashes) (length file))
            ≡ ok w)
        × (w.tasks ≡ [])
        × (collect piece_size (length file) (length hashes) w.responses ≡ ok (some file))
  unfolding start_work
  download-file peer bitfield cs hashes rounds l fits h covers all n pos first =
      let (tasks, e, m, is_task, waits) = build_tasks-IsTaskOf 0 hashes h pos (omega arith) in
      let begin : IsOnTrack sha1 peer piece_size file (length hashes)
          (start_work tasks bitfield cs (length hashes) (length file)) =
        record {
          tasks_ok = All-weaken (λ t x. (x.0, all t.index (omega (arith, x.1)), x.2)) tasks is_task;
          mode_ok = inl refl;
          results_ok = tt;
          covered = λ k below. inr (ap (λ (t : ℕ). awaited t tasks) (zero_add k) ∙ waits k below);
          counted = omega (arith, m);
        } in
      let (w, run, end, none_left) =
        work_loop-finishes sha1 peer piece_size file (length hashes) rounds _ l
          (omega (arith, m, n)) begin first in
      let count : length w.responses ≡ length hashes =
        omega (arith, end.counted, ap (λ ts. length ts) none_left) in
      let collected =
        collect-file piece_size file w.responses
          (subst (λ t. length file ≤ t * piece_size) (sym count) covers) end.results_ok
          (λ k below. received_all w k (end.covered k (omega (arith, count))) none_left) in
      (
        tasks,
        w,
        e,
        run,
        none_left,
        subst (λ t. collect piece_size (length file) t w.responses ≡ ok (some file)) count
            collected,
      )
