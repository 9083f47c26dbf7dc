-- ===== src/Peer/Ledger.antt =====
-- torrent_peer.go: the loop of `StartPeerDownload` with any peer: what it accepts, and what is left.
use bit_torrent_project.Common.{
  ℕ, suc, ◌+◌, ◌≡◌, refl, subst, List, [], ◌∷◌, Bool, true, false, Option, none, some, inl, inr,
  length, get_elem?, length-append, All, All-append, All-weaken, All-get_elem?, bytes_eq,
  bytes_eq_iff, Outcome, ok, err, panic, ◌>>=◌, or_panic, arith, bind-ok, Bool-cases,
}
use bit_torrent_project.Wire.Words.{Wire}
use bit_torrent_project.Wire.Bitfield.{has_piece}
use bit_torrent_project.Peer.Download.{Progress, download_piece}
use bit_torrent_project.Peer.Upload.{ConnectionsState}
use bit_torrent_project.Peer.Worker.{
  PieceTask, PieceResult, check, remove, indexes_of, select_piece, last_progress, start_progress,
  start_work, Work, Attempt, note_client, put_back, finish_piece, try_piece, work_on, work_at,
  work_round, work_loop,
}
use bit_torrent_project.Peer.Tasks.{length-remove, remove-All}

bind-elim :
    {E : Type 0} {A : Type 0} {B : Type 0} (o : Outcome E A) (k : A → Outcome E B) {v : B}
    {T : Type 0}
    → (o >>= k) ≡ ok v
    → ((u : A) → o ≡ ok u → k u ≡ ok v → T)
    → T
bind-elim o k h f = let (u, e, g) = bind-ok o k h in f u e g

ok_work : (a b : Work) → ◌≡◌ {A = Wire Work} (ok a) (ok b) → a ≡ b
ok_work a b h = cc

-- Every task of a list is found in it.
All-found : (tasks : List PieceTask) → All (λ t. (k : ℕ) × (get_elem? tasks k ≡ some t)) tasks
All-found [] = tt
All-found (t ∷ tasks) = ((0, refl), All-weaken (λ u (k, g). (suc k, g)) tasks (All-found tasks))

module _ (sha1 : List ℕ → List ℕ) (P : PieceTask → Type 0) where
  -- A result that passed the check of a task with the property.
  abbrev pub IsChecked : PieceResult → Type 0
  IsChecked r = (task : PieceTask) × P task × (r.index ≡ task.index) × (sha1 r.bytes ≡ task.hash)

  -- All tasks that are left have the property, all results passed the check of such a task, and
  -- there are so many of both.
  pub record IsLedger (total : ℕ) (w : Work) : Type 0 where
    pub tasks_ok : All P w.tasks
    pub results_ok : All IsChecked w.responses
    pub counted : length w.responses + length w.tasks ≡ total

  module _ (peer : List ℕ) (peers : List (List ℕ)) where
    put_back-IsLedger :
        (total : ℕ) (task : PieceTask) (w : Work)
        → P task
        → All P w.tasks
        → All IsChecked w.responses
        → length w.responses + length w.tasks + 1 ≡ total
        → IsLedger total (put_back task w)
    unfolding put_back
    put_back-IsLedger total task w p ts rs n = record {
      tasks_ok = All-append P w.tasks (task ∷ []) ts (p, tt);
      results_ok = rs;
      counted = omega (arith, n, length-append w.tasks (task ∷ []));
    }

    finish-IsLedger :
        (total : ℕ) (task : PieceTask) (bytes : List ℕ) (w : Work)
        → P task
        → sha1 bytes ≡ task.hash
        → All P w.tasks
        → All IsChecked w.responses
        → length w.responses + length w.tasks + 1 ≡ total
        → IsLedger total (finish_piece task bytes w)
    unfolding finish_piece
    finish-IsLedger total task bytes w p s ts rs n = record {
      tasks_ok = ts;
      results_ok =
          All-append IsChecked w.responses (record { index = task.index; bytes = bytes } ∷ []) rs
            ((task, p, refl, s), tt);
      counted =
          omega (
            arith,
            n,
            length-append w.responses (record { index = task.index; bytes = bytes } ∷ []),
          );
    }

    try_piece-IsLedger :
        (total : ℕ) (attempt : Attempt) (task : PieceTask) (w w' : Work)
        → P task
        → All P w.tasks
        → All IsChecked w.responses
        → length w.responses + length w.tasks + 1 ≡ total
        → try_piece sha1 peer peers attempt task w ≡ ok w'
        → IsLedger total w'
    unfolding try_piece check note_client
    try_piece-IsLedger total attempt task w w' p ts rs n h =
        go
          (download_piece task.index peer task.size w.choked w.peer_interested w.peer_bitfield
            w.connections (attempt.messages task))
          refl
      where
        go :
            (o : Wire Progress)
            → download_piece task.index peer task.size w.choked w.peer_interested w.peer_bitfield
                w.connections
                (attempt.messages task)
              ≡ o
            → IsLedger total w'
        go panic e = let k : panic ≡ ok w' = rw (e, try_piece) at h in cc
        go (err x) e =
            let failed =
              last_progress task.index peer task.size (attempt.messages task)
                (start_progress task w) in
            subst (IsLedger total) (ok_work _ w' (rw (e, try_piece) at h))
              (put_back-IsLedger total task (note_client failed w) p ts rs n)
        go (ok q) e = elim (Bool-cases (bytes_eq (sha1 q.buf) task.hash)) [
          | inl same ↦ subst (IsLedger total) (ok_work _ w' (rw (e, try_piece, same) at h)) (
              finish-IsLedger total task q.buf (note_client q w) p ((bytes_eq_iff _ _).0 same) ts rs
                n)
          | inr other ↦
              subst (IsLedger total) (ok_work _ w' (rw (e, try_piece, other) at h))
                (put_back-IsLedger total task (note_client q w) p ts rs n)
        ]

    work_on-IsLedger :
        (total : ℕ) (attempt : Attempt) (task : PieceTask) (w w' : Work) (has_it : Bool)
        → P task
        → All P w.tasks
        → All IsChecked w.responses
        → length w.responses + length w.tasks + 1 ≡ total
        → work_on sha1 peer peers attempt task w has_it ≡ ok w'
        → IsLedger total w'
    unfolding work_on
    work_on-IsLedger total attempt task w w' false p ts rs n h =
        subst (IsLedger total) (ok_work _ w' h) (put_back-IsLedger total task w p ts rs n)
    work_on-IsLedger total attempt task w w' true p ts rs n h =
        try_piece-IsLedger total attempt task
          (record w {
            progress = record w.progress { requested = w.progress.requested + task.size };
          })
          w' p ts rs n h

    work_at-IsLedger :
        (total : ℕ) (attempt : Attempt) (w w' : Work) (i : ℕ)
        → IsLedger total w
        → work_at sha1 peer peers attempt w i ≡ ok w'
        → IsLedger total w'
    unfolding work_at
    work_at-IsLedger total attempt w w' i l = go (get_elem? w.tasks i) refl
      where
        rest : Work
        rest = record w { tasks = remove w.tasks i }

        go :
            (o : Option PieceTask)
            → get_elem? w.tasks i ≡ o
            → (or_panic o >>= λ task. has_piece w.peer_bitfield task.index >>= λ has_it.
                work_on sha1 peer peers attempt task rest has_it)
              ≡ ok w'
            → IsLedger total w'
        go none e h = cc
        go (some task) e h =
            bind-elim (has_piece w.peer_bitfield task.index)
              (λ has_it. work_on sha1 peer peers attempt task rest has_it) h
              (λ has_it _ f.
                work_on-IsLedger total attempt task rest w' has_it
                  (All-get_elem? P w.tasks i task l.tasks_ok e) (remove-All P w.tasks i l.tasks_ok)
                  l.results_ok (omega (arith, l.counted, length-remove w.tasks i task e)) f)

    work_round-IsLedger :
        (total : ℕ) (attempt : Attempt) (w w' : Work)
        → IsLedger total w
        → work_round sha1 peer peers attempt w ≡ ok w'
        → IsLedger total w'
    unfolding work_round
    work_round-IsLedger total attempt w w' l h =
        bind-elim (select_piece w.mode attempt.random (indexes_of w.tasks) peers)
          (λ selected. or_panic selected >>= λ i. work_at sha1 peer peers attempt w i) h
          (λ selected _ f.
            bind-elim (or_panic selected) (λ i. work_at sha1 peer peers attempt w i) f
              (λ i _ g. work_at-IsLedger total attempt w w' i l g))

    work_loop-IsLedger :
        (total : ℕ) (attempts : List Attempt) (w w' : Work)
        → IsLedger total w
        → work_loop sha1 peer peers attempts w ≡ ok w'
        → IsLedger total w'
    unfolding work_loop
    work_loop-IsLedger total [] w w' l h = subst (IsLedger total) (ok_work w w' h) l
    work_loop-IsLedger total (attempt ∷ attempts) w w' l h =
        go w.tasks (λ w1 k f. work_loop-IsLedger total attempts w1 w' k f) h
      where
        go :
            (ts : List PieceTask)
            → ((w1 : Work)
                → IsLedger total w1
                → work_loop sha1 peer peers attempts w1 ≡ ok w'
                → IsLedger total w')
            → ◌≡◌ {A = Wire Work}
                (elim ts [
                  | [] ↦ ok w
                  | u ∷ us ↦ work_round sha1 peer peers attempt w >>= λ w1.
                      work_loop sha1 peer peers attempts w1
                ])
                (ok w')
            → IsLedger total w'
        go [] further k = subst (IsLedger total) (ok_work w w' k) l
        go (u ∷ us) further k =
            bind-elim (work_round sha1 peer peers attempt w)
              (λ w1. work_loop sha1 peer peers attempts w1) k
              (λ w1 e f. further w1 (work_round-IsLedger total attempt w w1 l e) f)

-- Whatever the peer sends in each round, whatever its bitfield and whatever the random numbers: if
-- the loop of `StartPeerDownload` returns, then each result that it has sent to `responses` carries
-- the index of one of the tasks it began with and bytes whose SHA-1 is the hash of this task, what
-- is left are tasks that it began with, and the tasks that are left and the results are together
-- as many as these tasks were.
pub work_loop-checked :
    (sha1 : List ℕ → List ℕ) (peer bitfield : List ℕ) (peers : List (List ℕ))
    (cs : ConnectionsState) (file_length : ℕ) (tasks : List PieceTask) (attempts : List Attempt)
    (w : Work)
    → work_loop sha1 peer peers attempts (start_work tasks bitfield cs (length tasks) file_length)
      ≡ ok w
    → All
        (λ r.
          (k : ℕ) × (task : PieceTask) × (get_elem? tasks k ≡ some task)
          × (r.index ≡ task.index)
          × (sha1 r.bytes ≡ task.hash))
        w.responses
      × All (λ t. (k : ℕ) × (get_elem? tasks k ≡ some t)) w.tasks
      × (length w.responses + length w.tasks ≡ length tasks)
unfolding start_work
work_loop-checked sha1 peer bitfield peers cs file_length tasks attempts w h =
    let l =
      work_loop-IsLedger sha1 (λ t. (k : ℕ) × (get_elem? tasks k ≡ some t)) peer peers
        (length tasks) attempts _ w
        (record { tasks_ok = All-found tasks; results_ok = tt; counted = omega arith }) h in
    (
      All-weaken (λ r (task, (k, g), i, s). (k, task, g, i, s)) w.responses l.results_ok,
      l.tasks_ok,
      l.counted,
    )
