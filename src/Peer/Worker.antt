-- ===== src/Peer/Worker.antt =====
-- torrent_peer.go and torrent.go: `StartPeerDownload`, the loop over the pieces that are left, for
-- one peer. Calls of the tracker and of the DHT are left out.
use bit_torrent_project.Common.{
  ℕ, ◌+◌, ◌-◌, ◌%◌, ◌^◌, List, [], ◌∷◌, ◌++◌, Bool, true, false, Option, none, some, String, length,
  take, drop, get_elem?, replicate, ltb, ◌==◌, nat_eq, string_eq, bytes_eq, bytes_eq_instance,
  if◌then◌else◌, Outcome, ok, err, panic, ◌>>=◌, ◌>>◌, or_panic,
}
use bit_torrent_project.Wire.Words.{Wire}
use bit_torrent_project.Wire.Message.{Message}
use bit_torrent_project.Wire.Bitfield.{has_piece, set_piece}
use bit_torrent_project.Peer.Upload.{ConnectionsState}
use bit_torrent_project.Peer.Selection.{rarest_first}
use bit_torrent_project.Peer.Requests.{max_blocks}
use bit_torrent_project.Peer.Download.{Progress, ask, receive, download_piece}
use bit_torrent_project.Peer.Pieces.{piece_length}
use bit_torrent_project.Dht.Node.{Panics}

pub record PieceTask : Type 0 where
  pub index : ℕ
  pub hash : List ℕ
  pub size : ℕ

pub record PieceResult : Type 0 where
  pub index : ℕ
  pub bytes : List ℕ

-- `downloadProgress`; its `left` is only read.
pub record DownloadProgress : Type 0 where
  pub bitfield : List ℕ
  pub downloaded : ℕ
  pub pending_pieces : ℕ
  pub requested : ℕ

-- The tasks of `DownloadFile`, from piece `i` on.
unfoldable pub build_tasks : ℕ → ℕ → ℕ → List (List ℕ) → Panics (List PieceTask)
unfolding piece_length
build_tasks piece_size file_length i [] = ok []
build_tasks piece_size file_length i (hash ∷ hashes) = do
  l ← piece_length piece_size file_length i
  rest ← build_tasks piece_size file_length (i + 1) hashes
  ok (record { index = i; hash = hash; size = l } ∷ rest)

-- `check`: the error carries the index.
unfoldable pub check : (List ℕ → List ℕ) → PieceResult → PieceTask → Outcome ℕ (Unit {0})
check sha1 result task = if bytes_eq (sha1 result.bytes) task.hash then ok tt else err task.index

-- `remove`.
unfoldable pub remove : List PieceTask → ℕ → List PieceTask
remove tasks i = take i tasks ++ drop (i + 1) tasks

abbrev pub indexes_of : List PieceTask → List ℕ
indexes_of [] = []
indexes_of (task ∷ tasks) = task.index ∷ indexes_of tasks

-- `SelectPiece` with the result of `rand.Intn`, which panics on no pieces; -1 is `none`.
unfoldable pub select_piece : String → ℕ → List ℕ → List (List ℕ) → Wire (Option ℕ)
unfolding rarest_first
select_piece mode random pieces peers =
    if mode == "random first"
    then (if length pieces == 0 then panic else ok (some (random % length pieces)))
    else if mode == "rarest first"
    then (rarest_first pieces peers >>= λ p. ok (some p))
    else ok none

-- What `DownloadPiece` has made of its progress, and so of the client, where it returns an error.
unfoldable pub last_progress : ℕ → List ℕ → ℕ → List (ℕ × Option Message) → Progress → Progress
unfolding ask receive
last_progress index peer size [] p = p
last_progress index peer size ((now, none) ∷ ms) p = p
last_progress index peer size ((now, some m) ∷ ms) p = elim (ltb p.downloaded size) [
  | false ↦ p
  | true ↦ elim (receive index peer now m (ask size p)) [
    | panic ↦ p
    | err e ↦ p
    | ok p' ↦ last_progress index peer size ms p'
  ]
]

-- The state of the loop: what is left, the mode, the client's flags and the peer's bitfield, the
-- counters, and what was sent to `responses`.
pub record Work : Type 0 where
  pub tasks : List PieceTask
  pub mode : String
  pub choked : Bool
  pub peer_interested : Bool
  pub peer_bitfield : List ℕ
  pub connections : ConnectionsState
  pub progress : DownloadProgress
  pub left : ℕ
  pub responses : List PieceResult

-- The state before the loop, for a client that has just connected and a download that has just
-- begun.
unfoldable pub start_work : List PieceTask → List ℕ → ConnectionsState → ℕ → ℕ → Work
start_work tasks peer_bitfield cs pieces file_length = record {
  tasks = tasks;
  mode = "random first";
  choked = true;
  peer_interested = false;
  peer_bitfield = peer_bitfield;
  connections = cs;
  progress = record {
    bitfield = replicate 8 0;
    downloaded = 0;
    pending_pieces = pieces;
    requested = 0;
  };
  left = file_length;
  responses = [];
}

-- What one round of the loop meets: a random number, and what the peer sends when it is asked for
-- a piece.
pub record Attempt : Type 0 where
  pub random : ℕ
  pub messages : PieceTask → List (ℕ × Option Message)

-- The progress that `DownloadPiece` begins with.
abbrev pub start_progress : PieceTask → Work → Progress
start_progress task w = record {
  buf = replicate task.size 0;
  downloaded = 0;
  room = max_blocks;
  requested = 0;
  choked = w.choked;
  peer_interested = w.peer_interested;
  bitfield = w.peer_bitfield;
  sent = [];
  connections = w.connections;
}

-- The client after a download that ended with this progress.
unfoldable pub note_client : Progress → Work → Work
note_client p w = record w {
  choked = p.choked;
  peer_interested = p.peer_interested;
  peer_bitfield = p.bitfield;
  connections = p.connections;
}

-- The task goes back to the end of the list.
unfoldable pub put_back : PieceTask → Work → Work
put_back task w = record w { tasks = w.tasks ++ task ∷ [] }

-- A piece that passed its check. `left` is a uint64.
unfoldable pub finish_piece : PieceTask → List ℕ → Work → Work
unfolding set_piece
finish_piece task bytes w = record w {
  mode = if w.mode == "random first" then "rarest first" else w.mode;
  progress = record w.progress {
    bitfield = set_piece w.progress.bitfield task.index;
    downloaded = w.progress.downloaded + task.size;
    pending_pieces = w.progress.pending_pieces - 1;
    requested = w.progress.requested - task.size;
  };
  left = (w.left + 2 ^ 64 - task.size % 2 ^ 64) % 2 ^ 64;
  responses = w.responses ++ record { index = task.index; bytes = bytes } ∷ [];
}

module _ (sha1 : List ℕ → List ℕ) (peer : List ℕ) (peers : List (List ℕ)) where
  -- The download of a piece that the peer has, and the check of it.
  unfoldable pub try_piece : Attempt → PieceTask → Work → Wire Work
  unfolding download_piece last_progress note_client put_back finish_piece check
  try_piece attempt task w =
      let ms = attempt.messages task in
      elim (download_piece task.index peer task.size w.choked w.peer_interested w.peer_bitfield
        w.connections ms) [
          | panic ↦ panic
          | err e ↦ ok (
              put_back task (
                note_client (last_progress task.index peer task.size ms (start_progress task w)) w))
          | ok p ↦ elim (check sha1 (record { index = task.index; bytes = p.buf }) task) [
            | panic ↦ panic
            | err i ↦ ok (put_back task (note_client p w))
            | ok u ↦ ok (finish_piece task p.buf (note_client p w))
          ]
        ]

  -- The rest of a round, for the task that was taken out, by whether the peer has its piece.
  unfoldable pub work_on : Attempt → PieceTask → Work → Bool → Wire Work
  unfolding try_piece put_back
  work_on attempt task rest false = ok (put_back task rest)
  work_on attempt task rest true = try_piece attempt task (record rest {
    progress = record rest.progress { requested = rest.progress.requested + task.size };
  })

  -- The round once the task at this index is selected.
  unfoldable pub work_at : Attempt → Work → ℕ → Wire Work
  unfolding remove work_on
  work_at attempt w i = do
    task ← or_panic (get_elem? w.tasks i)
    has_it ← has_piece w.peer_bitfield task.index
    work_on attempt task (record w { tasks = remove w.tasks i }) has_it

  -- One round of the loop.
  unfoldable pub work_round : Attempt → Work → Wire Work
  unfolding select_piece work_at
  work_round attempt w =
      select_piece w.mode attempt.random (indexes_of w.tasks) peers >>= λ selected.
      or_panic selected >>= λ i. work_at attempt w i

  -- The loop, on the rounds that are still to come.
  unfoldable pub work_loop : List Attempt → Work → Wire Work
  unfolding work_round
  work_loop [] w = ok w
  work_loop (attempt ∷ attempts) w = elim w.tasks [
    | [] ↦ ok w
    | t ∷ ts ↦ work_round attempt w >>= λ w'. work_loop attempts w'
  ]

-- What follows the loop: `close(done)`, which is made where there is a tracker, and
-- `close(doneKeepAliveToDHT)`, which is never made. Closing a nil channel panics.
abbrev close : Bool → Panics (Unit {0})
close made = if made then ok tt else panic

unfoldable pub close_channels : Bool → Panics (Unit {0})
close_channels has_tracker = close has_tracker >> close false
