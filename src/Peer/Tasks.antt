-- ===== src/Peer/Tasks.antt =====
-- torrent_peer.go: the tasks that are left of a download.
use mathlib.Core.Option.{some-injective}
use native.Mathlib.Nat.{mod-lt}
use bit_torrent_project.Common.{
  ℕ, zero, suc, ◌+◌, ◌%◌, ◌<◌, ◌≡◌, ◌⊎◌, inl, inr, refl, sym, ap, subst, ◌∙◌, List, [], ◌∷◌, ◌++◌,
  Bool, true, false, some, String, length, get_elem?, get_elem?-some, All, ◌==◌, nat_eq,
  nat_beq_iff, string_eq, bytes_eq_instance, if◌then◌else◌, ok, arith, Bool-cases,
}
use bit_torrent_project.Peer.Selection.{number_of_peers}
use bit_torrent_project.Peer.Rarest.{IsCounted, rarest_first-IsRarest}
use bit_torrent_project.Peer.Worker.{PieceTask, PieceResult, remove, indexes_of, select_piece}
use bit_torrent_project.Peer.Collector.{received}

-- Is a piece with this index among the tasks?
abbrev pub awaited : ℕ → List PieceTask → Bool
awaited index [] = false
awaited index (task ∷ tasks) = if task.index == index then true else awaited index tasks

pub indexes-get_elem? :
    (tasks : List PieceTask) (p index : ℕ)
    → get_elem? (indexes_of tasks) p ≡ some index
    → (task : PieceTask) × (get_elem? tasks p ≡ some task)
indexes-get_elem? [] p index e = cc
indexes-get_elem? (task ∷ tasks) zero index e = (task, refl)
indexes-get_elem? (task ∷ tasks) (suc p) index e = indexes-get_elem? tasks p index e

pub length-indexes : (tasks : List PieceTask) → length (indexes_of tasks) ≡ length tasks
length-indexes [] = refl
length-indexes (task ∷ tasks) = ap suc (length-indexes tasks)

pub no_peers-IsCounted : (pieces : List ℕ) → All (IsCounted [] (λ i. 0)) pieces
unfolding number_of_peers
no_peers-IsCounted [] = tt
no_peers-IsCounted (i ∷ pieces) = ((refl, omega arith), no_peers-IsCounted pieces)

abbrev pub IsMode : String → Type 0
IsMode mode = (mode ≡ "random first") ⊎ (mode ≡ "rarest first")

-- In either mode a piece is selected where one is left.
pub select_piece-some :
    (mode : String) (random : ℕ) (task : PieceTask) (tasks : List PieceTask)
    → IsMode mode
    → (i : ℕ) × (found : PieceTask) × (select_piece mode random (indexes_of (task ∷ tasks)) []
        ≡ ok (some i))
      × (get_elem? (task ∷ tasks) i ≡ some found)
unfolding select_piece
select_piece-some mode random task tasks (inl m) =
    let pieces = indexes_of (task ∷ tasks) in
    let n = length-indexes (task ∷ tasks) in
    let l : random % length pieces < length pieces = mod-lt random (omega arith) in
    let (found, e) = get_elem?-some (task ∷ tasks) (random % length pieces) (omega (arith, n, l)) in
    (random % length pieces, found, rw m (ground arith), e)
select_piece-some mode random task tasks (inr m) =
    let (p, index, e, g, _) =
      rarest_first-IsRarest [] (λ i. 0) task.index (indexes_of tasks)
        (no_peers-IsCounted (task.index ∷ indexes_of tasks)) in
    let (found, f) = indexes-get_elem? (task ∷ tasks) p index g in (p, found, rw m (rw e refl), f)

pub remove-suc :
    (t : PieceTask) (tasks : List PieceTask) (i : ℕ)
    → remove (t ∷ tasks) (suc i) ≡ t ∷ remove tasks i
unfolding remove
remove-suc t tasks i = let e : suc i + 1 ≡ suc (i + 1) = omega arith in rw e refl

pub remove-nil : (i : ℕ) → remove [] i ≡ []
unfolding remove
remove-nil zero = refl
remove-nil (suc i) = let e : suc i + 1 ≡ suc (i + 1) = omega arith in rw e refl

-- What is left without the task at an index, and with it.
pub length-remove :
    (tasks : List PieceTask) (i : ℕ) (task : PieceTask)
    → get_elem? tasks i ≡ some task
    → length (remove tasks i) + 1 ≡ length tasks
unfolding remove
length-remove [] i task e = cc
length-remove (t ∷ tasks) zero task e = omega arith
length-remove (t ∷ tasks) (suc i) task e =
    omega (arith, ap (λ ts. length ts) (remove-suc t tasks i), length-remove tasks i task e)

pub remove-All :
    (P : PieceTask → Type 0) (tasks : List PieceTask) (i : ℕ) → All P tasks → All P (remove tasks i)
unfolding remove
remove-All P [] i h = subst (All P) (sym (remove-nil i)) tt
remove-All P (t ∷ tasks) zero h = h.1
remove-All P (t ∷ tasks) (suc i) h =
    subst (All P) (sym (remove-suc t tasks i)) (h.0, remove-All P tasks i h.1)

pub awaited-remove :
    (tasks : List PieceTask) (i k : ℕ) (task : PieceTask)
    → get_elem? tasks i ≡ some task
    → awaited k tasks ≡ true
    → (task.index ≡ k) ⊎ (awaited k (remove tasks i) ≡ true)
unfolding remove
awaited-remove [] i k task e h = cc
awaited-remove (t ∷ tasks) zero k task e h = elim (Bool-cases (t.index == k)) [
  | inl same ↦
      let f : t ≡ task = some-injective _ _ e in
      inl (sym (ap PieceTask.index f) ∙ (nat_beq_iff t.index k).0 same)
  | inr other ↦ inr (rw other at h)
]
awaited-remove (t ∷ tasks) (suc i) k task e h = elim (Bool-cases (t.index == k)) [
  | inl same ↦ inr (ap (awaited k) (remove-suc t tasks i) ∙ rw same refl)
  | inr other ↦ elim (awaited-remove tasks i k task e (rw other at h)) [
    | inl this ↦ inl this
    | inr rest ↦ inr (ap (awaited k) (remove-suc t tasks i) ∙ rw other rest)
  ]
]

pub received-append :
    (k : ℕ) (responses : List PieceResult) (res : PieceResult)
    → (received k responses ≡ true) ⊎ (res.index ≡ k)
    → received k (responses ++ res ∷ []) ≡ true
received-append k [] res (inl r) = cc
received-append k [] res (inr e) = ground arith
received-append k (r ∷ responses) res h = elim (Bool-cases (r.index == k)) [
  | inl same ↦ rw same refl
  | inr other ↦ rw other (
      received-append k responses res
        (elim h [ inl old ↦ inl (rw other at old) | inr new ↦ inr new ]))
]
