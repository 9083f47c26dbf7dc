-- ===== src/Peer/Rarest.antt =====
-- piece_selection.go: `RarestFirst` finds a rarest piece.
use bit_torrent_project.Common.{
  ℕ, suc, ◌+◌, ◌≤◌, ◌<◌, ◌≡◌, ◌⊎◌, inl, inr, refl, ap, ◌∙◌, List, [], ◌∷◌, some, length, get_elem?,
  All, ltb, ok, arith, Bool-cases,
}
use bit_torrent_project.Peer.Selection.{number_of_peers, rarest_loop, rarest_first}

module _ (peers : List (List ℕ)) (count : ℕ → ℕ) where
  -- A piece whose number of peers can be counted.
  abbrev pub IsCounted : ℕ → Type 0
  IsCounted index = (number_of_peers peers index ≡ ok (count index)) × (count index ≤ length peers)

  rarest_loop_lem :
      (i p min : ℕ) (pieces : List ℕ)
      → All IsCounted pieces
      → (q : ℕ) × (rarest_loop peers i pieces p min ≡ ok q)
        × (((q ≡ p) × All (λ j. min ≤ count j) pieces)
            ⊎ ((k : ℕ) × (index : ℕ) × (q ≡ i + k)
                × (get_elem? pieces k ≡ some index)
                × (count index < min)
                × All (λ j. count index ≤ count j) pieces))
  unfolding rarest_loop
  rarest_loop_lem i p min [] h = (p, refl, inl (refl, tt))
  rarest_loop_lem i p min (index ∷ pieces) h = elim (Bool-cases (ltb (count index) min)) [
    | inl less ↦
        let (q, e, r) = rarest_loop_lem (i + 1) i (count index) pieces h.1 in
        (
          q,
          rw (h.0.0, rarest_loop, less) e,
          elim r [
            | inl (same, all) ↦ inr (0, index, omega arith, refl, ground arith, (omega arith, all))
            | inr (k, other, at, found, l, all) ↦
                inr (suc k, other, omega arith, found, ground arith, (omega arith, all))
          ],
        )
    | inr more ↦
        let (q, e, r) = rarest_loop_lem (i + 1) p min pieces h.1 in
        (
          q,
          rw (h.0.0, rarest_loop, more) e,
          elim r [
            | inl (same, all) ↦ inl (same, (ground arith, all))
            | inr (k, other, at, found, l, all) ↦
                inr (suc k, other, omega arith, found, l, (ground arith, all))
          ],
        )
  ]

  -- `RarestFirst`, for a list of pieces that is not empty and each of which is counted to be had
  -- by so many of the peers, returns: the position of a piece in the list which no piece of the
  -- list has fewer peers than.
  pub rarest_first-IsRarest :
      (index : ℕ) (pieces : List ℕ)
      → All IsCounted (index ∷ pieces)
      → (p : ℕ) × (found : ℕ) × (rarest_first (index ∷ pieces) peers ≡ ok p)
        × (get_elem? (index ∷ pieces) p ≡ some found)
        × All (λ j. count found ≤ count j) (index ∷ pieces)
  unfolding rarest_first
  rarest_first-IsRarest index pieces h =
      let (q, e, r) = rarest_loop_lem 0 0 (length peers + 1) (index ∷ pieces) h in
      elim r [
        | inl (same, all) ↦ absurd (omega (arith, all.0, h.0.1))
        | inr (k, found, at, g, l, all) ↦
            let z : q ≡ k = omega arith in (k, found, e ∙ ap ok z, g, all)
      ]
