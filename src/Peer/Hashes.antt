-- ===== src/Peer/Hashes.antt =====
-- torrent_files.go: the hashes that `BuildTorrentFile` writes are those that `splitPiecesHash` reads.
use bit_torrent_project.Common.{
  ℕ, zero, suc, ◌+◌, ◌-◌, ◌*◌, ◌/◌, ◌%◌, ◌≤◌, ◌≡◌, inl, inr, refl, sym, ap, ◌∙◌, List, [], ◌∷◌,
  ◌++◌, true, false, length, take, drop, take-append_self, drop-append_self, length-append, ltb,
  leb, ◌==◌, nat_eq, if◌then◌else◌, ok, arith, Bool-cases,
}
use bit_torrent_project.Peer.Pieces.{
  piece_length, split_loop, split_pieces_hash, new_piece_length, hash_loop, pieces_hash,
}

module _ (sha1 : List ℕ → List ℕ) where
  -- The hashes of the first pieces of 256 bytes.
  abbrev pub hashes : ℕ → List ℕ → List (List ℕ)
  hashes zero buf = []
  hashes (suc n) buf = sha1 (take new_piece_length buf) ∷ hashes n (drop new_piece_length buf)

module _ (sha1 : List ℕ → List ℕ) (is_20 : (bytes : List ℕ) → length (sha1 bytes) ≡ 20) where
  split-hash_loop : (n : ℕ) (buf : List ℕ) → split_loop n (hash_loop sha1 n buf) ≡ hashes sha1 n buf
  unfolding split_loop hash_loop
  split-hash_loop zero buf = refl
  split-hash_loop (suc n) buf =
      let h = sha1 (take new_piece_length buf) in
      let rest = hash_loop sha1 n (drop new_piece_length buf) in
      let t : take 20 (h ++ rest) ≡ h =
        ap (λ k. take k (h ++ rest)) (sym (is_20 (take new_piece_length buf)))
        ∙ take-append_self h rest in
      let d : drop 20 (h ++ rest) ≡ rest =
        ap (λ k. drop k (h ++ rest)) (sym (is_20 (take new_piece_length buf)))
        ∙ drop-append_self h rest in
      rw (t, d) (ap (◌∷◌ h) (split-hash_loop n (drop new_piece_length buf)))

  length-hash_loop : (n : ℕ) (buf : List ℕ) → length (hash_loop sha1 n buf) ≡ n * 20
  unfolding hash_loop
  length-hash_loop zero buf = omega arith
  length-hash_loop (suc n) buf =
      let h = sha1 (take new_piece_length buf) in
      let rest = hash_loop sha1 n (drop new_piece_length buf) in
      omega (
        arith,
        length-append h rest,
        is_20 (take new_piece_length buf),
        length-hash_loop n (drop new_piece_length buf),
      )

  -- If the hash function gives twenty bytes, `splitPiecesHash` takes what `BuildTorrentFile`
  -- wrote: one hash of the whole file where it is shorter than 256 bytes, else the hashes of its
  -- pieces of 256 bytes, without one for the bytes that are left at the end.
  pub split-pieces_hash :
      (buf : List ℕ)
      → split_pieces_hash (pieces_hash sha1 buf)
        ≡ ok (
            if ltb (length buf) 256
            then sha1 buf ∷ []
            else hashes sha1 (length buf / new_piece_length) buf)
  unfolding split_pieces_hash pieces_hash split_loop hash_loop
  split-pieces_hash buf = elim (Bool-cases (ltb (length buf) 256)) [
    | inl short ↦
        let n : length buf / new_piece_length ≡ 0 = ground arith in
        let h = sha1 buf ++ [] in
        let l : length h ≡ 20 = omega (arith, length-append (sha1 buf) [], is_20 buf) in
        let t : take 20 h ≡ sha1 buf =
          ap (λ k. take k h) (sym (is_20 buf)) ∙ take-append_self (sha1 buf) [] in
        rw (short, n) (rw (l, t) refl)
    | inr long ↦
        let n = length buf / new_piece_length in
        let ne : (n == 0) ≡ false = ground arith in
        let l = length-hash_loop n buf in
        let whole : (n * 20 % 20 == 0) ≡ true = ground arith in
        let times : n * 20 / 20 ≡ n = omega arith in
        rw (long, ne, l, whole, times) (ap ok (split-hash_loop n buf))
  ]

-- For a piece that begins in the file, `pieceLength` returns: at most the size of a piece, and the
-- piece ends at the end of the file or at that of a whole piece, whichever comes first.
pub piece_length-ends :
    (piece_size file_length index : ℕ)
    → index * piece_size ≤ file_length
    → (l : ℕ) × (piece_length piece_size file_length index ≡ ok l)
      × (l ≤ piece_size)
      × (index * piece_size + l ≡ (
          if leb (index * piece_size + piece_size) file_length
          then index * piece_size + piece_size
          else file_length))
unfolding piece_length
piece_length-ends piece_size file_length index h =
    let further : (index + 1) * piece_size ≡ index * piece_size + piece_size = omega arith in
    elim (Bool-cases (ltb file_length ((index + 1) * piece_size))) [
      | inl last ↦ (file_length - index * piece_size, ground arith, ground arith, ground arith)
      | inr whole ↦ (piece_size, ground arith, omega arith, ground arith)
    ]
