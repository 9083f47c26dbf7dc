-- ===== src/Peer/Collector.antt =====
-- torrent.go: `DownloadFile` collects the pieces, and the buffer that they make up.
use bit_torrent_project.Common.{
  ℕ, zero, suc, ◌+◌, ◌-◌, ◌*◌, ◌≤◌, ◌<◌, ◌≡◌, ◌⊎◌, inl, inr, refl, ap, ◌∙◌, List, [], ◌∷◌, Bool,
  true, false, ◌&&◌, All, Option, none, some, length, take, drop, replicate, get_elem?,
  length-replicate, length-take, length-drop, get_elem?-take, get_elem?-drop, ltb, leb, nat_eq,
  ◌==◌, if◌then◌else◌, ok, panic, arith, Bool-cases,
}
use mathlib.Core.Option.{some-injective}
use bit_torrent_project.Wire.Words.{copy_at, get_elem?-copy_at, length-copy_at}
use bit_torrent_project.Dht.Node.{Panics}
use bit_torrent_project.Peer.Worker.{PieceResult}

-- The loop for so many pieces that are still to come, on what comes out of `responses`; with
-- `none` it waits for ever. A piece past the buffer's end panics.
unfoldable pub collect_loop : ℕ → ℕ → List PieceResult → List ℕ → Panics (Option (List ℕ))
collect_loop piece_size zero responses buf = ok (some buf)
collect_loop piece_size (suc n) [] buf = ok none
collect_loop piece_size (suc n) (res ∷ responses) buf =
    elim (ltb (length buf) (res.index * piece_size)) [
      | true ↦ panic
      | false ↦ collect_loop piece_size n responses (copy_at (res.index * piece_size) res.bytes buf)
    ]

-- The buffer of `DownloadFile` for a file of this length with so many pieces.
unfoldable pub collect : ℕ → ℕ → ℕ → List PieceResult → Panics (Option (List ℕ))
unfolding collect_loop
collect piece_size file_length pieces responses =
    collect_loop piece_size pieces responses (replicate file_length 0)

-- A piece of a file.
abbrev pub piece_at : ℕ → List ℕ → ℕ → List ℕ
piece_at piece_size file index = take piece_size (drop (index * piece_size) file)

-- Is a piece with this index among the results?
abbrev pub received : ℕ → List PieceResult → Bool
received index [] = false
received index (res ∷ responses) = if res.index == index then true else received index responses

-- A result that is the piece of the file with its index, and begins in the file.
abbrev pub IsPieceOf : ℕ → List ℕ → PieceResult → Type 0
IsPieceOf piece_size file res =
    (res.bytes ≡ piece_at piece_size file res.index) × (res.index * piece_size ≤ length file)

pub piece_length_lem :
    (b size : ℕ) (file : List ℕ)
    → b ≤ length file
    → (length (take size (drop b file))
        ≡ (if leb (b + size) (length file) then size else length file - b))
      × (b + length (take size (drop b file)) ≤ length file)
piece_length_lem b size file h =
    let n = length-take size (drop b file) in
    let m = length-drop b file in (ground (arith, n, m), omega (arith, n, m))

-- A piece that is copied to its place leaves the file's bytes there and the old ones elsewhere.
get_elem?-copy_piece :
    (b size j : ℕ) (file buf : List ℕ)
    → b ≤ length file
    → length buf ≡ length file
    → j < length file
    → get_elem? (copy_at b (take size (drop b file)) buf) j
      ≡ (if leb b j && ltb j (b + size) then get_elem? file j else get_elem? buf j)
get_elem?-copy_piece b size j file buf h e l =
    let piece = take size (drop b file) in
    let (n, fits) = piece_length_lem b size file h in
    let c = get_elem?-copy_at b piece buf j (omega (arith, fits, e)) in
    elim (Bool-cases (ltb j b)) [
      | inl below ↦ c ∙ ground arith
      | inr above ↦ elim (Bool-cases (ltb j (b + size))) [
        | inl inside ↦
            let within : ltb j (b + length piece) ≡ true = ground (arith, n) in
            let near : ltb (j - b) size ≡ true = ground arith in
            let place : b + (j - b) ≡ j = ground arith in
            let at : leb b j ≡ true = ground arith in
            let read : get_elem? piece (j - b) ≡ get_elem? file j =
              get_elem?-take size (drop b file) (j - b)
              ∙ rw near (get_elem?-drop b file (j - b) ∙ ap (get_elem? file) place) in
            c ∙ rw (above, within, at, inside) read
        | inr past ↦
            let outside : ltb j (b + length piece) ≡ false = ground (arith, n) in
            let at : leb b j ≡ true = ground arith in c ∙ rw (above, outside, at, past) refl
      ]
    ]

-- The loop writes the pieces that it takes, and keeps what agrees with the file already.
collect_loop-fills :
    (piece_size : ℕ) (file : List ℕ) (responses : List PieceResult) (buf : List ℕ)
    → length buf ≡ length file
    → All (IsPieceOf piece_size file) responses
    → (out : List ℕ) × (collect_loop piece_size (length responses) responses buf ≡ ok (some out))
      × (length out ≡ length file)
      × ((j k : ℕ)
          → j < length file
          → k * piece_size ≤ j
          → j < k * piece_size + piece_size
          → (received k responses ≡ true) ⊎ (get_elem? buf j ≡ get_elem? file j)
          → get_elem? out j ≡ get_elem? file j)
unfolding collect_loop
collect_loop-fills piece_size file [] buf e h =
    (buf, refl, e, λ j k l lo hi c. elim c [ inl r ↦ cc | inr same ↦ same ])
collect_loop-fills piece_size file (res ∷ responses) buf e ((p, begins), h) =
    let b = res.index * piece_size in
    let buf' = copy_at b res.bytes buf in
    let piece = piece_at piece_size file res.index in
    let (n, fits) = piece_length_lem b piece_size file begins in
    let e' : length buf' ≡ length file =
      length-copy_at b res.bytes buf (omega (arith, fits, e, ap length p)) ∙ e in
    let (out, run, long, same) = collect_loop-fills piece_size file responses buf' e' h in
    let reads : ltb (length buf) b ≡ false = ground arith in
    let copied : (j : ℕ)
        → j < length file
        → get_elem? buf' j
          ≡ (if leb b j && ltb j (b + piece_size) then get_elem? file j else get_elem? buf j) =
      λ j l.
        ap (λ x. get_elem? (copy_at b x buf) j) p
        ∙ get_elem?-copy_piece b piece_size j file buf begins e l in
    (
      out,
      rw (reads, collect_loop) run,
      long,
      λ j k l lo hi c. same j k l lo hi (elim (Bool-cases (res.index == k)) [
        | inl this ↦
            let eq : res.index ≡ k = ground arith in
            let place : b ≡ k * piece_size = ap (λ (t : ℕ). t * piece_size) eq in
            let at : leb b j ≡ true = ground arith in
            let inside : ltb j (b + piece_size) ≡ true = ground arith in
            inr (copied j l ∙ rw (at, inside) refl)
        | inr other ↦ elim c [
          | inl r ↦ inl (rw other at r)
          | inr old ↦ inr (copied j l ∙ ground (arith, old))
        ]
      ]),
    )

same_bytes :
    (xs ys : List ℕ)
    → length xs ≡ length ys
    → ((j : ℕ) → j < length ys → get_elem? xs j ≡ get_elem? ys j)
    → xs ≡ ys
same_bytes [] [] e h = refl
same_bytes [] (y ∷ ys) e h = absurd (omega arith)
same_bytes (x ∷ xs) [] e h = absurd (omega arith)
same_bytes (x ∷ xs) (y ∷ ys) e h =
    let head : x ≡ y = some-injective _ _ (h 0 (omega arith)) in
    let tail : xs ≡ ys = same_bytes xs ys (omega arith) (λ j l. h (suc j) (omega arith)) in cc

-- The index of the piece that a byte lies in, if so many pieces cover the file.
piece_of_byte :
    (pieces piece_size j : ℕ)
    → j < pieces * piece_size
    → (k : ℕ) × (k < pieces) × (k * piece_size ≤ j) × (j < k * piece_size + piece_size)
piece_of_byte zero piece_size j h = absurd (omega arith)
piece_of_byte (suc pieces) piece_size j h =
    let step : suc pieces * piece_size ≡ pieces * piece_size + piece_size = omega arith in
    elim (Bool-cases (ltb j (pieces * piece_size))) [
      | inl below ↦
          let (k, l, lo, hi) = piece_of_byte pieces piece_size j (ground arith) in
          (k, omega arith, lo, hi)
      | inr above ↦ (pieces, omega arith, ground arith, omega arith)
    ]

-- If so many pieces cover a file, and `responses` gives as many results, each the piece of the file
-- with its index and each index among them, then `DownloadFile` collects the file from them, in
-- whatever order they come.
pub collect-file :
    (piece_size : ℕ) (file : List ℕ) (responses : List PieceResult)
    → length file ≤ length responses * piece_size
    → All (IsPieceOf piece_size file) responses
    → ((k : ℕ) → k < length responses → received k responses ≡ true)
    → collect piece_size (length file) (length responses) responses ≡ ok (some file)
unfolding collect
collect-file piece_size file responses covers h all =
    let (out, run, long, same) =
      collect_loop-fills piece_size file responses (replicate (length file) 0)
        (length-replicate (length file) 0) h in
    let whole : out ≡ file = same_bytes out file long (λ j l.
      let (k, below, lo, hi) = piece_of_byte (length responses) piece_size j (omega arith) in
      same j k l lo hi (inl (all k below))) in
    run ∙ ap (λ (x : List ℕ). ok (some x)) whole
