-- ===== src/Peer/Pacing.antt =====
-- torrent_peer.go: the requests of a download are those of its piece in order, five ahead.
use bit_torrent_project.Common.{
  ℕ, zero, suc, ◌+◌, ◌≤◌, ◌<◌, ◌≡◌, refl, sym, ap, ◌∙◌, List, [], ◌∷◌, ◌++◌, false, length,
  length-append, get_elem?, ltb, nat_eq, arith, inl, inr, Bool-cases,
}
use bit_torrent_project.Peer.Requests.{block_size, request_blocks}
use bit_torrent_project.Peer.Download.{Progress, sizes, ask}

request_blocks-done : (n size r : ℕ) → ltb r size ≡ false → request_blocks n size r ≡ []
unfolding request_blocks
request_blocks-done zero size r h = refl
request_blocks-done (suc n) size r h = rw (h, request_blocks) refl

-- The requests of two rounds are those of one round with as much room.
request_blocks-append :
    (a b size r : ℕ)
    → request_blocks (a + b) size r
      ≡ request_blocks a size r ++ request_blocks b size (r + sizes (request_blocks a size r))
unfolding request_blocks
request_blocks-append zero b size r =
    let z : r ≡ r + 0 = omega arith in
    let s : 0 + b ≡ b = omega arith in
    ap (λ (n : ℕ). request_blocks n size r) s ∙ ap (request_blocks b size) z
request_blocks-append (suc a) b size r =
    let s : suc a + b ≡ suc (a + b) = omega arith in
    let ih = request_blocks-append a b size (r + block_size size r) in
    ap (λ (n : ℕ). request_blocks n size r) s ∙ elim (Bool-cases (ltb r size)) [
      | inl more ↦
          let t : r + block_size size r + sizes (request_blocks a size (r + block_size size r))
              ≡ r + (block_size size r + sizes (request_blocks a size (r + block_size size r))) =
            omega arith in
          rw (more, request_blocks) (ap (◌∷◌ (r, block_size size r)) (ih ∙ rw t refl))
      | inr done ↦
          let z : ltb (r + 0) size ≡ false = ground arith in
          rw (done, request_blocks) (sym (request_blocks-done b size (r + 0) z))
    ]

request_blocks-length :
    (n size r : ℕ)
    → request_blocks (length (request_blocks n size r)) size r ≡ request_blocks n size r
unfolding request_blocks
request_blocks-length zero size r = refl
request_blocks-length (suc n) size r = elim (Bool-cases (ltb r size)) [
  | inl more ↦
      rw (more, request_blocks)
        (rw (more, request_blocks)
          (ap (◌∷◌ (r, block_size size r)) (request_blocks-length n size (r + block_size size r))))
  | inr done ↦ rw (done, request_blocks) refl
]

pub request_blocks-get_elem? :
    (a b k size r : ℕ)
    → k < a
    → k < b
    → get_elem? (request_blocks a size r) k ≡ get_elem? (request_blocks b size r) k
unfolding request_blocks
request_blocks-get_elem? zero b k size r h l = absurd (omega arith)
request_blocks-get_elem? (suc a) zero k size r h l = absurd (omega arith)
request_blocks-get_elem? (suc a) (suc b) zero size r h l = elim (Bool-cases (ltb r size)) [
  | inl more ↦ rw (more, request_blocks) refl
  | inr done ↦ rw (done, request_blocks) refl
]
request_blocks-get_elem? (suc a) (suc b) (suc k) size r h l =
    let ih =
      request_blocks-get_elem? a b k size (r + block_size size r) (omega arith) (omega arith) in
    elim (Bool-cases (ltb r size)) [
      | inl more ↦ rw (more, request_blocks) ih
      | inr done ↦ rw (done, request_blocks) refl
    ]

pub length-request_blocks : (n size r : ℕ) → length (request_blocks n size r) ≤ n
unfolding request_blocks
length-request_blocks zero size r = omega arith
length-request_blocks (suc n) size r =
    ground (arith, length-request_blocks n size (r + block_size size r))

sizes-append : (xs ys : List (ℕ × ℕ)) → sizes (xs ++ ys) ≡ sizes xs + sizes ys
sizes-append [] ys = omega arith
sizes-append ((b, n) ∷ xs) ys = omega (arith, sizes-append xs ys)

-- A client that is not choked and has sent the requests of its piece in order, at most five of them
-- without an answer.
pub record IsPaced (size k : ℕ) (p : Progress) : Type 0 where
  pub free : p.choked ≡ false
  pub in_order : p.sent ≡ request_blocks (length p.sent) size 0
  pub counted : p.requested ≡ sizes p.sent
  pub five : p.room + length p.sent ≡ 5 + k

-- After the next requests it has sent as many as there is room for.
pub ask-sent :
    (size k : ℕ) (p : Progress)
    → IsPaced size k p
    → ((ask size p).sent ≡ request_blocks (5 + k) size 0) × IsPaced size k (ask size p)
unfolding ask
ask-sent size k p h =
    let blocks = request_blocks p.room size p.requested in
    let n = length p.sent in
    let few = (request_blocks-length p.room size p.requested) in
    let asked : p.sent ++ blocks ≡ request_blocks (5 + k) size 0 =
      let joined = request_blocks-append n p.room size 0 in
      let full : n + p.room ≡ 5 + k = omega (arith, h.five) in
      let start : 0 + sizes (request_blocks n size 0) ≡ p.requested =
        omega (arith, ap sizes h.in_order, h.counted) in
      sym (
        ap (λ (t : ℕ). request_blocks t size 0) (sym full)
        ∙ joined
        ∙ rw start (ap (λ x. x ++ blocks) (sym h.in_order))) in
    rw (h.free, ask)
      (
        asked,
        record {
          free = refl;
          in_order =
              asked
              ∙ sym (request_blocks-length (5 + k) size 0)
              ∙ ap (λ (x : List (ℕ × ℕ)). request_blocks (length x) size 0) (sym asked);
          counted = omega (arith, h.counted, sizes-append p.sent blocks);
          five = omega (
            arith,
            h.five,
            length-append p.sent blocks,
            length-request_blocks p.room size p.requested,
          );
        },
      )
