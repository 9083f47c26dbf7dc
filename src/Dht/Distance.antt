-- ===== src/Dht/Distance.antt =====
-- routingTable.go and node.go: the bucket of a node is the length of its distance in bits.
use Prim.Native.Nat.{bit_xor}
use mathlib.Core.List.{foldl}
use native.Mathlib.Nat.{mul-le-mul_right, pow-suc}
use bit_torrent_project.Common.{
  ℕ, suc, ◌+◌, ◌-◌, ◌*◌, ◌^◌, ◌≤◌, ◌<◌, ◌≡◌, ◌⊎◌, inl, inr, refl, sym, ap, ◌∙◌, subst, List, [],
  ◌∷◌, Bool, true, ◌&&◌, none, some, length, All, ltb, leb, nat_eq, nat_beq, ok, arith,
  Option-cases,
}
use bit_torrent_project.Common.Tables.{holds_under, holds_under-at, pow-add, pow_byte}
use bit_torrent_project.Wire.Words.{IsByte}
use bit_torrent_project.Dht.Xor.{split_byte}
use bit_torrent_project.Dht.Node.{Panics, add_byte, get_distance}
use bit_torrent_project.Dht.Table.{
  b_bits, RoutingTable, first_bit, first_dif, get_first_dif_bit_bucket_index,
}

-- What a byte's first bit says of the byte.
abbrev first_bit_right : ℕ → Bool
first_bit_right z = elim (first_bit 8 0 z) [
  | none ↦ nat_beq z 0
  | some j ↦ ltb j 8 && (leb (2 ^ (7 - j)) z && ltb z (2 ^ (8 - j)))
]

first_bit_table : holds_under first_bit_right 256 ≡ true
unfolding holds_under first_bit
first_bit_table = refl

first_bit-none : (z : ℕ) → z < 256 → first_bit 8 0 z ≡ none → z ≡ 0
first_bit-none z h e = ground (arith, holds_under-at first_bit_right 256 z h first_bit_table)

first_bit-some :
    (z j : ℕ) → z < 256 → first_bit 8 0 z ≡ some j → (j < 8) × (2 ^ (7 - j) ≤ z) × (z < 2 ^ (8 - j))
first_bit-some z j h e = ground (arith, holds_under-at first_bit_right 256 z h first_bit_table)

-- The exclusive or of two ids, byte by byte.
abbrev xor_bytes : List ℕ → List ℕ → List ℕ
xor_bytes [] ys = []
xor_bytes (x ∷ xs) [] = []
xor_bytes (x ∷ xs) (y ∷ ys) = bit_xor x y ∷ xor_bytes xs ys

xor_table : holds_under (λ x. holds_under (λ y. ltb (bit_xor x y) 256) 256) 256 ≡ true
unfolding holds_under
xor_table = refl

bit_xor-IsByte : (x y : ℕ) → IsByte x → IsByte y → IsByte (bit_xor x y)
bit_xor-IsByte x y hx hy =
    let t : ltb (bit_xor x y) 256 ≡ true =
      holds_under-at (λ y. ltb (bit_xor x y) 256) 256 y hy
        (holds_under-at (λ x. holds_under (λ y. ltb (bit_xor x y) 256) 256) 256 x hx xor_table) in
    ground arith

foldl-xor :
    (xs ys : List ℕ) (a b : ℕ)
    → length xs ≡ length ys
    → All IsByte xs
    → All IsByte ys
    → bit_xor (foldl add_byte a xs) (foldl add_byte b ys)
      ≡ foldl add_byte (bit_xor a b) (xor_bytes xs ys)
foldl-xor [] [] a b e hx hy = refl
foldl-xor [] (y ∷ ys) a b e hx hy = absurd (omega arith)
foldl-xor (x ∷ xs) [] a b e hx hy = absurd (omega arith)
foldl-xor (x ∷ xs) (y ∷ ys) a b e hx hy =
    foldl-xor xs ys (add_byte a x) (add_byte b y) (omega arith) hx.1 hy.1
    ∙ ap (λ t. foldl add_byte t (xor_bytes xs ys)) (split_byte a b x y hx.0 hy.0)

xor_bytes-IsByte : (xs ys : List ℕ) → All IsByte xs → All IsByte ys → All IsByte (xor_bytes xs ys)
xor_bytes-IsByte [] ys hx hy = tt
xor_bytes-IsByte (x ∷ xs) [] hx hy = tt
xor_bytes-IsByte (x ∷ xs) (y ∷ ys) hx hy =
    (bit_xor-IsByte x y hx.0 hy.0, xor_bytes-IsByte xs ys hx.1 hy.1)

length-xor_bytes : (xs ys : List ℕ) → length xs ≡ length ys → length (xor_bytes xs ys) ≡ length xs
length-xor_bytes [] ys e = refl
length-xor_bytes (x ∷ xs) [] e = absurd (omega arith)
length-xor_bytes (x ∷ xs) (y ∷ ys) e = ap suc (length-xor_bytes xs ys (omega arith))

-- A number whose bytes follow those of `a`.
foldl-add_byte :
    (zs : List ℕ) (a : ℕ) → foldl add_byte a zs ≡ a * 256 ^ length zs + foldl add_byte 0 zs
foldl-add_byte [] a = omega arith
foldl-add_byte (z ∷ zs) a = omega (
  arith,
  foldl-add_byte zs (add_byte a z),
  foldl-add_byte zs (add_byte 0 z),
  ap (λ (t : ℕ). a * t) (pow-suc 256 (length zs)),
)

foldl-lt : (zs : List ℕ) → All IsByte zs → foldl add_byte 0 zs < 256 ^ length zs
foldl-lt [] h = omega arith
foldl-lt (z ∷ zs) h =
    let top : z ≤ 255 = omega arith in
    omega (
      arith,
      foldl-add_byte zs (add_byte 0 z),
      foldl-lt zs h.1,
      mul-le-mul_right (256 ^ length zs) top,
      pow-suc 256 (length zs),
    )

-- A number of `suc r` bytes lies between the powers of two that its first byte gives.
leading_byte :
    (zs : List ℕ) (z r j : ℕ)
    → length zs ≡ r
    → All IsByte zs
    → j < 8
    → 2 ^ (7 - j) ≤ z
    → z < 2 ^ (8 - j)
    → (2 ^ (8 * r + (7 - j)) ≤ foldl add_byte 0 (z ∷ zs))
      × (foldl add_byte 0 (z ∷ zs) < 2 ^ (8 * r + (8 - j)))
leading_byte zs z r j e h hj lo hi =
    let p : 256 ^ length zs ≡ 2 ^ (8 * r) = ap (λ t. 256 ^ t) e ∙ pow_byte r in
    let up : suc z ≤ 2 ^ (8 - j) = hi in
    omega (
      arith,
      p,
      foldl-add_byte zs (add_byte 0 z),
      foldl-lt zs h,
      pow-add 2 (8 * r) (7 - j),
      pow-add 2 (8 * r) (8 - j),
      mul-le-mul_right (2 ^ (8 * r)) lo,
      mul-le-mul_right (2 ^ (8 * r)) up,
      ap (λ (t : ℕ). z * t) p,
    )

-- What the index says of a distance.
abbrev pub Measures : Panics ℕ → ℕ → Type 0
Measures r d =
    ((r ≡ ok 0) × (d ≡ 0))
    ⊎ ((index : ℕ) × (r ≡ ok index) × (index < b_bits) × (2 ^ index ≤ d) × (d < 2 ^ (index + 1)))

first_dif-Measures :
    (node own : List ℕ) (i : ℕ)
    → i + length node ≡ 20
    → length node ≡ length own
    → All IsByte node
    → All IsByte own
    → Measures (first_dif i node own) (foldl add_byte 0 (xor_bytes node own))
unfolding first_dif
first_dif-Measures [] [] i n e hx hy = inl (refl, refl)
first_dif-Measures [] (y ∷ ys) i n e hx hy = absurd (omega arith)
first_dif-Measures (x ∷ xs) [] i n e hx hy = absurd (omega arith)
first_dif-Measures (x ∷ xs) (y ∷ ys) i n e hx hy =
    elim (Option-cases (first_bit 8 0 (bit_xor x y))) [
      | inl z ↦
          let zero_byte = first_bit-none (bit_xor x y) (bit_xor-IsByte x y hx.0 hy.0) z in
          rw (z, first_dif)
            (rw zero_byte (first_dif-Measures xs ys (i + 1) (omega arith) (omega arith) hx.1 hy.1))
      | inr (j, s) ↦
          let (hj, lo, hi) = first_bit-some (bit_xor x y) j (bit_xor-IsByte x y hx.0 hy.0) s in
          let r = length xs in
          let (below, above) =
            leading_byte (xor_bytes xs ys) (bit_xor x y) r j (length-xor_bytes xs ys (omega arith))
              (xor_bytes-IsByte xs ys hx.1 hy.1) hj lo hi in
          let index : ℕ = 160 - (8 * i + j + 1) in
          let low_end : index ≡ 8 * r + (7 - j) = omega arith in
          let high_end : index + 1 ≡ 8 * r + (8 - j) = omega arith in
          inr (
            index,
            rw (s, first_dif) (ground arith),
            omega arith,
            subst (λ t. 2 ^ t ≤ foldl add_byte 0 (xor_bytes (x ∷ xs) (y ∷ ys))) (sym low_end) below,
            subst (λ t. foldl add_byte 0 (xor_bytes (x ∷ xs) (y ∷ ys)) < 2 ^ t) (sym high_end)
                above,
          )
    ]

-- For ids of twenty bytes the bucket of a node is the length in bits of its distance from the own
-- id, less one: 0 for distance 0, and else the index with 2 ^ index ≤ distance < 2 ^ (index + 1).
pub bucket_index-Measures :
    (rt : RoutingTable) (node : List ℕ)
    → length node ≡ 20
    → length rt.self.id ≡ 20
    → All IsByte node
    → All IsByte rt.self.id
    → Measures (get_first_dif_bit_bucket_index rt node) (get_distance node rt.self.id)
unfolding get_first_dif_bit_bucket_index get_distance
bucket_index-Measures rt node n m hx hy =
    rw (foldl-xor node rt.self.id 0 0 (n ∙ sym m) hx hy)
      (first_dif-Measures node rt.self.id 0 (omega arith) (n ∙ sym m) hx hy)
