-- ===== src/Dht/Aimed.antt =====
-- routingTable.go: the random id of a bucket and the bucket that it belongs to.
use Prim.Native.Nat.{bit_and, bit_xor}
use native.Mathlib.Nat.{mul-le-mul_right, pow-suc}
use bit_torrent_project.Common.{
  ℕ, zero, suc, ◌+◌, ◌-◌, ◌*◌, ◌/◌, ◌%◌, ◌^◌, ◌≤◌, ◌<◌, ◌≡◌, refl, ap, ◌∙◌, List, [], ◌∷◌, ◌++◌,
  Bool, true, false, not, ◌||◌, Option, none, some, length, take, get_elem?, length-append,
  length-take, All-get_elem?, All, All-append, ◌==◌, nat_eq, nat_beq, nat_beq_iff, if◌then◌else◌,
  ok, arith,
}
use bit_torrent_project.Common.Tables.{holds_under, holds_under-at}
use bit_torrent_project.Wire.Words.{IsByte}
use bit_torrent_project.Dht.Table.{
  RoutingTable, first_bit, first_dif, bucket_at, get_first_dif_bit_bucket_index,
}
use bit_torrent_project.Dht.Tables.{IsId}
use bit_torrent_project.Dht.Refresh.{
  high_bits, low_bits, first_dif_byte, random_bytes, get_random_id_from_bucket,
}

low_bit : (n : ℕ) → n % 2 ≤ 1
low_bit n = omega arith

low_bits-lt : (bit : ℕ → ℕ) (rounds i : ℕ) → rounds + i ≡ 8 → low_bits bit rounds i < 2 ^ rounds
unfolding low_bits
low_bits-lt bit zero i h = omega arith
low_bits-lt bit (suc rounds) i h =
    let p : 2 ^ suc rounds ≡ 2 ^ rounds * 2 = pow-suc 2 rounds in
    let e : 7 - i ≡ rounds = omega arith in
    rw e (
      omega (
        arith,
        p,
        low_bits-lt bit rounds (i + 1) (omega arith),
        ap (λ (t : ℕ). t) p,
        mul-le-mul_right (2 ^ rounds) (low_bit (bit i)),
      ))

-- The byte with the first bits of `x`, the next bit by the last one of `x`, and `r` behind.
abbrev aimed_byte : ℕ → ℕ → ℕ → ℕ
aimed_byte f x r =
    let flipped = if bit_and x 1 * 2 ^ (7 - f) % 256 == 0 then 2 ^ (7 - f) else 0 in
    (high_bits f x + flipped + r) % 256

-- It differs from `x` at bit `f` first, if that bit of `x` is as the last one.
abbrev aimed_right : ℕ → ℕ → ℕ → Bool
aimed_right f x r =
    not (x / 2 ^ (7 - f) % 2 == x % 2)
    || (elim (first_bit 8 0 (bit_xor (aimed_byte f x r) x)) [ none ↦ false | some j ↦ j == f ])

aimed_table :
    holds_under (λ f. holds_under (λ x. holds_under (aimed_right f x) (2 ^ (7 - f))) 256) 7 ≡ true
unfolding holds_under first_bit high_bits
aimed_table = refl

first_is :
    (first : Option ℕ) (f : ℕ)
    → (elim first [ none ↦ false | some j ↦ nat_beq j f ]) ≡ true
    → first ≡ some f
first_is none f u = cc
first_is (some j) f u = ap some ((nat_beq_iff j f).0 u)

aimed-first_bit :
    (f x r : ℕ)
    → f < 7
    → IsByte x
    → r < 2 ^ (7 - f)
    → x / 2 ^ (7 - f) % 2 ≡ x % 2
    → first_bit 8 0 (bit_xor (aimed_byte f x r) x) ≡ some f
aimed-first_bit f x r hf hx hr e =
    let t : aimed_right f x r ≡ true = holds_under-at (aimed_right f x) (2 ^ (7 - f)) r hr (
      holds_under-at (λ x. holds_under (aimed_right f x) (2 ^ (7 - f))) 256 x hx
        (holds_under-at (λ f. holds_under (λ x. holds_under (aimed_right f x) (2 ^ (7 - f))) 256) 7
          f hf aimed_table)) in
    let q : nat_beq (x / 2 ^ (7 - f) % 2) (x % 2) ≡ true = (nat_beq_iff _ _).1 e in
    let first = first_bit 8 0 (bit_xor (aimed_byte f x r) x) in
    let u : (elim first [ none ↦ false | some j ↦ nat_beq j f ]) ≡ true = rw q at t in
    first_is first f u

same_table :
    holds_under (λ x. elim (first_bit 8 0 (bit_xor x x)) [ none ↦ true | some j ↦ false ]) 256
    ≡ true
unfolding holds_under first_bit
same_table = refl

same-first_bit : (x : ℕ) → IsByte x → first_bit 8 0 (bit_xor x x) ≡ none
same-first_bit x h = let t = holds_under-at _ 256 x h same_table in ground arith

-- An id that goes on with the own id for `e` bytes, and differs then.
first_dif-at :
    (e i : ℕ) (own rest : List ℕ) (x y f : ℕ)
    → All IsByte own
    → get_elem? own e ≡ some x
    → first_bit 8 0 (bit_xor y x) ≡ some f
    → first_dif i (take e own ++ y ∷ rest) own ≡ bucket_at (i + e) f
unfolding first_dif
first_dif-at e i [] rest x y f h g s = cc
first_dif-at zero i (c ∷ own) rest x y f h g s =
    let k : c ≡ x = cc in let e : i + 0 ≡ i = omega arith in rw (k, e) (rw (s, first_dif) refl)
first_dif-at (suc e) i (c ∷ own) rest x y f h g s =
    let n : i + suc e ≡ i + 1 + e = omega arith in
    rw (same-first_bit c h.0, first_dif, n) (first_dif-at e (i + 1) own rest x y f h.1 g s)

random_bytes-IsByte :
    (byte : ℕ → ℕ) (rounds i : ℕ)
    → (length (random_bytes byte rounds i) ≡ rounds) × All IsByte (random_bytes byte rounds i)
unfolding random_bytes
random_bytes-IsByte byte zero i = (refl, tt)
random_bytes-IsByte byte (suc rounds) i =
    let (n, h) = random_bytes-IsByte byte rounds (i + 1) in (ap suc n, (omega arith, h))

take-IsByte : (n : ℕ) (xs : List ℕ) → All IsByte xs → All IsByte (take n xs)
take-IsByte zero xs h = tt
take-IsByte (suc n) [] h = tt
take-IsByte (suc n) (x ∷ xs) h = (h.0, take-IsByte n xs h.1)

aimed-IsId :
    (own rest : List ℕ) (e y : ℕ)
    → IsId own
    → e < 20
    → y < 256
    → (length rest ≡ 20 - (e + 1)) × All IsByte rest
    → IsId (take e own ++ y ∷ rest)
aimed-IsId own rest e y (n, h) l hy (m, k) = (
  omega (arith, length-append (take e own) (y ∷ rest), length-take e own),
  All-append IsByte (take e own) (y ∷ rest) (take-IsByte e own h) (hy, k),
)

-- `getRandomIDFromBucket` for a bucket `b` below 160 that is no multiple of 8, with an own id of
-- twenty bytes: if the bit of the bucket is, in its byte of the own id, as the last bit of this
-- byte, then the random id has twenty bytes and belongs to bucket `b`, whatever the random bits
-- and bytes.
pub get_random_id_from_bucket-IsId :
    (bit byte : ℕ → ℕ) (b f x : ℕ) (rt : RoutingTable)
    → IsId rt.self.id
    → b < 160
    → (160 - b) % 8 ≡ suc f
    → get_elem? rt.self.id ((160 - b + 7) / 8 - 1) ≡ some x
    → x / 2 ^ (7 - f) % 2 ≡ x % 2
    → (id : List ℕ) × (get_random_id_from_bucket bit byte b rt ≡ ok id)
      × IsId id
      × (get_first_dif_bit_bucket_index rt id ≡ ok b)
unfolding get_random_id_from_bucket get_first_dif_bit_bucket_index first_dif_byte
get_random_id_from_bucket-IsId bit byte b f x rt own l m g same =
    let e : ℕ = (160 - b + 7) / 8 - 1 in
    let y = aimed_byte f x (low_bits bit (7 - f) (f + 1)) in
    let rest = random_bytes byte (20 - (e + 1)) (e + 1) in
    let x_IsByte = All-get_elem? IsByte rt.self.id e x own.1 g in
    let tail = low_bits-lt bit (7 - f) (f + 1) (omega arith) in
    let differs = aimed-first_bit f x _ (omega arith) x_IsByte tail same in
    let place : bucket_at (0 + e) f ≡ ok b = ground arith in
    (
      take e rt.self.id ++ y ∷ rest,
      rw (g, m) refl,
      aimed-IsId rt.self.id rest e y own (omega arith) (omega arith)
          (random_bytes-IsByte byte (20 - (e + 1)) (e + 1)),
      first_dif-at e 0 rt.self.id rest x y f own.1 g differs ∙ place,
    )
