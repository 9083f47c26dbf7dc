-- ===== src/Dht/Ordered.antt =====
-- The lists of values of kStore.go: sorted without repetition, found, added and dropped by search.
use bit_torrent_project.Common.{
  ℕ, ◌+◌, ◌<◌, ◌≡◌, refl, List, [], ◌∷◌, Bool, true, false, none, some, length, All, ◌==◌, nat_eq,
  bytes_eq, bytes_eq_instance, bytes_eq_iff, if◌then◌else◌, arith,
}
use bit_torrent_project.Dht.Store.{str_lt, add_value, drop_value}

abbrev pub member : List ℕ → List (List ℕ) → Bool
member x [] = false
member x (v ∷ vs) = if v == x then true else member x vs

abbrev pub IsSorted : List (List ℕ) → Type 0
IsSorted [] = Unit {0}
IsSorted (v ∷ vs) = All (λ w. str_lt v w ≡ true) vs × IsSorted vs

-- The value in its place.
abbrev pub insert_sorted : List ℕ → List (List ℕ) → List (List ℕ)
insert_sorted x [] = x ∷ []
insert_sorted x (v ∷ vs) =
    if str_lt v x then v ∷ insert_sorted x vs else if v == x then v ∷ vs else x ∷ v ∷ vs

str_lt_trans : (xs ys zs : List ℕ) → str_lt xs ys ≡ true → str_lt ys zs ≡ true → str_lt xs zs ≡ true
str_lt_trans xs [] zs h k = cc
str_lt_trans xs (y ∷ ys) [] h k = cc
str_lt_trans [] (y ∷ ys) (z ∷ zs) h k = refl
str_lt_trans (x ∷ xs) (y ∷ ys) (z ∷ zs) h k = ground (arith, str_lt_trans xs ys zs)

str_lt_irrefl : (xs : List ℕ) → str_lt xs xs ≡ false
str_lt_irrefl [] = refl
str_lt_irrefl (x ∷ xs) = ground (arith, str_lt_irrefl xs)

str_lt_total :
    (xs ys : List ℕ) → str_lt xs ys ≡ false → bytes_eq xs ys ≡ false → str_lt ys xs ≡ true
str_lt_total [] [] h k = cc
str_lt_total (x ∷ xs) [] h k = refl
str_lt_total [] (y ∷ ys) h k = cc
str_lt_total (x ∷ xs) (y ∷ ys) h k = ground (arith, str_lt_total xs ys)

pub add_value-insert_sorted :
    (x : List ℕ) (vs : List (List ℕ)) → add_value x vs ≡ insert_sorted x vs
unfolding add_value
add_value-insert_sorted x [] = refl
add_value-insert_sorted x (v ∷ vs) = ground (arith, add_value-insert_sorted x vs)

insert_sorted-All :
    (w x : List ℕ) (vs : List (List ℕ))
    → str_lt w x ≡ true
    → All (λ v. str_lt w v ≡ true) vs
    → All (λ v. str_lt w v ≡ true) (insert_sorted x vs)
insert_sorted-All w x [] h k = (h, tt)
insert_sorted-All w x (v ∷ vs) h k = ground (arith, insert_sorted-All w x vs h k.1)

above_trans :
    (x v : List ℕ) (vs : List (List ℕ))
    → str_lt x v ≡ true
    → All (λ w. str_lt v w ≡ true) vs
    → All (λ w. str_lt x w ≡ true) vs
above_trans x v [] h k = tt
above_trans x v (w ∷ vs) h k = (str_lt_trans x v w h k.0, above_trans x v vs h k.1)

pub insert_sorted-IsSorted :
    (x : List ℕ) (vs : List (List ℕ)) → IsSorted vs → IsSorted (insert_sorted x vs)
insert_sorted-IsSorted x [] h = (tt, tt)
insert_sorted-IsSorted x (v ∷ vs) h = ground (
  arith,
  insert_sorted-IsSorted x vs h.1,
  insert_sorted-All v x vs,
  str_lt_total v x,
  above_trans x v vs,
)

pub member-insert_sorted :
    (x y : List ℕ) (vs : List (List ℕ))
    → member y (insert_sorted x vs) ≡ (if bytes_eq x y then true else member y vs)
member-insert_sorted x y [] = refl
member-insert_sorted x y (v ∷ vs) =
    ground
      (arith, member-insert_sorted x y vs, bytes_eq_iff v x, bytes_eq_iff v y, bytes_eq_iff x y)

abbrev pub without : List ℕ → List (List ℕ) → List (List ℕ)
without x [] = []
without x (v ∷ vs) = if v == x then vs else v ∷ without x vs

without-All {κ} :
    (P : List ℕ → Type κ) (x : List ℕ) (vs : List (List ℕ)) → All P vs → All P (without x vs)
without-All P x [] h = tt
without-All P x (v ∷ vs) h = ground (arith, without-All P x vs h.1)

pub without-IsSorted : (x : List ℕ) (vs : List (List ℕ)) → IsSorted vs → IsSorted (without x vs)
without-IsSorted x [] h = tt
without-IsSorted x (v ∷ vs) h =
    ground (arith, without-IsSorted x vs h.1, without-All (λ w. str_lt v w ≡ true) x vs h.0)

member_above :
    (x : List ℕ) (vs : List (List ℕ)) → All (λ v. str_lt x v ≡ true) vs → member x vs ≡ false
member_above x [] h = refl
member_above x (v ∷ vs) h = ground (arith, member_above x vs h.1, str_lt_irrefl x, bytes_eq_iff v x)

pub drop_value-without :
    (x : List ℕ) (vs : List (List ℕ))
    → IsSorted vs
    → drop_value x vs ≡ (if member x vs then some (without x vs) else none)
unfolding drop_value
drop_value-without x [] h = refl
drop_value-without x (v ∷ vs) h = ground (
  arith,
  drop_value-without x vs h.1,
  str_lt_irrefl x,
  bytes_eq_iff v x,
  str_lt_total v x,
  above_trans x v vs,
  member_above x vs,
)

pub member-without :
    (x y : List ℕ) (vs : List (List ℕ))
    → IsSorted vs
    → member y (without x vs) ≡ (if bytes_eq x y then false else member y vs)
member-without x y [] h = ground arith
member-without x y (v ∷ vs) h = ground (
  arith,
  member-without x y vs h.1,
  bytes_eq_iff v x,
  bytes_eq_iff v y,
  bytes_eq_iff x y,
  member_above x vs,
)

pub length-without :
    (x : List ℕ) (vs : List (List ℕ)) → member x vs ≡ true → length (without x vs) + 1 ≡ length vs
length-without x [] h = cc
length-without x (v ∷ vs) h = ground (arith, length-without x vs)

pub length-insert_sorted : (x : List ℕ) (vs : List (List ℕ)) → 0 < length (insert_sorted x vs)
length-insert_sorted x [] = omega arith
length-insert_sorted x (v ∷ vs) = ground arith
